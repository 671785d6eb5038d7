-- ===== src/Server/Routes/Table.antt =====
-- RegisterHandlers: which requests reach which handler.
use xray_web_maneger.Common.{
  ◌≡◌, refl, subst, sym, Text, codes, text_eq, text_eq_iff, Bool, true, false, ◌&&◌, ◌||◌, List, [],
  ◌∷◌, All, Bool-cases, inl, inr, ◌⊎◌, arith,
}
use xray_web_maneger.Server.Routes.{
  Handler, handle_health_check, handle_get_config, handle_get_outbounds,
  handle_get_outbounds_status, handle_get_current_outbound, handle_stats_sse,
  handle_switch_outbound, handle_get_logs, Answer, handled, not_found, register_handlers, serve_mux,
  choose,
}

-- The path and the methods of a handler.
abbrev pub path_of : Handler → Text
path_of handle_health_check = codes "/api/health"
path_of handle_get_config = codes "/api/config"
path_of handle_get_outbounds = codes "/api/outbounds"
path_of handle_get_outbounds_status = codes "/api/outbounds-status"
path_of handle_get_current_outbound = codes "/api/current-outbound"
path_of handle_stats_sse = codes "/api/stats-sse"
path_of handle_switch_outbound = codes "/api/switch-outbound"
path_of handle_get_logs = codes "/api/logs"

abbrev pub allows : Handler → Text → Bool
allows handle_switch_outbound m = text_eq m (codes "POST")
allows _ m = text_eq m (codes "GET") || text_eq m (codes "HEAD")

abbrev pub is_handled : Handler → Answer → Bool
is_handled handle_health_check (handled handle_health_check) = true
is_handled handle_get_config (handled handle_get_config) = true
is_handled handle_get_outbounds (handled handle_get_outbounds) = true
is_handled handle_get_outbounds_status (handled handle_get_outbounds_status) = true
is_handled handle_get_current_outbound (handled handle_get_current_outbound) = true
is_handled handle_stats_sse (handled handle_stats_sse) = true
is_handled handle_switch_outbound (handled handle_switch_outbound) = true
is_handled handle_get_logs (handled handle_get_logs) = true
is_handled _ _ = false

known :
    (k h : Handler) (m : Text)
    → is_handled h (serve_mux register_handlers m (path_of k))
      ≡ text_eq (path_of k) (path_of h) && allows h m
unfolding serve_mux choose register_handlers
known handle_health_check h m = ground arith
known handle_get_config h m = ground arith
known handle_get_outbounds h m = ground arith
known handle_get_outbounds_status h m = ground arith
known handle_get_current_outbound h m = ground arith
known handle_stats_sse h m = ground arith
known handle_switch_outbound h m = ground arith
known handle_get_logs h m = ground arith

abbrev handlers : List Handler
handlers =
    handle_health_check ∷ handle_get_config ∷ handle_get_outbounds ∷ handle_get_outbounds_status
    ∷ handle_get_current_outbound ∷ handle_stats_sse ∷ handle_switch_outbound ∷ handle_get_logs ∷ []

-- The path is that of a handler, or of none in the list.
which :
    (p : Text) (ks : List Handler)
    → ((k : Handler) × (path_of k ≡ p)) ⊎ All (λ k. text_eq p (path_of k) ≡ false) ks
which p [] = inr tt
which p (k ∷ ks) = elim (Bool-cases (text_eq p (path_of k))) [
  | inl e ↦ inl (k, sym ((text_eq_iff p (path_of k)).0 e))
  | inr e ↦ elim (which p ks) [ inl found ↦ inl found | inr none_of ↦ inr (e, none_of) ]
]

unknown :
    (m p : Text)
    → All (λ k. text_eq p (path_of k) ≡ false) handlers
    → serve_mux register_handlers m p ≡ not_found
unfolding serve_mux choose register_handlers
unknown m p n =
    rw
      (
        n.0, n.1.0, n.1.1.0, n.1.1.1.0, n.1.1.1.1.0, n.1.1.1.1.1.0, n.1.1.1.1.1.1.0,
        n.1.1.1.1.1.1.1.0,
      )
      refl

unknown_path :
    (h : Handler) (p : Text)
    → All (λ k. text_eq p (path_of k) ≡ false) handlers
    → text_eq p (path_of h) ≡ false
unknown_path handle_health_check p n = n.0
unknown_path handle_get_config p n = n.1.0
unknown_path handle_get_outbounds p n = n.1.1.0
unknown_path handle_get_outbounds_status p n = n.1.1.1.0
unknown_path handle_get_current_outbound p n = n.1.1.1.1.0
unknown_path handle_stats_sse p n = n.1.1.1.1.1.0
unknown_path handle_switch_outbound p n = n.1.1.1.1.1.1.0
unknown_path handle_get_logs p n = n.1.1.1.1.1.1.1.0

not_found-is_handled : (h : Handler) → is_handled h not_found ≡ false
not_found-is_handled h = ground arith

-- A request at the API's ServeMux reaches a handler exactly if it has the handler's path and a
-- method of the handler: POST for the switch, GET or HEAD for any other.
pub serve_mux-is_handled :
    (h : Handler) (m p : Text)
    → is_handled h (serve_mux register_handlers m p) ≡ text_eq p (path_of h) && allows h m
serve_mux-is_handled h m p = elim (which p handlers) [
  | inl (k, e) ↦
      subst
        (λ q. is_handled h (serve_mux register_handlers m q) ≡ text_eq q (path_of h) && allows h m)
        e (known k h m)
  | inr none_of ↦ rw (unknown m p none_of, unknown_path h p none_of) (not_found-is_handled h)
]
