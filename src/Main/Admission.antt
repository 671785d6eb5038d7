-- ===== src/Main/Admission.antt =====
-- finalHandler: which requests reach a handler of the API.
use xray_web_maneger.Common.{
  text_eq_refl, ℕ, ◌≡◌, ◌↔◌, refl, ◌∙◌, ap, String, Text, [], not, if◌then◌else◌, codes, text_eq,
  text_eq_iff, is_empty, Bool, true, false, ◌&&◌, Option, some, List, arith, Bool-cases, inl, inr,
  subst, sym,
}
use xray_web_maneger.Config.{Config, Url}
use xray_web_maneger.Middleware.Http.{Request, Response, is_forward}
use xray_web_maneger.Middleware.RateLimit.{check_and_record}
use xray_web_maneger.Middleware.Auth.{basic_auth, is_auth_blocked}
use xray_web_maneger.Middleware.Auth.Access.{forward_iff, forward_only}
use xray_web_maneger.Middleware.Client.{client_ip, client_ip_from_context}
use xray_web_maneger.Middleware.Client.Spoofing.{rate_limit_lem}
use xray_web_maneger.Middleware.Origin.{check_origin}
use xray_web_maneger.Middleware.Cleanup.{Package}
use xray_web_maneger.Server.Routes.{
  Handler, Answer, answered, handled, redirected, file_served, register_handlers, serve_mux,
}
use xray_web_maneger.Server.Routes.Table.{path_of, allows, is_handled, serve_mux-is_handled}
use xray_web_maneger.Common.Strings.{has_prefix}
use xray_web_maneger.Main.{
  Served, matched_path, api_handler, main_mux, limited, protected, final_handler,
}

redirected-is_handled : (h : Handler) (to : Text) → is_handled h (redirected to) ≡ false
redirected-is_handled h to = ground arith

file_served-is_handled : (h : Handler) → is_handled h file_served ≡ false
file_served-is_handled h = ground arith

answered-is_handled : (h : Handler) (r : Response) → is_handled h (answered r) ≡ false
answered-is_handled h r = ground arith

-- The tests of mainMux: whether the path to match is "/api", it is the request's, that begins with
-- "/api/", and is the handler's; whether the method is one of the handler's; and the origin's.
choice :
    (h : Handler) (at_api same under_api hit allowed passes : Bool) (s t : Text) (api : Served)
    (headers : List (String × Text))
    → is_handled h api.1 ≡ passes && (hit && allowed)
    → same && (hit && at_api) ≡ false
    → hit && not under_api ≡ false
    → is_handled h
        (if at_api
          then ([], redirected s)
          else if not same
          then ([], redirected t)
          else if under_api
          then api
          else (headers, file_served)).1
      ≡ same && (hit && (allowed && passes))
choice h at_api same under_api hit allowed passes s t api headers a b c =
    ground (arith, redirected-is_handled h s, redirected-is_handled h t, file_served-is_handled h)

allows-not_connect : (h : Handler) (m : Text) → text_eq m (codes "CONNECT") && allows h m ≡ false
allows-not_connect h m = elim (Bool-cases (text_eq m (codes "CONNECT"))) [
  | inl e ↦
      subst (λ t. text_eq t (codes "CONNECT") && allows h t ≡ false)
        (sym ((text_eq_iff m (codes "CONNECT")).0 e)) (of_connect h)
  | inr e ↦ rw e refl
]
  where
    of_connect :
        (h : Handler)
        → text_eq (codes "CONNECT") (codes "CONNECT") && allows h (codes "CONNECT") ≡ false
    of_connect h = ground arith

at_path :
    (h : Handler)
    → (text_eq (path_of h) (path_of h) && text_eq (path_of h) (codes "/api") ≡ false)
      × (text_eq (path_of h) (path_of h) && not (has_prefix (path_of h) (codes "/api/")) ≡ false)
unfolding has_prefix
at_path h = ground arith

-- The paths of the handlers lie under "/api/".
hit_under_api :
    (h : Handler) (path : Text)
    → (text_eq path (path_of h) && text_eq path (codes "/api") ≡ false)
      × (text_eq path (path_of h) && not (has_prefix path (codes "/api/")) ≡ false)
hit_under_api h path = elim (Bool-cases (text_eq path (path_of h))) [
  | inl e ↦
      subst
        (λ t.
          (text_eq t (path_of h) && text_eq t (codes "/api") ≡ false)
          × (text_eq t (path_of h) && not (has_prefix t (codes "/api/")) ≡ false))
        (sym ((text_eq_iff path (path_of h)).0 e)) (at_path h)
  | inr e ↦ rw e (refl, refl)
]

handled_iff_is_handled : (h : Handler) (a : Answer) → (is_handled h a ≡ true) ↔ (a ≡ handled h)
handled_iff_is_handled h a = ground arith

-- A conjunction of six tests.
all_six :
    (a b c d e f : Bool)
    → (a && (b && (c && (d && (e && f)))) ≡ true)
      ↔ ((a ≡ true) × (b ≡ true) × (c ≡ true) × (d ≡ true) × (e ≡ true) × (f ≡ true))
all_six a b c d e f = ground arith

same_path :
    (hit : Bool) (path written : Text)
    → hit && text_eq written (codes "/api") ≡ false
    → text_eq path written && (hit && text_eq path (codes "/api")) ≡ false
same_path hit path written h = elim (Bool-cases (text_eq path written)) [
  | inl e ↦
      subst (λ t. text_eq t written && (hit && text_eq t (codes "/api")) ≡ false)
        (sym ((text_eq_iff path written).0 e)) (rw (text_eq_refl written) h)
  | inr e ↦ rw e refl
]

never_allowed : (a b : Bool) → a ≡ true → a && b ≡ false → b ≡ false
never_allowed a b e h = ground (arith, e, h)

both_false : (a b c : Bool) → a && (c && false) ≡ b && (c && false)
both_false a b c = ground arith

module _ (split_host_port : Text → Option (Text × Text)) (parse_url : Text → Option Url)
    (clean_path : Text → Text) where
  api_handler-is_handled :
      (h : Handler) (allowed : List Text) (r : Request)
      → is_handled h (api_handler split_host_port parse_url clean_path allowed r).1
        ≡ is_forward (check_origin parse_url allowed r)
          && is_handled h (serve_mux register_handlers r.method r.path)
  unfolding api_handler
  api_handler-is_handled h allowed r = ground arith

  limited-is_handled :
      (h : Handler) (cfg : Config) (dev_mode : Bool) (p : Package) (r : Request) (now : ℕ)
      → is_handled h (limited split_host_port parse_url clean_path cfg dev_mode p r now).1.1
        ≡ (check_and_record p.rate
            (client_ip split_host_port r cfg.server.trust_proxy_headers)
            now).1
          && is_handled h (main_mux split_host_port parse_url clean_path cfg dev_mode r).1
  unfolding limited
  limited-is_handled h cfg dev_mode p r now =
      ground (arith, rate_limit_lem split_host_port cfg.server.trust_proxy_headers p.rate r now)

  -- No handler has the method CONNECT, so that its path is cleaned.
  matched_path-clean :
      (h : Handler) (r : Request) (passes : Bool)
      → text_eq (matched_path split_host_port parse_url clean_path r) r.path
          && (text_eq r.path (path_of h) && (allows h r.method && passes))
        ≡ text_eq (clean_path r.path) r.path
          && (text_eq r.path (path_of h) && (allows h r.method && passes))
  unfolding matched_path
  matched_path-clean h r passes = elim (Bool-cases (text_eq r.method (codes "CONNECT"))) [
    | inl e ↦
        let never : allows h r.method ≡ false =
          never_allowed _ _ e (allows-not_connect h r.method) in
        rw never (both_false _ _ (text_eq r.path (path_of h)))
    | inr e ↦ rw e refl
  ]

  -- A request that has the path and a method of a handler, on its way through mainMux.
  main_mux-is_handled :
      (h : Handler) (cfg : Config) (dev_mode : Bool) (r : Request)
      → is_handled h (main_mux split_host_port parse_url clean_path cfg dev_mode r).1
        ≡ text_eq (clean_path r.path) r.path
          && (text_eq r.path (path_of h)
              && (allows h r.method
                  && is_forward (check_origin parse_url cfg.server.allowed_origins r)))
  unfolding main_mux
  main_mux-is_handled h cfg dev_mode r =
      let (a, b) = hit_under_api h r.path in
      let path = matched_path split_host_port parse_url clean_path r in
      choice h (text_eq path (codes "/api")) (text_eq path r.path)
        (has_prefix r.path (codes "/api/")) (text_eq r.path (path_of h)) (allows h r.method)
        (is_forward (check_origin parse_url cfg.server.allowed_origins r)) _ _ _ _
        (rw
          (
            api_handler-is_handled h cfg.server.allowed_origins r,
            serve_mux-is_handled h r.method r.path,
          )
          refl)
        (same_path (text_eq r.path (path_of h)) path r.path a) b
      ∙ matched_path-clean h r _

  pub final_handler-is_handled :
      (h : Handler) (cfg : Config) (dev_mode : Bool) (p : Package) (r : Request) (victim : Text)
      (now later : ℕ)
      → let ip = client_ip split_host_port r cfg.server.trust_proxy_headers in
        is_handled h
          (final_handler split_host_port parse_url clean_path cfg dev_mode p r victim now later).1.1
        ≡ is_forward
            (basic_auth cfg.auth.username cfg.auth.password p.auth ip victim now r.basic_auth).1
          && ((check_and_record p.rate ip later).1
              && (text_eq (clean_path r.path) r.path
                  && (text_eq r.path (path_of h)
                      && (allows h r.method
                          && is_forward (check_origin parse_url cfg.server.allowed_origins r)))))
  unfolding final_handler protected client_ip_from_context
  final_handler-is_handled h cfg dev_mode p r victim now later = ground (
    arith,
    limited-is_handled h cfg dev_mode
        (record p {
          auth =
              (basic_auth cfg.auth.username cfg.auth.password p.auth
                (client_ip split_host_port r cfg.server.trust_proxy_headers) victim now
                r.basic_auth).0;
        })
        r later,
    main_mux-is_handled h cfg dev_mode r,
    answered-is_handled h,
  )

  -- With authentication configured, a request reaches a handler of the API exactly if its client's
  -- address is not locked out, it carries the configured user name and password, the rate limiter
  -- allows the address another request, it has the clean path and a method of the handler, and the
  -- check of its origin passes it.
  pub handled_iff :
      (h : Handler) (cfg : Config) (dev_mode : Bool) (p : Package) (r : Request) (victim : Text)
      (now later : ℕ)
      → is_empty cfg.auth.username ≡ false
      → is_empty cfg.auth.password ≡ false
      → let ip = client_ip split_host_port r cfg.server.trust_proxy_headers in
        ((final_handler split_host_port parse_url clean_path cfg dev_mode p r victim now later).1.1
          ≡ handled h)
        ↔ ((((is_auth_blocked p.auth.auth ip now).1 ≡ false)
              × (r.basic_auth ≡ some (cfg.auth.username, cfg.auth.password)))
            × ((check_and_record p.rate ip later).1 ≡ true)
            × (clean_path r.path ≡ r.path)
            × (r.path ≡ path_of h)
            × (allows h r.method ≡ true)
            × (is_forward (check_origin parse_url cfg.server.allowed_origins r) ≡ true))
  handled_iff h cfg dev_mode p r victim now later named secret =
      let ip = client_ip split_host_port r cfg.server.trust_proxy_headers in
      let served =
        (final_handler split_host_port parse_url clean_path cfg dev_mode p r victim now
          later).1.1 in
      let passes =
        basic_auth cfg.auth.username cfg.auth.password p.auth ip victim now r.basic_auth in
      let whole = final_handler-is_handled h cfg dev_mode p r victim now later in
      let tests = all_six (is_forward passes.1) _ _ _ _ _ in
      let auth =
        forward_iff cfg.auth.username cfg.auth.password p.auth ip victim now r.basic_auth named
          secret in
      let only =
        forward_only cfg.auth.username cfg.auth.password p.auth ip victim now r.basic_auth in
      let clean = text_eq_iff (clean_path r.path) r.path in
      let path = text_eq_iff r.path (path_of h) in
      (
        λ e.
            let (a, b, c, d, k, f) = tests.0 (sym whole ∙ (handled_iff_is_handled h served).1 e) in
            (auth.0 (only a), b, clean.0 c, path.0 d, k, f),
        λ (a, b, c, d, k, f).
            (handled_iff_is_handled h served).0
              (whole ∙ tests.1 (ap is_forward (auth.1 a), b, clean.1 c, path.1 d, k, f)),
      )
