-- ===== src/Server/Caches/Lifetimes.antt =====
-- The observatory's cache, and what a switch of the outbound does to the caches.
use xray_web_maneger.Common.{
  ℕ, ◌+◌, ◌≤◌, ◌<◌, ◌≡◌, ◌⊎◌, inl, inr, refl, sym, Text, Bool, true, false, Option, none, some,
  List, [], ◌∷◌, if◌then◌else◌, arith, Option-cases, Bool-cases,
}
use xray_web_maneger.Server.Outbounds.{
  OutboundStatusData, ListAnswer, find_best, choose, validate_outbound_tag,
}
use xray_web_maneger.Server.Caches.{
  observatory_cache_ttl, Caches, Times, ObservatoryAnswer, answered, update_obs_cache,
  get_all_outbound_statuses, handle_switch_outbound, is_nil, excluded_by, build_excluded_tags,
  find_best_available_node, update_excluded_tags_cache, is_fresh,
}

-- With an observatory client the statuses are those of the cache, written less than two seconds
-- before, or those that the observatory answers now, which are then cached, or none if the answer is
-- two seconds old when it is read back.
pub statuses-recent :
    (s : Caches) (at : Times) (answer : ObservatoryAnswer)
    → let r = get_all_outbound_statuses true s at answer in
      ((t : ℕ) × (s.obs_cache.timestamp ≡ some t)
        × (at.look < t + observatory_cache_ttl)
        × (r.1 ≡ s.obs_cache.content)
        × (r.0 ≡ s))
      ⊎ ((r.1 ≡ answered answer) × (r.0 ≡ update_obs_cache s (answered answer) at.write))
      ⊎ ((at.write + observatory_cache_ttl ≤ at.reread) × (r.1 ≡ []))
unfolding get_all_outbound_statuses update_obs_cache
statuses-recent s at answer = elim (Option-cases s.obs_cache.timestamp) [
  | inl e ↦ inr (ground arith)
  | inr (t, e) ↦ elim (Bool-cases (is_fresh (some t) at.look)) [
    | inl f ↦ inl (t, e, ground arith, ground arith, ground arith)
    | inr f ↦ inr (ground arith)
  ]
]

-- A switch asks Xray only for a tag that is valid, and changes the caches only if Xray accepts it:
-- the health cache is then stale, the observatory's is empty, and the excluded tags are kept.
pub handle_switch_outbound_lem :
    (s : Caches) (body : Option Text) (accepted : Bool)
    → let r = handle_switch_outbound s body accepted in
      ((r.2 ≡ none) × (r.0 ≡ s))
      ⊎ ((tag : Text) × (body ≡ some tag)
          × (r.2 ≡ some tag)
          × (validate_outbound_tag tag ≡ none)
          × (((accepted ≡ false) × (r.0 ≡ s))
              ⊎ ((accepted ≡ true)
                  × (r.0.health.stale ≡ true)
                  × (r.0.obs_cache.timestamp ≡ none)
                  × (r.0.excluded_tags ≡ s.excluded_tags))))
unfolding handle_switch_outbound
handle_switch_outbound_lem s none accepted = inl (refl, refl)
handle_switch_outbound_lem s (some tag) accepted = elim (Option-cases (validate_outbound_tag tag)) [
  | inl e ↦ inr (tag, refl, ground arith, e, ground arith)
  | inr (err, e) ↦ inl (ground arith)
]

-- After a switch that Xray accepts, a request for the statuses that no other one interrupts reports
-- what the observatory answers to it, if it reads its own write back within two seconds.
pub statuses_after_switch :
    (s : Caches) (tag : Text) (at : Times) (answer : ObservatoryAnswer)
    → validate_outbound_tag tag ≡ none
    → at.reread < at.write + observatory_cache_ttl
    → (get_all_outbound_statuses true (handle_switch_outbound s (some tag) true).0 at answer).1
      ≡ answered answer
unfolding handle_switch_outbound get_all_outbound_statuses update_obs_cache
statuses_after_switch s tag at answer valid soon = ground arith

statuses-answered :
    (s : Caches) (at : Times) (answer : ObservatoryAnswer)
    → is_fresh s.obs_cache.timestamp at.look ≡ false
    → at.reread < at.write + observatory_cache_ttl
    → get_all_outbound_statuses true s at answer
      ≡ (update_obs_cache s (answered answer) at.write, answered answer)
unfolding get_all_outbound_statuses update_obs_cache
statuses-answered s at answer o soon = ground arith

module _ (to_lower : Text → Text) where
  tags-answered :
      (s : Caches) (at : Times) (list : Option ListAnswer)
      → is_fresh s.excluded_tags.timestamp at.look ≡ false
      → at.reread < at.write + observatory_cache_ttl
      → (build_excluded_tags to_lower s at list).1 ≡ excluded_by to_lower list
  unfolding build_excluded_tags update_excluded_tags_cache
  tags-answered s at list o soon = ground arith

  find_best_empty : (excluded : List Text) → find_best excluded [] ≡ []
  unfolding find_best choose
  find_best_empty excluded = refl

  -- With caches that are out of date, automatic mode reports the best of the nodes that the observatory
  -- answers now, without the ones that the list of outbounds excludes now.
  pub best_node-fresh :
      (s : Caches) (at at' : Times) (answer : ObservatoryAnswer) (list : Option ListAnswer)
      → is_fresh s.obs_cache.timestamp at.look ≡ false
      → is_fresh s.excluded_tags.timestamp at'.look ≡ false
      → at.reread < at.write + observatory_cache_ttl
      → at'.reread < at'.write + observatory_cache_ttl
      → (find_best_available_node to_lower true s at answer at' list).1
        ≡ find_best (excluded_by to_lower list) (answered answer)
  unfolding find_best_available_node update_obs_cache
  best_node-fresh s at at' answer list o e soon soon' =
      rw
        (
          statuses-answered s at answer o soon,
          tags-answered (update_obs_cache s (answered answer) at.write) at' list e soon',
        )
        (some_or_none (update_obs_cache s (answered answer) at.write)
          (build_excluded_tags to_lower (update_obs_cache s (answered answer) at.write) at' list).0
          (answered answer))
    where
      some_or_none :
          (early late : Caches) (all : List OutboundStatusData)
          → let r : Caches × Text =
              if is_nil all
              then (early, [])
              else (late, find_best (excluded_by to_lower list) all) in
            r.1 ≡ find_best (excluded_by to_lower list) all
      some_or_none early late [] = sym (find_best_empty (excluded_by to_lower list))
      some_or_none early late (x ∷ rest) = refl
