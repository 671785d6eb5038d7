-- ===== src/Server/Caches.antt =====
-- server/handleroutbound.go: the observatory's statuses and the excluded tags behind caches, the
-- current outbound, and the switch to another one.
-- A function here is a call that no other request interrupts, which does the work of its
-- singleflight call itself; Caches/Flight has the calls for the statuses that overlap. The clock is read at each place
-- where the source reads it, so a function has one time for each. A zero time.Time is `none`.
pub mod Lifetimes
pub mod Flight
mod Tests
use xray_web_maneger.Common.{
  ℕ, ◌+◌, Text, codes, is_empty, Bool, true, false, not, Option, none, some, List, [], ◌∷◌, ltb,
  is_some, if◌then◌else◌, String,
}
use xray_web_maneger.Server.Reply.{Reply, ok_json, error_json}
use xray_web_maneger.Server.Health.{CachedHealth}
use xray_web_maneger.Server.Outbounds.{
  OutboundStatusData, Outbound, ListAnswer, list_failed, no_list, outbounds, excluded_of, find_best,
  TagError, tag_too_long, illegal_character, validate_outbound_tag,
}

abbrev pub observatory_cache_ttl : ℕ
observatory_cache_ttl = 2_000_000_000

-- A cache of a list: its content and when it was written.
pub record Cached (A : Type 0) : Type 0 where
  pub content : List A
  pub timestamp : Option ℕ

-- The part of Server that these handlers share.
pub record Caches : Type 0 where
  pub obs_cache : Cached OutboundStatusData
  pub excluded_tags : Cached Text
  pub health : CachedHealth

-- time.Since(timestamp) < observatoryCacheTTL.
abbrev pub is_fresh : Option ℕ → ℕ → Bool
is_fresh none now = false
is_fresh (some t) now = ltb now (t + observatory_cache_ttl)

-- obsSnapshot and excludedTagsSnapshot.
abbrev pub snapshot : {A : Type 0} → Cached A → ℕ → Option (List A)
snapshot c now = if is_fresh c.timestamp now then some c.content else none

abbrev pub or_empty : {A : Type 0} → Option (List A) → List A
or_empty none = []
or_empty (some xs) = xs

-- The times of one call: of the first look at the cache, of the write, and of the second look.
pub record Times : Type 0 where
  pub look : ℕ
  pub write : ℕ
  pub reread : ℕ

-- What GetOutboundStatus answers.
pub data ObservatoryAnswer : Type 0 where
  status_failed no_status : ObservatoryAnswer
  statuses : List OutboundStatusData → ObservatoryAnswer

abbrev pub answered : ObservatoryAnswer → List OutboundStatusData
answered status_failed = []
answered no_status = []
answered (statuses xs) = xs

pub update_obs_cache : Caches → List OutboundStatusData → ℕ → Caches
update_obs_cache s list now = record s {
  obs_cache = record { content = list; timestamp = some now };
}

pub update_excluded_tags_cache : Caches → List Text → ℕ → Caches
update_excluded_tags_cache s tags now = record s {
  excluded_tags = record { content = tags; timestamp = some now };
}

-- getAllOutboundStatuses; `client` says whether there is an observatory client.
pub get_all_outbound_statuses :
    Bool → Caches → Times → ObservatoryAnswer → Caches × List OutboundStatusData
get_all_outbound_statuses client s at answer =
    let s' = update_obs_cache s (answered answer) at.write in
    if not client
    then (s, [])
    else if is_fresh s.obs_cache.timestamp at.look
    then (s, s.obs_cache.content)
    else (s', or_empty (snapshot s'.obs_cache at.reread))

abbrev pub is_nil {ℓ} : {A : Type ℓ} → List A → Bool
is_nil [] = true
is_nil (_ ∷ _) = false

pub handle_get_outbounds_status :
    Bool → Caches → Times → ObservatoryAnswer → Caches × Reply (List OutboundStatusData)
handle_get_outbounds_status client s at answer =
    let (s', all) = get_all_outbound_statuses client s at answer in (s', ok_json all)

module _ (to_lower : Text → Text) where
  -- The tags that the coalesced function of buildExcludedTags finds; `none` is a nil client.
  abbrev pub excluded_by : Option ListAnswer → List Text
  excluded_by none = []
  excluded_by (some list_failed) = []
  excluded_by (some no_list) = []
  excluded_by (some (outbounds list)) = excluded_of to_lower list

  pub build_excluded_tags : Caches → Times → Option ListAnswer → Caches × List Text
  build_excluded_tags s at answer =
      let s' = update_excluded_tags_cache s (excluded_by answer) at.write in
      elim (snapshot s.excluded_tags at.look) [
        | some tags ↦ (s, tags)
        | none ↦ (s', or_empty (snapshot s'.excluded_tags at.reread))
      ]

  -- findBestAvailableNode.
  pub find_best_available_node :
      Bool → Caches → Times → ObservatoryAnswer → Times → Option ListAnswer → Caches × Text
  find_best_available_node client s at answer at' list =
      let (s1, all) = get_all_outbound_statuses client s at answer in
      let (s2, excluded) = build_excluded_tags s1 at' list in
      if not client then (s, []) else if is_nil all then (s1, []) else (s2, find_best excluded all)

pub record CurrentOutboundData : Type 0 where
  pub current : Text
  pub auto : Bool
  pub active_node : Text

-- What GetBalancerInfo answers: an error, nothing, or the override's target, empty without one.
pub data BalancerAnswer : Type 0 where
  balancer_failed no_balancer : BalancerAnswer
  target : Text → BalancerAnswer

module _ (to_lower : Text → Text) where
  pub handle_get_current_outbound :
      BalancerAnswer
      → Bool
      → Caches
      → Times
      → ObservatoryAnswer
      → Times
      → Option ListAnswer
      → Caches × Reply CurrentOutboundData
  handle_get_current_outbound balancer_failed client s at answer at' list =
      (s, error_json 502 "获取负载均衡器信息失败" "bad_gateway")
  handle_get_current_outbound no_balancer client s at answer at' list =
      (s, error_json 502 "收到空的负载均衡器响应" "bad_gateway")
  handle_get_current_outbound (target t) client s at answer at' list =
      let (s', node) = find_best_available_node to_lower client s at answer at' list in
      if is_empty t
      then (s', ok_json (record { current = []; auto = true; active_node = node }))
      else (s, ok_json (record { current = t; auto = false; active_node = [] }))

abbrev pub tag_message : TagError → String
tag_message tag_too_long = "出站标签过长"
tag_message illegal_character = "出站标签包含非法字符"

-- The caches after a switch: health and observatory are out of date.
abbrev pub invalidate : Caches → Caches
invalidate s = record s {
  health = record { status = []; timestamp = 0; stale = true; ttl = 0 };
  obs_cache = record { content = []; timestamp = none };
}

-- handleSwitchOutbound: the body's tag, `none` if it does not decode, and whether Xray accepts the
-- override. The last component is the target that Xray is asked for.
pub handle_switch_outbound : Caches → Option Text → Bool → Caches × Reply String × Option Text
handle_switch_outbound s none accepted = (s, error_json 400 "无效的请求体" "validation", none)
handle_switch_outbound s (some tag) accepted = elim (validate_outbound_tag tag) [
  | some e ↦ (s, error_json 400 (tag_message e) "validation", none)
  | none ↦
      if accepted
      then (invalidate s, ok_json "success", some tag)
      else (s, error_json 500 "切换出站失败" "server", some tag)
]
