-- ===== src/Server/Outbounds.antt =====
-- server/handleroutbound.go: the list of outbounds, the choice of the node that is in use, and the
-- check of a tag. strings.ToLower is a parameter; the answers of gRPC are arguments.
pub mod Fastest
pub mod Tags
mod Tests
use xray_web_maneger.Common.{
  ℕ, Text, codes, text_eq, is_empty, Bool, true, false, not, ◌==◌, ◌&&◌, ◌||◌, Option, none, some,
  List, [], ◌∷◌, ltb, leb, length, any, if◌then◌else◌,
}
use xray_web_maneger.Common.Int.{ℤ, is_positive, pos_part}
use xray_web_maneger.Common.Strings.{split_byte, max_int64}
use xray_web_maneger.Server.Reply.{Reply, ok_json, error_json}

abbrev pub exclude_protocols : List Text
exclude_protocols = codes "loopback" ∷ codes "freedom" ∷ codes "dns" ∷ codes "blackhole" ∷ []

abbrev pub is_in : Text → List Text → Bool
is_in t set = any (λ x. text_eq x t) set

pub record OutboundInfo : Type 0 where
  pub tag : Text
  pub protocol : Text

pub record OutboundStatusData : Type 0 where
  pub tag : Text
  pub alive : Bool
  pub delay : ℤ

-- An outbound of ListOutbounds: its tag, and the type of its settings unless they are nil.
pub record Outbound : Type 0 where
  pub tag : Text
  pub settings : Option Text

-- What ListOutbounds answers.
pub data ListAnswer : Type 0 where
  list_failed no_list : ListAnswer
  outbounds : List Outbound → ListAnswer

abbrev last_part : Text → List Text → Text
last_part part [] = part
last_part part (next ∷ parts) = last_part next parts

-- The part of the type that names the protocol: the third, or the last of fewer.
abbrev protocol_part : Text × List Text → Text
protocol_part (first, second ∷ third ∷ parts) = third
protocol_part (first, second ∷ []) = second
protocol_part (first, []) = first

module _ (to_lower : Text → Text) where
  pub parse_protocol : Option Text → Text
  parse_protocol none = codes "unknown"
  parse_protocol (some kind) =
      if is_empty kind then codes "unknown" else to_lower (protocol_part (split_byte b'.' kind))

  pub is_valid_outbound : Text → Bool
  is_valid_outbound protocol_name = not (is_in protocol_name exclude_protocols)

  -- The loop of handleGetOutbounds.
  pub list_outbounds : List Outbound → List OutboundInfo
  list_outbounds [] = []
  list_outbounds (outbound ∷ rest) =
      let protocol_name = parse_protocol outbound.settings in
      let more = list_outbounds rest in
      if is_empty outbound.tag
      then more
      else if is_valid_outbound protocol_name
      then record { tag = outbound.tag; protocol = protocol_name } ∷ more
      else more

  pub handle_get_outbounds : ListAnswer → Reply (List OutboundInfo)
  handle_get_outbounds list_failed = error_json 500 "获取出站列表失败" "server"
  handle_get_outbounds no_list = error_json 502 "收到空的出站列表响应" "bad_gateway"
  handle_get_outbounds (outbounds list) = ok_json (list_outbounds list)

  -- The loop of buildExcludedTags, as a list of the tags.
  pub excluded_of : List Outbound → List Text
  excluded_of [] = []
  excluded_of (outbound ∷ rest) =
      let more = excluded_of rest in
      if is_in (parse_protocol outbound.settings) exclude_protocols
      then outbound.tag ∷ more
      else more

-- The variables of the loop in findBestAvailableNode; minDelay is never negative.
pub record Best : Type 0 where
  pub best_node : Text
  pub min_delay : ℕ
  pub first_alive : Text

-- Whether the loop looks at a status further than at its tag.
abbrev pub is_candidate : List Text → OutboundStatusData → Bool
is_candidate excluded status = not (is_in status.tag excluded) && status.alive

-- One round of the loop.
pub visit : List Text → OutboundStatusData → Best → Best
visit excluded status b =
    if not (is_candidate excluded status)
    then b
    else (if is_positive status.delay && ltb (pos_part status.delay) b.min_delay
        then record {
          best_node = status.tag;
          min_delay = pos_part status.delay;
          first_alive = if is_empty b.first_alive then status.tag else b.first_alive;
        }
        else record b {
          first_alive = if is_empty b.first_alive then status.tag else b.first_alive;
        })

unfoldable pub choose : List Text → Best → List OutboundStatusData → Best
choose excluded b [] = b
choose excluded b (status ∷ rest) = choose excluded (visit excluded status b) rest

-- findBestAvailableNode, on the statuses and the tags that are excluded.
unfoldable pub find_best : List Text → List OutboundStatusData → Text
find_best excluded statuses =
    let b =
      choose excluded (record { best_node = []; min_delay = max_int64; first_alive = [] })
        statuses in
    if is_empty b.best_node then b.first_alive else b.best_node

pub data TagError : Type 0 where
  tag_too_long illegal_character : TagError

-- A character that is not ASCII has only bytes that are refused, so the loop by bytes is the one by
-- characters.
abbrev pub is_tag_char : ℕ → Bool
is_tag_char c =
    (leb b'a' c && leb c b'z')
    || (leb b'A' c && leb c b'Z')
    || (leb b'0' c && leb c b'9')
    || c == b'-'
    || c == b'_'
    || c == b'.'
    || c == b':'

unfoldable pub validate_outbound_tag : Text → Option TagError
validate_outbound_tag tag =
    if ltb 256 (length tag)
    then some tag_too_long
    else if is_empty tag
    then none
    else if any (λ c. not (is_tag_char c)) tag
    then some illegal_character
    else none
