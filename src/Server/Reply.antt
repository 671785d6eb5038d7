-- ===== src/Server/Reply.antt =====
-- server/handlers.go: the answers of the API's handlers, jsonResponse and jsonError, and
-- handleGetConfig.
use xray_web_maneger.Common.{ℕ, String, Text, codes, is_empty, if◌then◌else◌}
use xray_web_maneger.Config.{Config}

-- Every answer with a value of a handler has the status 200.
pub data Reply (A : Type 0) : Type 0 where
  ok_json : A → Reply A
  error_json : ℕ → String → String → Reply A

pub record ConfigResponse : Type 0 where
  pub balancer_tag : Text
  pub log_type : Text

pub handle_get_config : Config → Reply ConfigResponse
handle_get_config c = ok_json (record {
  balancer_tag = c.xray.balancer_tag;
  log_type = if is_empty c.log.log_type then codes "none" else c.log.log_type;
})
