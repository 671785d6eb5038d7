-- ===== src/Middleware/Client.antt =====
-- middleware/logger.go: the address of a client, and middleware/ratelimit.go: the handler of the
-- rate limiter. net.SplitHostPort is a parameter.
pub mod Spoofing
use xray_web_maneger.Common.{
  ℕ, Text, is_empty, Bool, true, false, not, ◌&&◌, Option, none, some, List, [], ◌∷◌, take, ltb,
  if◌then◌else◌,
}
use xray_web_maneger.Common.Strings.{trim_space, index_byte}
use xray_web_maneger.Middleware.Http.{Request, Response, Outcome, reply, forward, json_error}
use xray_web_maneger.Middleware.RateLimit.{RateLimiter, check_and_record}

-- The first address of X-Forwarded-For; a comma at the very front does not count.
pub first_forwarded : Text → Text
first_forwarded xff = elim (index_byte b',' xff) [
  | none ↦ trim_space xff
  | some idx ↦ if ltb 0 idx then trim_space (take idx xff) else trim_space xff
]

-- The response of the limiter.
abbrev pub too_many_requests : Response
too_many_requests = json_error [] "请求过于频繁，请稍后再试" 429 "rate_limit"

module _ (split_host_port : Text → Option (Text × Text)) where
  -- The address of the connection.
  abbrev pub remote_host : Text → Text
  remote_host remote_addr = elim (split_host_port remote_addr) [
    | none ↦ remote_addr
    | some (host, port) ↦ host
  ]

  pub client_ip : Request → Bool → Text
  client_ip r trust_proxy =
      if trust_proxy && not (is_empty r.x_real_ip)
      then trim_space r.x_real_ip
      else if trust_proxy && not (is_empty r.x_forwarded_for)
      then first_forwarded r.x_forwarded_for
      else remote_host r.remote_addr

  -- ClientIPFromContext: the address that Logger has put into the context, if it has.
  unfoldable pub client_ip_from_context : Option Text → Request → Text
  client_ip_from_context none r = client_ip r false
  client_ip_from_context (some ip) r = ip

  -- The handler that RateLimit returns, for one request.
  pub rate_limit : Bool → RateLimiter → Request → ℕ → RateLimiter × Outcome
  rate_limit trust_proxy rl r now =
      let (rl', allowed) = check_and_record rl (client_ip r trust_proxy) now in
      (rl', if not allowed then reply too_many_requests else forward [])
