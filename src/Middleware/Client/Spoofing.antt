-- ===== src/Middleware/Client/Spoofing.antt =====
-- Without trust in proxies, no header changes whose quota a request counts against.
use xray_web_maneger.Common.{
  ℕ, ◌+◌, ◌*◌, ◌≤◌, ◌<◌, ◌≡◌, refl, Text, Text-discrete, Bool, false, to_nat, Option, List, [], ◌∷◌,
  ite, length, arith, All,
}
use xray_web_maneger.Middleware.Http.{Request, is_forward}
use xray_web_maneger.Middleware.RateLimit.{RateLimiter, max_tracked_ips, check_and_record}
use xray_web_maneger.Middleware.RateLimit.Invariant.{IsValid}
use xray_web_maneger.Middleware.RateLimit.Quota.{passed, passed-le-limit}
use xray_web_maneger.Middleware.Client.{remote_host, client_ip, rate_limit}

module _ (split_host_port : Text → Option (Text × Text)) where
  -- How many requests of a host the limiter lets through.
  abbrev pub forwarded : RateLimiter → Text → List (Request × ℕ) → ℕ
  forwarded rl host [] = 0
  forwarded rl host ((r, now) ∷ es) =
      let (rl', outcome) = rate_limit split_host_port false rl r now in
      let rest = forwarded rl' host es in
      ite (Text-discrete (remote_host split_host_port r.remote_addr) host)
        (to_nat (is_forward outcome) + rest) rest

  -- The addresses of the connections, with the times.
  abbrev hosts : List (Request × ℕ) → List (Text × ℕ)
  hosts [] = []
  hosts ((r, now) ∷ es) = (remote_host split_host_port r.remote_addr, now) ∷ hosts es

  -- RateLimit lets a request through exactly if the check of its client's address does.
  pub rate_limit_lem :
      (trust_proxy : Bool) (rl : RateLimiter) (r : Request) (now : ℕ)
      → let checked = check_and_record rl (client_ip split_host_port r trust_proxy) now in
        ((rate_limit split_host_port trust_proxy rl r now).0 ≡ checked.0)
        × (is_forward (rate_limit split_host_port trust_proxy rl r now).1 ≡ checked.1)
  unfolding rate_limit
  rate_limit_lem trust_proxy rl r now = ground arith

  pub client_ip-remote :
      (r : Request) → client_ip split_host_port r false ≡ remote_host split_host_port r.remote_addr
  unfolding client_ip
  client_ip-remote r = refl

  rate_limit-eq :
      (rl : RateLimiter) (r : Request) (now : ℕ)
      → let checked = check_and_record rl (remote_host split_host_port r.remote_addr) now in
        ((rate_limit split_host_port false rl r now).0 ≡ checked.0)
        × (is_forward (rate_limit split_host_port false rl r now).1 ≡ checked.1)
  unfolding client_ip
  rate_limit-eq rl r now = rate_limit_lem false rl r now

  forwarded-passed :
      (rl : RateLimiter) (host : Text) (es : List (Request × ℕ))
      → forwarded rl host es ≡ passed rl host (hosts es)
  forwarded-passed rl host [] = refl
  forwarded-passed rl host ((r, now) ∷ es) =
      let (state, answer) = rate_limit-eq rl r now in
      let rest =
        forwarded-passed (check_and_record rl (remote_host split_host_port r.remote_addr) now).0
          host es in
      rw (state, answer, rest) refl

  -- Without trust in proxies, from a state that is valid, a sequence of requests whose times span at
  -- most one window lets at most twice the limit of requests from one host pass, whatever headers they
  -- carry, as long as the map has room for every request.
  pub forwarded-le-limit :
      (rl : RateLimiter) (host : Text) (first last : ℕ) (es : List (Request × ℕ))
      → IsValid rl
      → 0 < rl.window
      → last ≤ first + rl.window
      → All (λ e. (first ≤ e.1) × (e.1 ≤ last)) es
      → length rl.requests + length es ≤ max_tracked_ips
      → forwarded rl host es ≤ rl.limit * 2
  forwarded-le-limit rl host first last es v p k times room = rw (forwarded-passed rl host es) (
      passed-le-limit rl host first last (hosts es) v p k (times-hosts es times)
        (omega (arith, room, length-hosts es)))
    where
      times-hosts :
          (es : List (Request × ℕ))
          → All (λ e. (first ≤ e.1) × (e.1 ≤ last)) es
          → All (λ e. (first ≤ e.1) × (e.1 ≤ last)) (hosts es)
      times-hosts [] h = tt
      times-hosts (e ∷ es) (a, h) = (a, times-hosts es h)

      length-hosts : (es : List (Request × ℕ)) → length (hosts es) ≡ length es
      length-hosts [] = refl
      length-hosts (e ∷ es) = omega (arith, length-hosts es)
