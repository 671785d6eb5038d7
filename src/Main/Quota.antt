-- ===== src/Main/Quota.antt =====
-- finalHandler: how many requests of one host get through it.
use xray_web_maneger.Common.{
  ℕ, ◌+◌, ◌*◌, ◌≤◌, ◌<◌, ◌≡◌, ◌⊎◌, inl, inr, refl, subst, ap, ◌∙◌, Text, Text-discrete, Bool, true,
  false, to_nat, Option, List, [], ◌∷◌, ite, length, arith, All,
}
use xray_web_maneger.Config.{Config, Url}
use xray_web_maneger.Middleware.Http.{Request}
use xray_web_maneger.Middleware.RateLimit.{RateLimiter, max_tracked_ips, check_and_record}
use xray_web_maneger.Middleware.RateLimit.Invariant.{IsValid}
use xray_web_maneger.Middleware.RateLimit.Quota.{passed, passed-le-limit}
use xray_web_maneger.Middleware.Client.{remote_host, client_ip, client_ip_from_context}
use xray_web_maneger.Middleware.Client.Spoofing.{rate_limit_lem, client_ip-remote}
use xray_web_maneger.Middleware.Cleanup.{Package}
use xray_web_maneger.Server.Routes.{Answer, answered}
use xray_web_maneger.Main.{limited, protected, final_handler}

-- A request with the address to evict and both readings of the clock.
pub record Visit : Type 0 where
  pub request : Request
  pub victim : Text
  pub now : ℕ
  pub later : ℕ

-- Whether a request gets through the wrappers to a route.
abbrev pub is_reached : Answer → Bool
is_reached (answered response) = false
is_reached _ = true

module _ (split_host_port : Text → Option (Text × Text)) (parse_url : Text → Option Url)
    (clean_path : Text → Text) (cfg : Config) (dev_mode : Bool) where
  -- The requests of a host that get through, in a sequence of requests from any host.
  abbrev pub reached : Package → Text → List Visit → ℕ
  reached p host [] = 0
  reached p host (v ∷ vs) =
      let (q, served) =
        final_handler split_host_port parse_url clean_path cfg dev_mode p v.request v.victim v.now
          v.later in
      let rest = reached q host vs in
      ite (Text-discrete (remote_host split_host_port v.request.remote_addr) host)
        (to_nat (is_reached served.1) + rest) rest

  -- A request stops at BasicAuth, or the limiter counts it.
  final_handler_cases :
      (p : Package) (v : Visit)
      → let (q, served) =
          final_handler split_host_port parse_url clean_path cfg dev_mode p v.request v.victim v.now
            v.later in
        let checked =
          check_and_record p.rate
            (client_ip split_host_port v.request cfg.server.trust_proxy_headers)
            v.later in
        ((q.rate ≡ p.rate) × (is_reached served.1 ≡ false))
        ⊎ ((q.rate ≡ checked.0) × (to_nat (is_reached served.1) ≤ to_nat checked.1))
  unfolding final_handler protected client_ip_from_context limited
  final_handler_cases p v = ground (
    arith,
    rate_limit_lem split_host_port cfg.server.trust_proxy_headers p.rate v.request v.later,
  )

  -- What the limiter is asked accounts for every request that gets through.
  accounted :
      (first last : ℕ) (host : Text) (p : Package) (rl : RateLimiter) (vs : List Visit)
      → cfg.server.trust_proxy_headers ≡ false
      → p.rate ≡ rl
      → All (λ v. (first ≤ v.later) × (v.later ≤ last)) vs
      → (es : List (Text × ℕ)) × (reached p host vs ≤ passed rl host es)
        × All (λ e. (first ≤ e.1) × (e.1 ≤ last)) es
        × (length es ≤ length vs)
  accounted first last host p rl [] direct same times = ([], omega arith, tt, omega arith)
  accounted first last host p rl (v ∷ vs) direct same (t, times) = elim (final_handler_cases p v) [
    | inl (kept, stopped) ↦
        let (es, a, b, c) = accounted first last host q rl vs direct (kept ∙ same) times in
        (es, rw stopped (ground (arith, a)), b, omega (arith, c))
    | inr (checked, at_most) ↦
        let (es, a, b, c) =
          accounted first last host q (check_and_record rl ip v.later).0 vs direct
            (checked ∙ ap (λ r. r.0) asked) times in
        ((ip, v.later) ∷ es, ground (arith, a, counts at_most asked), (t, b), omega (arith, c))
  ]
    where
      counts : {n : ℕ} {r r' : RateLimiter × Bool} → n ≤ to_nat r.1 → r ≡ r' → n ≤ to_nat r'.1
      counts {n} h e = subst (λ r. n ≤ to_nat r.1) e h

      q : Package
      q =
          (final_handler split_host_port parse_url clean_path cfg dev_mode p v.request v.victim
            v.now v.later).0

      ip : Text
      ip = remote_host split_host_port v.request.remote_addr

      asked :
          check_and_record p.rate
            (client_ip split_host_port v.request cfg.server.trust_proxy_headers)
            v.later
          ≡ check_and_record rl ip v.later
      asked = rw (direct, client_ip-remote split_host_port v.request, same) refl

  -- Without trust in proxies, from a state with a valid limiter, a sequence of requests that the
  -- limiter sees within one window's length lets at most twice the limit of requests of one host
  -- through to the routes, whatever they carry, as long as the map has room for every request.
  pub reached-le-limit :
      (p : Package) (host : Text) (first last : ℕ) (vs : List Visit)
      → cfg.server.trust_proxy_headers ≡ false
      → IsValid p.rate
      → 0 < p.rate.window
      → last ≤ first + p.rate.window
      → All (λ v. (first ≤ v.later) × (v.later ≤ last)) vs
      → length p.rate.requests + length vs ≤ max_tracked_ips
      → reached p host vs ≤ p.rate.limit * 2
  reached-le-limit p host first last vs direct valid positive span times room =
      let (es, a, b, c) = accounted first last host p p.rate vs direct refl times in
      omega (
        arith,
        a,
        passed-le-limit p.rate host first last es valid positive span b (omega (arith, room, c)),
      )
