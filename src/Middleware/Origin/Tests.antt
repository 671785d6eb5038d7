-- ===== src/Middleware/Origin/Tests.antt =====
-- The checks of the origin and of the client's address, at an input.
use xray_web_maneger.Common.{
  ◌≡◌, ◌↔◌, ◌⊎◌, refl, Text, codes, is_empty, true, false, Option, none, some, [], ◌∷◌, arith,
}
use xray_web_maneger.Common.Strings.{trim_right}
use xray_web_maneger.Config.{Url}
use xray_web_maneger.Middleware.Http.{Request, reply, forward}
use xray_web_maneger.Middleware.RateLimit.{RateLimiter}
use xray_web_maneger.Middleware.RateLimit.Invariant.{IsValid}
use xray_web_maneger.Middleware.Origin.{
  is_in, cors_headers, invalid_origin, request_origin, check_origin,
}
use xray_web_maneger.Middleware.Origin.Guard.{
  Passes, IsForbidden, unsafe_forward_iff, trailing_slash_refused,
}

abbrev no_url : Text → Option Url
no_url s = none

abbrev post : Request
post = record {
  method = codes "POST";
  path = codes "/api/switch-outbound";
  remote_addr = codes "1.2.3.4:5";
  origin = codes "https://a.b/";
  referer = [];
  x_real_ip = codes "9.9.9.9";
  x_forwarded_for = [];
  basic_auth = none;
}

unsafe_forward_example :
    let o = check_origin no_url (codes "https://a.b" ∷ []) post in
    (Passes o ↔ (
      (is_empty (codes "https://a.b/") ≡ false)
      × (is_in (trim_right (codes "https://a.b/") b'/') (codes "https://a.b" ∷ []) ≡ true)))
    × ((o ≡ forward (cors_headers (trim_right (codes "https://a.b/") b'/'))) ⊎ IsForbidden o)
unfolding request_origin
unsafe_forward_example =
    unsafe_forward_iff no_url (codes "https://a.b" ∷ []) post (codes "https://a.b/") refl refl refl

trailing_slash_example : check_origin no_url (codes "https://a.b/" ∷ []) post ≡ reply invalid_origin
unfolding request_origin
trailing_slash_example =
    trailing_slash_refused no_url (codes "https://a.b/" ∷ []) post refl
      ((codes "https://a.b", refl), tt) refl

abbrev fresh : RateLimiter
fresh = record { requests = []; limit = 1; window = 10 }

fresh-IsValid : IsValid fresh
fresh-IsValid = record { positive = omega arith; counts = tt; size = omega arith; addresses = tt }

abbrev one_host : Text → Option (Text × Text)
one_host s = some (codes "1.2.3.4", codes "5")
