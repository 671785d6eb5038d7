-- ===== src/Middleware/Auth/Tests.antt =====
-- Runs of the authentication handler, and its theorems at an input.
use xray_web_maneger.Common.{◌≡◌, refl, codes, some, [], ◌∷◌, arith}
use xray_web_maneger.Middleware.Http.{reply}
use xray_web_maneger.Middleware.Auth.{Limiters, basic_auth, too_many_failures}
use xray_web_maneger.Middleware.Auth.Access.{AreValid, locked_out, fail_all}

abbrev start : Limiters
start = record {
  auth = record { states = []; limit = 2; block_window = 100 };
  no_cred = record { states = []; limit = 3; block_window = 50 };
}

start-AreValid : AreValid start
start-AreValid = record {
  auth = record { positive = omega arith; size = omega arith; unique = tt; sound = tt };
  no_cred = record { positive = omega arith; size = omega arith; unique = tt; sound = tt };
}

-- Two failures at 10 and 20, then the right password at 119.
locked_out_example :
    let l = record start { auth = fail_all start.auth (codes "ip") [] (10 ∷ 20 ∷ []) } in
    basic_auth (codes "admin") (codes "pw") l (codes "ip") [] 119 (some (codes "admin", codes "pw"))
    ≡ (l, reply too_many_failures)
locked_out_example =
    locked_out (codes "admin") (codes "pw") start (codes "ip") [] (10 ∷ []) 20 119
      (some (codes "admin", codes "pw")) refl refl tt (omega arith) refl refl (omega arith)
