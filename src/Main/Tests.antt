-- ===== src/Main/Tests.antt =====
-- A request through finalHandler, and the theorems at it.
use xray_web_maneger.Common.{
  ◌*◌, ◌≤◌, ◌≡◌, ◌↔◌, refl, Text, codes, true, false, Option, none, some, [], ◌∷◌, List, arith,
}
use xray_web_maneger.Config.{Config, Url, new_default_config}
use xray_web_maneger.Middleware.Http.{Request, is_forward}
use xray_web_maneger.Middleware.RateLimit.{check_and_record}
use xray_web_maneger.Middleware.Auth.{is_auth_blocked}
use xray_web_maneger.Middleware.Client.{client_ip}
use xray_web_maneger.Middleware.Origin.{check_origin}
use xray_web_maneger.Middleware.Cleanup.{new_package, start}
use xray_web_maneger.Middleware.Cleanup.Goroutines.{reach-IsValid}
use xray_web_maneger.Server.Routes.{handle_switch_outbound, handled}
use xray_web_maneger.Server.Routes.Table.{path_of, allows}
use xray_web_maneger.Main.{final_handler}
use xray_web_maneger.Main.Admission.{handled_iff}
use xray_web_maneger.Main.Quota.{Visit, reached, reached-le-limit}

abbrev one_host : Text → Option (Text × Text)
one_host s = some (codes "1.2.3.4", codes "5")

abbrev no_url : Text → Option Url
no_url s = none

abbrev clean : Text → Text
clean path = path

abbrev cfg : Config
cfg = record new_default_config {
  server = record (new_default_config.server) { allowed_origins = codes "https://a.b" ∷ [] };
  auth = record { username = codes "admin"; password = codes "pw" };
}

abbrev switch : Request
switch = record {
  method = codes "POST";
  path = codes "/api/switch-outbound";
  remote_addr = codes "1.2.3.4:5";
  origin = codes "https://a.b/";
  referer = [];
  x_real_ip = codes "9.9.9.9";
  x_forwarded_for = [];
  basic_auth = some (codes "admin", codes "pw");
}

handled_example :
    let ip = client_ip one_host switch false in
    ((final_handler one_host no_url clean cfg false new_package switch [] 3 4).1.1
      ≡ handled handle_switch_outbound)
    ↔ ((((is_auth_blocked new_package.auth.auth ip 3).1 ≡ false)
          × (switch.basic_auth ≡ some (codes "admin", codes "pw")))
        × ((check_and_record new_package.rate ip 4).1 ≡ true)
        × (clean switch.path ≡ switch.path)
        × (switch.path ≡ path_of handle_switch_outbound)
        × (allows handle_switch_outbound switch.method ≡ true)
        × (is_forward (check_origin no_url cfg.server.allowed_origins switch) ≡ true))
handled_example =
    handled_iff one_host no_url clean handle_switch_outbound cfg false new_package switch [] 3 4
      refl refl

-- Two requests of the host that state different addresses.
abbrev visits : List Visit
visits =
    record { request = switch; victim = []; now = 3; later = 4 }
    ∷ record {
      request = record switch { x_real_ip = codes "8.8.8.8" };
      victim = [];
      now = 5;
      later = 6;
    }
    ∷ []

reached_example :
    reached one_host no_url clean cfg false new_package (codes "1.2.3.4") visits
    ≤ new_package.rate.limit * 2
unfolding new_package
reached_example =
    reached-le-limit one_host no_url clean cfg false new_package (codes "1.2.3.4") 4 6 visits refl
      (reach-IsValid new_package start).rate (omega arith) (omega arith) (ground arith)
      (omega arith)
