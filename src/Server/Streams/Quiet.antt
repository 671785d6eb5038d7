-- ===== src/Server/Streams/Quiet.antt =====
-- server/handlerstats.go: what the handlers leave behind, and that a shutdown reaches all of them.
use xray_web_maneger.Common.{
  ℕ, ◌≡◌, refl, sym, ◌∙◌, Bool, true, false, some, List, [], ◌∷◌, mem, arith,
}
use xray_web_maneger.Sse.Broadcaster
use xray_web_maneger.Sse.Broadcaster.Idle.{EndsIdly, loop-EndsIdly}
use xray_web_maneger.Server.Shutdown.{returned}
use xray_web_maneger.Server.Shutdown.Order.{Reach-IsOrdered, returned_lem}
use xray_web_maneger.Server.Streams.{Place, absent, ended, Serving, Reach}
use xray_web_maneger.Server.Streams.Registered.{is_registered, channel_of}
use xray_web_maneger.Server.Streams.Connections.{Reach-Served}

abbrev pub is_over : Place → Bool
is_over absent = true
is_over ended = true
is_over _ = false

not_registered : (p : Place) → is_over p ≡ true → is_registered p ≡ false
not_registered p h = ground arith

no_channel : (p : Place) (ch : ℕ) → is_over p ≡ true → channel_of p ≡ some ch → false ≡ true
no_channel p ch h e = ground arith

nil_of_mem : (xs : List ℕ) → ((x : ℕ) → mem x xs ≡ true → false ≡ true) → xs ≡ []
nil_of_mem [] h = refl
nil_of_mem (x ∷ xs) h = let wrong = h x (ground arith) in cc

-- When every handler of a stream has returned, no connection and no subscriber is registered, and
-- the polling loop, if one runs, can end: its stop channel is closed, or the idle timer is set.
pub nothing_leaks :
    {v : Serving}
    → Reach v
    → ((c : ℕ) → is_over (v.handlers c) ≡ true)
    → (v.running.manager.connections ≡ [])
      × (v.running.broadcaster.subscribers ≡ [])
      × ((t : Broadcaster.State) × (t.loops ≡ []) × EndsIdly v.running.broadcaster t)
nothing_leaks {v} r over =
    let s = Reach-Served r in
    let nobody =
      nil_of_mem v.running.broadcaster.subscribers
        (λ ch h. let (c, e) = s.owned ch h in no_channel (v.handlers c) ch (over c) e) in
    (
      nil_of_mem v.running.manager.connections
          (λ c h. sym (not_registered (v.handlers c) (over c)) ∙ s.registered c h),
      nobody,
      loop-EndsIdly (Reach-IsOrdered s.reach).reach nobody,
    )

-- When Server.Shutdown has returned, the context of every handler between its Add and its Remove is
-- cancelled.
pub shutdown_tells_all :
    {v : Serving} (c : ℕ)
    → Reach v
    → v.running.stage ≡ returned
    → is_registered (v.handlers c) ≡ true
    → mem c v.running.manager.closed ≡ true
shutdown_tells_all {v} c r stage here =
    let s = Reach-Served r in
    let (_, _, empty, _, _) = returned_lem s.reach stage in ground (arith, s.known c, empty)
