-- ===== src/Server/Stats/Frames/Tests.antt =====
-- A writer with room for a number of bytes, and what a browser receives over it.
use xray_web_maneger.Common.{
  ℕ, ◌-◌, ◌≡◌, refl, Text, codes, Bool, true, false, List, [], ◌∷◌, ◌++◌, take, drop, length, leb,
  if◌then◌else◌, Bool-cases, inl, inr, arith, zero, suc, cons_eq, ◌∙◌, sym, ap,
}
use mathlib.Core.List.{append_assoc, append-nil}
use xray_web_maneger.Server.Stats.{StatsData, Frame, heartbeat, update, empty_stats}
use xray_web_maneger.Server.Stats.Frames.{
  receive, event_source, write_frame, write_frames, sse_write_event,
}
use xray_web_maneger.Server.Stats.Frames.RoundTrip.{all_received}

abbrev Room : Type 0
Room = Text × ℕ

abbrev write : Room → Text → Room × Bool
write (s, room) t =
    if leb (length t) room
    then ((s ++ t, room - length t), true)
    else ((s ++ take room t, 0), false)

take-drop : (n : ℕ) (t : Text) → t ≡ take n t ++ drop n t
take-drop zero t = refl
take-drop (suc n) [] = refl
take-drop (suc n) (b ∷ t) = cons_eq refl (take-drop n t)

write_sent : (w : Room) (t : Text) → (write w t).1 ≡ true → (write w t).0.0 ≡ w.0 ++ t
write_sent (s, room) t ok = ground arith

write_short : (w : Room) (t : Text) → (u : Text) × (w.0 ++ t ≡ (write w t).0.0 ++ u)
write_short (s, room) t = elim (Bool-cases (leb (length t) room)) [
  | inl e ↦ rw e ([], sym (append-nil (s ++ t)))
  | inr e ↦ rw e (drop room t, ap (◌++◌ s) (take-drop room t) ∙ sym (append_assoc s _ _))
]

-- Two updates and a heartbeat.
abbrev frames : List Frame
frames = update empty_stats ∷ heartbeat ∷ update empty_stats ∷ []

abbrev json : StatsData → Text
json stats = codes "{}"

abbrev wide : Room
wide = ([], 100)

all_received_example :
    (receive event_source (write_frames write (λ w. w) json wide frames).0.0).received
    ≡ (codes "update", codes "{}") ∷ (codes "update", codes "{}") ∷ []
unfolding write_frames write_frame sse_write_event
all_received_example =
    all_received write (λ w. w) json (λ w. w.0) write_sent write_short (λ w. refl) (λ stats. refl)
      wide frames refl refl
