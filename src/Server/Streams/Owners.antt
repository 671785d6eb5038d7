-- ===== src/Server/Streams/Owners.antt =====
-- server/handlerstats.go: each channel has one handler, and who waits in Subscribe.
use xray_web_maneger.Common.{
  ℕ, ◌≤◌, ◌<◌, ◌≡◌, ◌≢◌, ◌⊎◌, inl, inr, sym, true, ◌==◌, none, some, [], ◌∷◌, is_some, update,
  arith, Bool-cases,
}
use xray_web_maneger.Sse.Broadcaster
use xray_web_maneger.Sse.Broadcaster.{Waiter, new_broadcaster, find_waiter, subscribe}
use xray_web_maneger.Server.Streams.{Place, added, joining, streaming, leaving, Serving}
use xray_web_maneger.Server.Streams.Registered.{channel_of}

pub record IsOwned (b : Broadcaster.State) (handlers : ℕ → Place) : Type 0 where
  pub numbered : (c ch : ℕ) → channel_of (handlers c) ≡ some ch → ch < b.next
  pub distinct :
      (c e ch : ℕ) → channel_of (handlers c) ≡ some ch → channel_of (handlers e) ≡ some ch → c ≡ e
  pub waits :
      (ch : ℕ) → is_some (find_waiter ch b.waiting) ≡ true → (c : ℕ) × (handlers c ≡ joining ch)
  pub joins : (c ch : ℕ) → handlers c ≡ joining ch → is_some (find_waiter ch b.waiting) ≡ true

abbrev pub Owned : Serving → Type 0
Owned v = IsOwned v.running.broadcaster v.handlers

pub kept-IsOwned :
    (b d : Broadcaster.State) (handlers : ℕ → Place)
    → IsOwned b handlers
    → d.waiting ≡ b.waiting
    → b.next ≤ d.next
    → IsOwned d handlers
kept-IsOwned b d handlers o same more = record {
  numbered = λ c ch h. omega (arith, o.numbered c ch h);
  distinct = o.distinct;
  waits = λ ch h. o.waits ch (rw same at h);
  joins = λ c ch h. rw same (o.joins c ch h);
}

-- A handler that is not in Subscribe goes to a place without a channel.
pub released-IsOwned :
    (b : Broadcaster.State) (handlers : ℕ → Place) (c : ℕ) (q : Place)
    → IsOwned b handlers
    → ((ch : ℕ) → handlers c ≢ joining ch)
    → channel_of q ≡ none
    → IsOwned b (update handlers c q)
released-IsOwned b handlers c q o busy silent = record {
  numbered = λ e ch h. ground (arith, o.numbered e ch);
  distinct = λ e f ch h k. ground (arith, o.distinct e f ch);
  waits = λ ch h.
      let (e, at) = o.waits ch h in
      let other : e ≢ c = λ same. busy ch (rw (sym same) at) in (e, ground (arith, other));
  joins = λ e ch h. ground (arith, o.joins e ch);
}

-- A new channel goes to one handler, which had none, and which waits exactly if the broadcaster says so.
pub given-IsOwned :
    (b d : Broadcaster.State) (handlers : ℕ → Place) (c : ℕ) (q : Place)
    → IsOwned b handlers
    → handlers c ≡ added
    → b.next < d.next
    → ((d.waiting ≡ b.waiting) × (q ≡ streaming b.next))
      ⊎ ((w : Waiter) × (d.waiting ≡ w ∷ b.waiting) × (w.ch ≡ b.next) × (q ≡ joining b.next))
    → IsOwned d (update handlers c q)
given-IsOwned b d handlers c q o at more (inl (same, place)) = record {
  numbered = λ e ch h. ground (arith, o.numbered e ch, place);
  distinct =
      λ e f ch h k. ground (arith, o.distinct e f ch, o.numbered e ch, o.numbered f ch, place);
  waits = λ ch h. let (e, here) = o.waits ch (rw same at h) in (e, ground (arith, here, at));
  joins = λ e ch h. ground (arith, o.joins e ch, place, same);
}
given-IsOwned b d handlers c q o at more (inr (w, one, new, place)) = record {
  numbered = λ e ch h. ground (arith, o.numbered e ch, place);
  distinct =
      λ e f ch h k. ground (arith, o.distinct e f ch, o.numbered e ch, o.numbered f ch, place);
  waits = λ ch h. elim (Bool-cases (w.ch == ch)) [
    | inl same ↦ (c, ground (arith, same, new, place))
    | inr other ↦
        let (e, here) = o.waits ch (ground (arith, h, one, other)) in (e, ground (arith, here, at))
  ];
  joins = λ e ch h. ground (arith, o.joins e ch, place, one, new);
}

-- The handler that waited has its channel, or panicked.
pub resumed-IsOwned :
    (b d : Broadcaster.State) (handlers : ℕ → Place) (c ch : ℕ) (q : Place) (w : Waiter)
    → IsOwned b handlers
    → handlers c ≡ joining ch
    → b.next ≤ d.next
    → b.waiting ≡ w ∷ []
    → w.ch ≡ ch
    → d.waiting ≡ []
    → (q ≡ leaving) ⊎ (q ≡ streaming ch)
    → IsOwned d (update handlers c q)
resumed-IsOwned b d handlers c ch q w o at more alone same none_waits place = record {
  numbered = λ e x h. ground (arith, o.numbered e x, o.numbered c x, place);
  distinct =
      λ e f x h k. ground (arith, o.distinct e f x, o.distinct c f x, o.distinct e c x, place);
  waits = λ x h. absurd (ground (arith, h, none_waits));
  joins =
      λ e x h. absurd (ground (arith, h, place, o.joins e x, o.distinct e c x, alone, same, at));
}
