-- ===== src/Sse/Broadcaster/Delivery/Pending.antt =====
-- sse/broadcaster.go: what the channels have got while a payload is on its way.
use mathlib.Core.List.{Sublistᴰ, append_assoc}
use xray_web_maneger.Common.{
  ℕ, ◌≤◌, ◌≡◌, refl, subst, Bool, true, false, ◌==◌, Option, none, some, List, [], ◌∷◌, ◌++◌,
  length, update, arith, guard_lem, inl, inr, Bool-cases, mem-without_eq, length-snoc, ==_iff,
}
use xray_web_maneger.Sse.Broadcaster.{mem, without, is_nil}
use xray_web_maneger.Sse.Broadcaster.Polling.{LoopState, channel_capacity}
use xray_web_maneger.Sse.Broadcaster.Safety.{Reach-Control}
use xray_web_maneger.Sse.Broadcaster.Delivery.{
  Position, selecting, prepared, fanning_out, Poller, System, ticked, has_room, copy_step, end_step,
}
use xray_web_maneger.Sse.Broadcaster.Delivery.Open.{Sound}

-- What has gone to a channel, oldest first.
abbrev pub log : {T : Type 0} → System T → ℕ → List T
log s ch = s.received ch ++ s.queues ch

-- What the channels had before the payload of a running fan-out, which is the newest.
abbrev pub Pending : {T : Type 0} → List T → (ℕ → List T) → Position T → Type 0
Pending published logs selecting = Unit
Pending {T} published logs (prepared regular x) =
    (before : List T) × (published ≡ before ++ x ∷ []) × ((ch : ℕ) → Sublistᴰ (logs ch) before)
Pending {T} published logs (fanning_out regular x left) =
    (before : List T) × (published ≡ before ++ x ∷ [])
    × ((ch : ℕ) → mem ch left ≡ true → Sublistᴰ (logs ch) before)

pub record IsInOrder {T : Type 0} (loops : List ℕ) (pollers : ℕ → Poller T) (published : List T)
    (received : ℕ → List T) (queues : ℕ → List T) : Type 0 where
  pub below : (ch : ℕ) → Sublistᴰ (received ch ++ queues ch) published
  pub pending :
      (d : ℕ)
      → mem d loops ≡ true
      → Pending published (λ ch. received ch ++ queues ch) (pollers d).position
  pub bounded : (ch : ℕ) → length (queues ch) ≤ channel_capacity

abbrev pub InOrder : {T : Type 0} → System T → Type 0
InOrder s = IsInOrder s.control.loops s.pollers s.published s.received s.queues

pub only_loop :
    {T : Type 0} (s : System T) (d e : ℕ)
    → Sound s
    → mem d s.control.loops ≡ true
    → mem e s.control.loops ≡ true
    → d ≡ e
only_loop s d e v runs also = ground (arith, (Reach-Control v.reach).one_loop)

module _ {T : Type 0} where
  pub nil-Sublistᴰ : (ys : List T) → Sublistᴰ [] ys
  nil-Sublistᴰ [] = Sublistᴰ.slnil
  nil-Sublistᴰ (y ∷ ys) = Sublistᴰ.cons (nil-Sublistᴰ ys)

  pub left-Sublistᴰ : (xs ys : List T) → Sublistᴰ xs (xs ++ ys)
  left-Sublistᴰ [] ys = nil-Sublistᴰ ys
  left-Sublistᴰ (x ∷ xs) ys = Sublistᴰ.cons-cons refl (left-Sublistᴰ xs ys)

  -- One payload more: published only, or sent too.
  pub grown : {xs ys : List T} (x : T) → Sublistᴰ xs ys → Sublistᴰ xs (ys ++ x ∷ [])
  grown x Sublistᴰ.slnil = nil-Sublistᴰ (x ∷ [])
  grown x (Sublistᴰ.cons s) = Sublistᴰ.cons (grown x s)
  grown x (Sublistᴰ.cons-cons e s) = Sublistᴰ.cons-cons e (grown x s)

  pub extended : {xs ys : List T} (x : T) → Sublistᴰ xs ys → Sublistᴰ (xs ++ x ∷ []) (ys ++ x ∷ [])
  extended x Sublistᴰ.slnil = Sublistᴰ.cons-cons refl Sublistᴰ.slnil
  extended x (Sublistᴰ.cons s) = Sublistᴰ.cons (extended x s)
  extended x (Sublistᴰ.cons-cons e s) = Sublistᴰ.cons-cons e (extended x s)

  -- A running goroutine goes on to another position; no other one runs.
  pub move :
      (s : System T) (d : ℕ) (q : Poller T)
      → InOrder s
      → Pending s.published (log s) q.position
      → IsInOrder s.control.loops (update s.pollers d q) s.published s.received s.queues
  move s d q v k = record {
    below = v.below;
    pending = λ e r. elim (Bool-cases (e == d)) [
      | inl same ↦ rw same k
      | inr other ↦ rw other (v.pending e r)
    ];
    bounded = v.bounded;
  }

  -- A new payload, which a goroutine that was at its select is to send.
  pub publish :
      (s : System T) (d : ℕ) (q : Poller T) (x : T)
      → Sound s
      → InOrder s
      → mem d s.control.loops ≡ true
      → Pending (s.published ++ x ∷ []) (log s) q.position
      → IsInOrder s.control.loops (update s.pollers d q) (s.published ++ x ∷ []) s.received s.queues
  publish s d q x sound v runs k = record {
    below = λ ch. grown x (v.below ch);
    pending = λ e r. elim (Bool-cases (e == d)) [
      | inl same ↦ rw same k
      | inr other ↦ let same = only_loop s d e sound runs r in absurd (ground arith)
    ];
    bounded = v.bounded;
  }

  pub ticked-InOrder :
      (s : System T) (d : ℕ) (regular : Bool) (next : LoopState T × Option T)
      → Sound s
      → InOrder s
      → mem d s.control.loops ≡ true
      → InOrder (ticked s d regular next)
  ticked-InOrder s d regular (variables, none) sound v runs = move s d _ v tt
  ticked-InOrder s d regular (variables, some x) sound v runs =
      publish s d _ x sound v runs (s.published, refl, v.below)

  pub copy-InOrder :
      (s t : System T) (d : ℕ) (p : Position T)
      → InOrder s
      → (s.pollers d).position ≡ p
      → mem d s.control.loops ≡ true
      → copy_step s d p ≡ some t
      → InOrder t
  unfolding copy_step
  copy-InOrder s t d selecting v at runs e = cc
  copy-InOrder s t d (fanning_out regular x left) v at runs e = cc
  copy-InOrder s t d (prepared regular x) v at runs e =
      let (before, newest, held) = subst (Pending s.published (log s)) at (v.pending d runs) in
      subst InOrder (guard_lem true e).1 (move s d _ v (before, newest, λ ch m. held ch))

  pub end-InOrder :
      (s t : System T) (d : ℕ) (p : Position T) → InOrder s → end_step s d p ≡ some t → InOrder t
  unfolding end_step
  end-InOrder s t d selecting v e = cc
  end-InOrder s t d (prepared regular x) v e = cc
  end-InOrder s t d (fanning_out regular x left) v e =
      subst InOrder (guard_lem (is_nil left) e).1 (move s d _ v tt)

  -- A send to a channel with room.
  pub delivered :
      (s : System T) (d ch : ℕ) (regular : Bool) (x : T) (before : List T) (chans : List ℕ)
      → Sound s
      → InOrder s
      → mem d s.control.loops ≡ true
      → s.published ≡ before ++ x ∷ []
      → ((c : ℕ) → mem c chans ≡ true → Sublistᴰ (log s c) before)
      → mem ch chans ≡ true
      → has_room s ch ≡ true
      → (q : Poller T) → q.position ≡ fanning_out regular x (without ch chans)
      → IsInOrder s.control.loops
          (update s.pollers d q)
          s.published
          s.received
          (update s.queues ch (s.queues ch ++ x ∷ []))
  delivered s d ch regular x before chans sound v runs newest held member room q at = record {
    below = λ c. elim (Bool-cases (c == ch)) [
      | inl same ↦
          rw
            (
              same,
              (==_iff c ch).0 same,
              newest,
              ← (append_assoc (s.received ch) (s.queues ch) (x ∷ [])),
            )
            (extended x (held ch member))
      | inr other ↦ rw other (v.below c)
    ];
    pending = λ e r. elim (Bool-cases (e == d)) [
      | inl same ↦
          rw (same, at)
            (
              before,
              newest,
              λ c m.
                  let split = mem-without_eq c ch chans in
                  let other : (c == ch) ≡ false = ground (arith, m, split) in
                  rw other (held c (ground (arith, m, split))),
            )
      | inr other ↦ let same = only_loop s d e sound runs r in absurd (ground arith)
    ];
    bounded = λ c. ground (arith, v.bounded c, length-snoc (s.queues ch) x);
  }

  -- A send to a channel that is full, or one that is not counted.
  pub passed_over :
      (s : System T) (d ch : ℕ) (regular : Bool) (x : T) (before : List T) (chans : List ℕ)
      → InOrder s
      → s.published ≡ before ++ x ∷ []
      → ((c : ℕ) → mem c chans ≡ true → Sublistᴰ (log s c) before)
      → (q : Poller T) → q.position ≡ fanning_out regular x (without ch chans)
      → IsInOrder s.control.loops (update s.pollers d q) s.published s.received s.queues
  passed_over s d ch regular x before chans v newest held q at =
      move s d q v
        (rw at (before, newest, λ c m. held c (ground (arith, m, mem-without_eq c ch chans))))
