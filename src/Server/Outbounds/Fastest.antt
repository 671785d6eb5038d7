-- ===== src/Server/Outbounds/Fastest.antt =====
-- findBestAvailableNode: which node it finds.
use xray_web_maneger.Common.{
  ℕ, ◌≤◌, ◌<◌, ◌≡◌, ◌⊎◌, inl, inr, refl, sym, ap, subst, ◌∙◌, Text, is_empty, Bool, true, false,
  not, ◌&&◌, List, [], ◌∷◌, if◌then◌else◌, arith, All, Some, here, there,
}
use xray_web_maneger.Common.Int.{is_positive, pos_part}
use xray_web_maneger.Common.Strings.{max_int64}
use xray_web_maneger.Server.Outbounds.{
  OutboundStatusData, Best, is_candidate, visit, choose, find_best,
}

-- A node that is alive, not excluded, and has been measured.
abbrev pub is_measured : List Text → OutboundStatusData → Bool
is_measured excluded x = is_candidate excluded x && is_positive x.delay

-- A status with a tag, and a delay below the largest 64-bit number.
abbrev pub IsRegular : OutboundStatusData → Type 0
IsRegular x = (is_empty x.tag ≡ false) × (pos_part x.delay < max_int64)

-- A node that is not measured, or not faster than the delay.
abbrev pub IsNotFaster : List Text → ℕ → OutboundStatusData → Type 0
IsNotFaster excluded d x = (is_measured excluded x ≡ false) ⊎ (d ≤ pos_part x.delay)

abbrev pub IsFastest : List Text → List OutboundStatusData → Text → OutboundStatusData → Type 0
IsFastest excluded statuses tag x =
    (is_measured excluded x ≡ true)
    × (x.tag ≡ tag)
    × All (IsNotFaster excluded (pos_part x.delay)) statuses

-- The tag of the first node that is alive and not excluded, empty if there is none.
abbrev pub first_candidate : List Text → List OutboundStatusData → Text
first_candidate excluded [] = []
first_candidate excluded (x ∷ rest) =
    let more = first_candidate excluded rest in
    if is_candidate excluded x && not (is_empty x.tag) then x.tag else more

is_empty_of : (t : Text) → (is_empty t ≡ false) ⊎ (t ≡ [])
is_empty_of [] = inr refl
is_empty_of (c ∷ t) = inl refl

module _ (excluded : List Text) where
  visit_min :
      (x : OutboundStatusData) (b : Best)
      → ((visit excluded x b).min_delay ≤ b.min_delay)
        × IsNotFaster excluded (visit excluded x b).min_delay x
        × (((visit excluded x b).best_node ≡ b.best_node)
              × ((visit excluded x b).min_delay ≡ b.min_delay)
            ⊎ ((is_measured excluded x ≡ true)
                × (x.tag ≡ (visit excluded x b).best_node)
                × (pos_part x.delay ≡ (visit excluded x b).min_delay)))
  unfolding visit
  visit_min x b = ground arith

  visit-first :
      (x : OutboundStatusData) (b : Best)
      → (visit excluded x b).first_alive
        ≡ (if is_empty b.first_alive && is_candidate excluded x then x.tag else b.first_alive)
  unfolding visit
  visit-first x b = ground arith

  IsNotFaster-mono :
      (a b : ℕ) (x : OutboundStatusData)
      → b ≤ a
      → IsNotFaster excluded a x
      → IsNotFaster excluded b x
  IsNotFaster-mono a b x h k = ground arith

  -- What the loop has found at its end.
  Chosen : Best → Best → List OutboundStatusData → Type 0
  Chosen b r statuses =
      (r.min_delay ≤ b.min_delay)
      × All (IsNotFaster excluded r.min_delay) statuses
      × (((r.best_node ≡ b.best_node) × (r.min_delay ≡ b.min_delay))
          ⊎ Some
              (λ x.
                (is_measured excluded x ≡ true)
                × (x.tag ≡ r.best_node)
                × (pos_part x.delay ≡ r.min_delay))
              statuses)

  choose-Chosen :
      (b : Best) (statuses : List OutboundStatusData)
      → Chosen b (choose excluded b statuses) statuses
  unfolding choose Chosen
  choose-Chosen b [] = (omega arith, tt, inl (refl, refl))
  choose-Chosen b (x ∷ rest) =
      let b' = visit excluded x b in
      let (small, least, found) = choose-Chosen b' rest in
      let (le, here_least, which) = visit_min x b in
      (
        omega (arith, small, le),
        (
          IsNotFaster-mono b'.min_delay (choose excluded b' rest).min_delay x small here_least,
          least,
        ),
        elim found [
          | inr later ↦ inr (there later)
          | inl (same, min) ↦ elim which [
            | inl (same', min') ↦ inl (same ∙ same', min ∙ min')
            | inr (measured, tag, delay) ↦ inr (here (measured, tag ∙ sym same, delay ∙ sym min))
          ]
        ],
      )

  choose-first :
      (b : Best) (statuses : List OutboundStatusData)
      → (choose excluded b statuses).first_alive
        ≡ (if is_empty b.first_alive then first_candidate excluded statuses else b.first_alive)
  unfolding choose
  choose-first b [] = ground (arith, is_empty_of b.first_alive)
  choose-first b (x ∷ rest) =
      ground (arith, choose-first (visit excluded x b) rest, visit-first x b)

  none_measured :
      (statuses : List OutboundStatusData)
      → All (IsNotFaster excluded max_int64) statuses
      → All IsRegular statuses
      → All (λ x. is_measured excluded x ≡ false) statuses
  none_measured [] least h = tt
  none_measured (x ∷ rest) (l, least) (r, h) = (ground arith, none_measured rest least h)

  found_Fastest :
      (r : Best) (all rest : List OutboundStatusData)
      → All (IsNotFaster excluded r.min_delay) all
      → All IsRegular rest
      → Some
          (λ x.
            (is_measured excluded x ≡ true)
            × (x.tag ≡ r.best_node)
            × (pos_part x.delay ≡ r.min_delay))
          rest
      → (is_empty r.best_node ≡ false) × Some (IsFastest excluded all r.best_node) rest
  found_Fastest r all [] least _ s = elim s [ ]
  found_Fastest r all (x ∷ rest) least ((named, _), h) (here (m, t, d)) = (
    ap is_empty (sym t) ∙ named,
    here (m, t, subst (λ n. All (IsNotFaster excluded n) all) (sym d) least),
  )
  found_Fastest r all (x ∷ rest) least (_, h) (there later) =
      let (named, s) = found_Fastest r all rest least h later in (named, there s)

  -- If every node has a tag and a delay below the largest 64-bit number, the node that is found is
  -- measured, and none of the measured ones is faster; if no node is measured it is the first one that
  -- is alive and not excluded, and none if there is no such node.
  pub find_best-IsFastest :
      (statuses : List OutboundStatusData)
      → All IsRegular statuses
      → Some (IsFastest excluded statuses (find_best excluded statuses)) statuses
        ⊎ (All (λ x. is_measured excluded x ≡ false) statuses
            × (find_best excluded statuses ≡ first_candidate excluded statuses))
  unfolding find_best Chosen
  find_best-IsFastest statuses h = elim found [
    | inl (same, min) ↦ inr (
      none_measured statuses (subst (λ n. All (IsNotFaster excluded n) statuses) min least) h,
      rw same (choose-first initial statuses),
    )
    | inr s ↦ let (named, f) = found_Fastest r statuses statuses least h s in inl (rw named f)
  ]
    where
      initial : Best
      initial = record { best_node = []; min_delay = max_int64; first_alive = [] }

      r : Best
      r = choose excluded initial statuses

      least : All (IsNotFaster excluded r.min_delay) statuses
      least = (choose-Chosen initial statuses).1

      found :
          ((r.best_node ≡ []) × (r.min_delay ≡ max_int64))
          ⊎ Some
              (λ x.
                (is_measured excluded x ≡ true)
                × (x.tag ≡ r.best_node)
                × (pos_part x.delay ≡ r.min_delay))
              statuses
      found = (choose-Chosen initial statuses).2
