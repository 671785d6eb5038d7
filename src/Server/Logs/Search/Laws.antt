-- ===== src/Server/Logs/Search/Laws.antt =====
-- truncateSearch: the result is a prefix that fits, and valid UTF-8 wherever anything was cut.
use mathlib.Core.List.{append_assoc, append-nil}
use xray_web_maneger.Common.{
  ℕ, zero, suc, ◌+◌, ◌-◌, ◌≤◌, ◌<◌, ◌≡◌, refl, sym, ap, ◌∙◌, Text, true, ◌==◌, [], ◌∷◌, ◌++◌,
  reverse, leb, length, take, if◌then◌else◌, arith, ◌⊎◌, inl, inr, leb→le, if_keeps, Bool-cases,
  length-take, length-append, length-reverse,
}
use xray_web_maneger.Server.Logs.Search.{
  valid_from, valid_string, last_start, last_rune_size, back_up, truncate_search,
}

-- One text begins with another.
abbrev pub Begins : Text → Text → Type 0
Begins s p = (rest : Text) × (s ≡ p ++ rest)

Begins-refl : (s : Text) → Begins s s
Begins-refl s = ([], sym (append-nil s))

take-Begins : (n : ℕ) (s : Text) → Begins s (take n s)
take-Begins zero s = (s, refl)
take-Begins (suc n) [] = ([], refl)
take-Begins (suc n) (c ∷ s) = let (rest, e) = take-Begins n s in (rest, ap (◌∷◌ c) e)

Begins-trans : (s p q : Text) → Begins s p → Begins p q → Begins s q
Begins-trans s p q (t, e) (u, f) = (u ++ t, e ∙ ap (λ l. l ++ t) f ∙ append_assoc q u t)

length-Begins-le : (s p : Text) → Begins s p → length p ≤ length s
length-Begins-le s p (t, e) = omega (arith, ap length e, length-append p t)

last_start-le : (f seen : ℕ) (s : Text) → seen ≤ last_start f seen s
unfolding last_start
last_start-le zero seen s = omega arith
last_start-le (suc f) seen [] = omega arith
last_start-le (suc f) seen (c ∷ s) = ground (arith, last_start-le f (seen + 1) s)

last_start-pos : (f : ℕ) (c : ℕ) (s : Text) → 1 ≤ last_start (suc f) 0 (c ∷ s)
unfolding last_start
last_start-pos f c s = ground (arith, last_start-le f 1 s)

last_start-pos_of_length : (s : Text) → 0 < length s → 1 ≤ last_start 4 0 s
last_start-pos_of_length [] h = absurd (omega arith)
last_start-pos_of_length (c ∷ s) h = last_start-pos 3 c s

-- Each round of the loop takes a byte at least.
pub last_rune_size-pos : (s : Text) → 0 < length s → 1 ≤ last_rune_size s
unfolding last_rune_size
last_rune_size-pos s h = ground (arith, last_start-pos_of_length (reverse s), length-reverse s)

valid_string-nil : valid_string [] ≡ true
unfolding valid_string valid_from
valid_string-nil = refl

valid_of_short : (s : Text) → length s ≤ 0 → valid_string s ≡ true
valid_of_short [] h = valid_string-nil
valid_of_short (c ∷ s) h = absurd (omega arith)

-- The loop ends in a valid text, for its fuel is the length.
back_up-valid : (f : ℕ) (s : Text) → length s ≤ f → valid_string (back_up f s) ≡ true
unfolding back_up
back_up-valid zero s h = valid_of_short s h
back_up-valid (suc f) s h =
    let n = length s - last_rune_size s in
    ground
      (arith, valid_of_short s, back_up-valid f (take n s), length-take n s, last_rune_size-pos s)

back_up-Begins : (f : ℕ) (s : Text) → Begins s (back_up f s)
unfolding back_up
back_up-Begins zero s = Begins-refl s
back_up-Begins (suc f) s =
    let n = length s - last_rune_size s in
    let shorter = take n s in
    let cut = take-Begins n s in
    if_keeps (Begins s) (length s == 0) {x = s}
      {y = if valid_string shorter then shorter else back_up f shorter} (Begins-refl s)
      (if_keeps (Begins s) (valid_string shorter) {x = shorter} {y = back_up f shorter} cut
        (Begins-trans s shorter (back_up f shorter) cut (back_up-Begins f shorter)))

-- A search text within the bound is left alone; a longer one is cut to a prefix that is within the
-- bound and valid UTF-8.
pub truncate_search_lem :
    (s : Text) (max_bytes : ℕ)
    → ((length s ≤ max_bytes) × (truncate_search s max_bytes ≡ s))
      ⊎ ((max_bytes < length s)
          × Begins s (truncate_search s max_bytes)
          × (length (truncate_search s max_bytes) ≤ max_bytes)
          × (valid_string (truncate_search s max_bytes) ≡ true))
unfolding truncate_search
truncate_search_lem s max_bytes = elim (Bool-cases (leb (length s) max_bytes)) [
  | inl fits ↦ inl (leb→le (length s) max_bytes fits, rw fits)
  | inr long ↦ rw long (inr (ground arith, begins, bounded, valid))
]
  where
    cut : Text
    cut = take max_bytes s

    result : Text
    result = if valid_string cut then cut else back_up (length cut) cut

    from_cut : Begins cut result
    from_cut =
        if_keeps (Begins cut) (valid_string cut) {x = cut} {y = back_up (length cut) cut}
          (Begins-refl cut) (back_up-Begins (length cut) cut)

    begins : Begins s result
    begins = Begins-trans s cut result (take-Begins max_bytes s) from_cut

    bounded : length result ≤ max_bytes
    bounded = omega (arith, length-Begins-le cut result from_cut, length-take max_bytes s)

    valid : valid_string result ≡ true
    valid = ground (arith, back_up-valid (length cut) cut (omega arith))
