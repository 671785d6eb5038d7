-- ===== src/Server/Logs/Trim.antt =====
-- trimLinesToBytes: which of the lines are left, on every branch.
use xray_web_maneger.Common.{
  ℕ, suc, ◌+◌, ◌-◌, ◌≤◌, ◌<◌, ◌≡◌, ◌≢◌, inl, inr, refl, sym, ap, ◌∙◌, Text, List, [], ◌∷◌, ◌++◌,
  reverse, ltb, length, length-append, length-reverse, arith, Bool-cases, lt→ltb,
  drop-length_append,
}
use xray_web_maneger.Common.Int.{pos}
use mathlib.Core.Path.{ap₂}
use mathlib.Core.List.{reverse-append, reverse-reverse, reverse-cons, append_assoc}
use xray_web_maneger.Server.Logs.{kept, cut, trim_lines_to_bytes, truncation_marker}

-- The bytes of some lines.
abbrev pub total : List Text → ℕ
total [] = 0
total (x ∷ xs) = length x + total xs

total-append : (xs ys : List Text) → total (xs ++ ys) ≡ total xs + total ys
total-append [] ys = omega arith
total-append (x ∷ xs) ys = omega (arith, total-append xs ys)

total-reverse : (xs : List Text) → total (reverse xs) ≡ total xs
total-reverse [] = refl
total-reverse (x ∷ xs) =
    omega
      (arith, ap total (reverse-cons x xs), total-append (reverse xs) (x ∷ []), total-reverse xs)

-- What the backwards loop finds among the lines, the newest first.
data Split (max_bytes used : ℕ) (lines : List Text) (n : ℕ) : Type 0 where
  all_fit : used + total lines ≤ max_bytes → n ≡ length lines → Split max_bytes used lines n
  stops :
      (near far : List Text) (x : Text)
      → lines ≡ near ++ x ∷ far
      → n ≡ length near
      → used + total near ≤ max_bytes
      → max_bytes < used + total near + length x
      → Split max_bytes used lines n

kept-Split :
    (max_bytes used : ℕ) (lines : List Text)
    → used ≤ max_bytes
    → Split max_bytes used lines (kept max_bytes used lines)
unfolding kept
kept-Split max_bytes used [] h = all_fit (omega arith) refl
kept-Split max_bytes used (x ∷ older) h = elim (Bool-cases (ltb max_bytes (used + length x))) [
  | inl over ↦ rw over (stops [] older x refl refl (omega arith) (ground arith))
  | inr fits ↦ rw fits (
      add_newest (kept max_bytes (used + length x) older)
        (kept-Split max_bytes (used + length x) older (ground arith)))
]
  where
    add_newest :
        (n : ℕ)
        → Split max_bytes (used + length x) older n
        → Split max_bytes used (x ∷ older) (suc n)
    add_newest n (all_fit t e) = all_fit (omega arith) (omega arith)
    add_newest n (stops near far y e m t o) =
        stops (x ∷ near) far y (ap (◌∷◌ x) e) (omega arith) (omega arith) (omega arith)

-- What trimLinesToBytes makes of the lines, for a positive bound.
pub data Trimmed (max_bytes : ℕ) (lines result : List Text) : Type 0 where
  -- All of them fit.
  whole : total lines ≤ max_bytes → result ≡ lines → Trimmed max_bytes lines result
  -- The newest lines that fit, at least one, after a marker; one more would not fit.
  marked :
      (front back : List Text) (x : Text)
      → lines ≡ front ++ x ∷ back
      → back ≢ []
      → total back ≤ max_bytes
      → max_bytes < total (x ∷ back)
      → result ≡ truncation_marker ∷ back
      → Trimmed max_bytes lines result
  -- The newest line alone is too long: every line is left, with no marker.
  untouched :
      (front : List Text) (x : Text)
      → lines ≡ front ++ x ∷ []
      → max_bytes < length x
      → result ≡ lines
      → Trimmed max_bytes lines result

snoc-ne_nil : (xs : List Text) (x : Text) → xs ++ x ∷ [] ≢ []
snoc-ne_nil [] x = cc
snoc-ne_nil (y ∷ ys) x = cc

cut_whole : (lines : List Text) → cut lines 0 ≡ lines
unfolding cut
cut_whole lines = refl

cut_end : (lines : List Text) → cut lines (length lines) ≡ lines
unfolding cut
cut_end lines = ground arith

cut_inside :
    (front back : List Text)
    → front ≢ []
    → back ≢ []
    → cut (front ++ back) (length front) ≡ truncation_marker ∷ back
unfolding cut
cut_inside [] back f b = absurd (f refl)
cut_inside (x ∷ front) [] f b = absurd (b refl)
cut_inside (x ∷ front) (y ∷ back) f b = rw (
  lt→ltb 0 (suc (length front)) (omega arith),
  lt→ltb (suc (length front)) (length (x ∷ front ++ y ∷ back))
      (omega (arith, length-append front (y ∷ back))),
  drop-length_append front (y ∷ back),
)

trim-cut :
    (lines : List Text) (m : ℕ)
    → 0 < m
    → trim_lines_to_bytes lines (pos m) ≡ cut lines (length lines - kept m 0 (reverse lines))
unfolding trim_lines_to_bytes cut kept
trim-cut [] m h = ground arith
trim-cut (x ∷ xs) m h = ground arith

reverse-ne_nil : (y : Text) (ys : List Text) → reverse (y ∷ ys) ≢ []
reverse-ne_nil y ys e = absurd (omega (arith, ap length e, length-reverse (y ∷ ys)))

-- The lines in their own order, from the split of the lines backwards.
unreverse :
    (lines near far : List Text) (x : Text)
    → reverse lines ≡ near ++ x ∷ far
    → lines ≡ reverse far ++ x ∷ reverse near
unreverse lines near far x e =
    sym (reverse-reverse lines)
    ∙ ap reverse e
    ∙ reverse-append near (x ∷ far)
    ∙ ap (λ l. l ++ reverse near) (reverse-cons x far)
    ∙ append_assoc (reverse far) (x ∷ []) (reverse near)

Split-Trimmed :
    (lines : List Text) (m n : ℕ)
    → Split m 0 (reverse lines) n
    → Trimmed m lines (cut lines (length lines - n))
Split-Trimmed lines m n (all_fit t e) = whole (omega (arith, total-reverse lines)) (
    let start : length lines - n ≡ 0 = omega (arith, length-reverse lines) in
    rw start (cut_whole lines))
Split-Trimmed lines m n (stops [] far x e k t o) =
    untouched (reverse far) x (unreverse lines [] far x e) (omega arith)
      (let start : length lines - n ≡ length lines = omega arith in rw start (cut_end lines))
Split-Trimmed lines m n (stops (y ∷ ys) far x e k t o) =
    marked (reverse far) back x order (reverse-ne_nil y ys) (omega (arith, total-reverse (y ∷ ys)))
      (omega (arith, total-reverse (y ∷ ys)))
      (ap₂ cut grouped start
        ∙ cut_inside (reverse far ++ x ∷ []) back (snoc-ne_nil (reverse far) x)
            (reverse-ne_nil y ys))
  where
    back : List Text
    back = reverse (y ∷ ys)

    order : lines ≡ reverse far ++ x ∷ back
    order = unreverse lines (y ∷ ys) far x e

    grouped : lines ≡ (reverse far ++ x ∷ []) ++ back
    grouped = order ∙ sym (append_assoc (reverse far) (x ∷ []) back)

    start : length lines - n ≡ length (reverse far ++ x ∷ [])
    start = omega (
      arith,
      k,
      ap length grouped,
      length-append (reverse far ++ x ∷ []) back,
      length-reverse (y ∷ ys),
    )

-- For a positive bound: if all the lines fit they are left as they are; else, if the newest line
-- fits, the result is the marker and the longest run of newest lines that fits; else every line is
-- left as it is.
pub trim_lines_to_bytes-Trimmed :
    (lines : List Text) (m : ℕ) → 0 < m → Trimmed m lines (trim_lines_to_bytes lines (pos m))
trim_lines_to_bytes-Trimmed lines m h =
    rw (trim-cut lines m h) (Split-Trimmed lines m _ (kept-Split m 0 (reverse lines) (omega arith)))

kept_oversized : (m : ℕ) (x : Text) (older : List Text) → m < length x → kept m 0 (x ∷ older) ≡ 0
unfolding kept
kept_oversized m x older l = ground arith

-- If the newest line alone is longer than a positive bound, every line is returned, however many
-- bytes they have.
pub trim_oversized :
    (front : List Text) (x : Text) (m : ℕ)
    → 0 < m
    → m < length x
    → trim_lines_to_bytes (front ++ x ∷ []) (pos m) ≡ front ++ x ∷ []
trim_oversized front x m h l =
    let none_fits =
      ap (kept m 0) (reverse-append front (x ∷ [])) ∙ kept_oversized m x (reverse front) l in
    let start : length (front ++ x ∷ []) - 0 ≡ length (front ++ x ∷ []) = omega arith in
    rw (trim-cut (front ++ x ∷ []) m h, none_fits, start) (cut_end (front ++ x ∷ []))
