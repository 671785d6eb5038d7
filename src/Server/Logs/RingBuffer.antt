-- ===== src/Server/Logs/RingBuffer.antt =====
-- The ring buffer of readLogFile keeps the last lines that match, in order.
use xray_web_maneger.Common.{
  ◌⊎◌, inl, inr, ℕ, zero, suc, ◌+◌, ◌-◌, ◌%◌, ◌≤◌, ◌<◌, ◌≡◌, refl, sym, ap, ◌∙◌, Text, Bool, false,
  some, List, [], ◌∷◌, ◌++◌, length, take, drop, set, map, All, keep_if, arith, length-set,
  length-drop, Bool-cases, dec_lt, subst, drop_all, take_all, drop-append, length-snoc, lt→ltb,
}
use native.Mathlib.Numerals.{add-one}
use native.Mathlib.Nat.{mod-eq_of_lt, mod-lt, mod_self}
use mathlib.Core.List.{append-nil, append_assoc}
use xray_web_maneger.Server.Logs.{Ring, write_line, unroll, matches, scan}

module _ {ℓ} {A : Type ℓ} where
  take-suc-set :
      (i : ℕ) (xs : List A) (v : A)
      → i < length xs
      → take (suc i) (set xs i v) ≡ take i xs ++ v ∷ []
  take-suc-set i [] v h = elim h [ ]
  take-suc-set zero (x ∷ xs) v h = refl
  take-suc-set (suc i) (x ∷ xs) v h = rw (take-suc-set i xs v (omega arith))

  drop-suc-set : (i : ℕ) (xs : List A) (v : A) → drop (suc i) (set xs i v) ≡ drop (suc i) xs
  drop-suc-set i [] v = refl
  drop-suc-set zero (x ∷ xs) v = refl
  drop-suc-set (suc i) (x ∷ xs) v = drop-suc-set i xs v

  drop-drop_one : (i : ℕ) (xs : List A) → drop 1 (drop i xs) ≡ drop (suc i) xs
  drop-drop_one zero xs = refl
  drop-drop_one (suc i) [] = refl
  drop-drop_one (suc i) (x ∷ xs) = drop-drop_one i xs

  -- The last `n` elements.
  abbrev pub last_n : ℕ → List A → List A
  last_n n xs = drop (length xs - n) xs

  -- The contents from the place `i` on, around the end.
  abbrev pub rotated : ℕ → List A → List A
  rotated i xs = drop i xs ++ take i xs

  rotated-length : (xs : List A) → rotated (length xs) xs ≡ rotated 0 xs
  rotated-length xs =
      rw (drop_all (length xs) xs (omega arith), take_all (length xs) xs (omega arith))
        (sym (append-nil xs))

  rotated-suc-set :
      (i : ℕ) (xs : List A) (v : A)
      → i < length xs
      → rotated (suc i) (set xs i v) ≡ drop 1 (rotated i xs) ++ v ∷ []
  rotated-suc-set i xs v h =
      rw (drop-suc-set i xs v, take-suc-set i xs v h)
        (rw (drop-append 1 (drop i xs) (take i xs) (omega (arith, length-drop i xs)))
          (rw (drop-drop_one i xs) (sym (append_assoc (drop (suc i) xs) (take i xs) (v ∷ [])))))

  last_n-append :
      (n : ℕ) (xs : List A) (v : A)
      → 0 < n
      → n ≤ length xs
      → last_n n (xs ++ v ∷ []) ≡ drop 1 (last_n n xs) ++ v ∷ []
  last_n-append n xs v p h =
      let e : length (xs ++ v ∷ []) - n ≡ suc (length xs - n) = omega (arith, length-snoc xs v) in
      rw e (
        rw (drop-drop_one (length xs - n) xs)
          (drop-append (suc (length xs - n)) xs (v ∷ []) (omega arith)))

  last_n-append_short :
      (n : ℕ) (xs : List A) (v : A)
      → length xs < n
      → last_n n (xs ++ v ∷ []) ≡ last_n n xs ++ v ∷ []
  last_n-append_short n xs v h =
      let e : length (xs ++ v ∷ []) - n ≡ 0 = omega (arith, length-snoc xs v) in
      let f : length xs - n ≡ 0 = omega arith in rw (e, f)

-- The place after `p`, around the end.
wrap_cases :
    (p n : ℕ) → p < n → (((p + 1) % n ≡ suc p) × (suc p < n)) ⊎ (((p + 1) % n ≡ 0) × (suc p ≡ n))
wrap_cases p n h = elim (dec_lt (suc p) n) [
  | yes l ↦ inl (rw add-one (mod-eq_of_lt l), l)
  | no l ↦
      let e : suc p ≡ n = omega arith in
      inr (rw add-one (subst (λ k. k % n ≡ 0) (sym e) (mod_self n)), e)
]

rotated-wrap :
    (p n : ℕ) (s : List Text) → p < n → length s ≡ n → rotated ((p + 1) % n) s ≡ rotated (suc p) s
rotated-wrap p n s h e = elim (wrap_cases p n h) [
  | inl (f, _) ↦ rw f
  | inr (f, g) ↦ rw (f, g, ← e) (sym (rotated-length s))
]

unroll_full : (n : ℕ) (r : Ring) → n ≤ r.count → unroll n r ≡ rotated r.pos r.slots
unfolding unroll
unroll_full n r h = ground arith

unroll_filling : (n : ℕ) (r : Ring) → r.count < n → unroll n r ≡ take r.count r.slots
unfolding unroll
unroll_filling n r h = ground arith

-- The ring holds the last `n` of the lines `xs` that were written to it.
pub record Holds (n : ℕ) (r : Ring) (xs : List Text) : Type 0 where
  pub size : length r.slots ≡ n
  pub counted : r.count ≡ length xs
  pub inside : r.pos < n
  pub filling : r.count < n → r.pos ≡ r.count
  pub content : unroll n r ≡ last_n n xs

module _ (n : ℕ) (r : Ring) (xs : List Text) (line : Text) (h : Holds n r xs) where
  -- The slots after the line was written, from the oldest line on.
  write_line-rotated :
      rotated ((r.pos + 1) % n) (set r.slots r.pos line)
      ≡ drop 1 (rotated r.pos r.slots) ++ line ∷ []
  write_line-rotated =
      rotated-wrap r.pos n (set r.slots r.pos line) h.inside
        (length-set r.slots r.pos line ∙ h.size)
      ∙ rotated-suc-set r.pos r.slots line (omega (arith, h.inside, h.size))

  unroll-write_line_full : n ≤ r.count → unroll n (write_line n r line) ≡ last_n n (xs ++ line ∷ [])
  unfolding write_line
  unroll-write_line_full full =
      unroll_full n (write_line n r line) (omega arith)
      ∙ write_line-rotated
      ∙ ap (λ l. drop 1 l ++ line ∷ []) (sym (unroll_full n r full) ∙ h.content)
      ∙ sym (last_n-append n xs line (omega (arith, h.inside)) (omega (arith, h.counted)))

  write_line-take :
      r.count < n → take (suc r.count) (set r.slots r.pos line) ≡ last_n n xs ++ line ∷ []
  write_line-take l = rw (h.filling l) (
      take-suc-set r.count r.slots line (omega (arith, h.size))
      ∙ ap (λ q. q ++ line ∷ []) (sym (unroll_filling n r l) ∙ h.content))

  unroll-write_line_filling :
      r.count < n → unroll n (write_line n r line) ≡ take (suc r.count) (set r.slots r.pos line)
  unfolding write_line
  unroll-write_line_filling l = elim (dec_lt (suc r.count) n) [
    | yes short ↦ unroll_filling n (write_line n r line) (omega arith) ∙ rw add-one
    | no full ↦
        unroll_full n (write_line n r line) (omega arith)
        ∙ rotated-wrap r.pos n (set r.slots r.pos line) h.inside
            (length-set r.slots r.pos line ∙ h.size)
        ∙ rw (h.filling l) (
            rw (
              drop_all (suc r.count) (set r.slots r.count line)
                (omega (arith, h.size, length-set r.slots r.count line))))
  ]

  write_line-Holds : Holds n (write_line n r line) (xs ++ line ∷ [])
  write_line-Holds = record {
    size = unfold write_line in length-set r.slots r.pos line ∙ h.size;
    counted = unfold write_line in omega (arith, h.counted, length-snoc xs line);
    inside = unfold write_line in mod-lt (r.pos + 1) (omega (arith, h.inside));
    filling =
        unfold write_line in
        λ l.
          mod-eq_of_lt (omega (arith, h.filling (omega arith)))
          ∙ omega (arith, h.filling (omega arith));
    content = elim (dec_lt r.count n) [
      | yes l ↦
          unroll-write_line_filling l
          ∙ write_line-take l
          ∙ sym (last_n-append_short n xs line (omega (arith, h.counted)))
      | no l ↦ unroll-write_line_full (omega arith)
    ];
  }

-- A slice from the pool, whatever it holds, is a ring to which nothing was written.
pub empty-Holds :
    (n : ℕ) (pooled : List Text)
    → 0 < n
    → length pooled ≡ n
    → Holds n (record { slots = pooled; pos = 0; count = 0 }) []
unfolding unroll
empty-Holds n pooled p e = record {
  size = e;
  counted = refl;
  inside = p;
  filling = λ l. refl;
  content = rw (lt→ltb 0 n p) (sym (drop_all (0 - n) [] (omega arith)));
}

-- The lines of a file that match, in order.
abbrev pub matching : (Text → Text) → Text → List (Bool × Text) → List Text
matching to_lower search scanned = keep_if (matches to_lower search) (map (λ e. e.1) scanned)

-- The context was never done.
abbrev pub NotCancelled : List (Bool × Text) → Type 0
NotCancelled scanned = All (λ e. e.0 ≡ false) scanned

module _ (to_lower : Text → Text) (n : ℕ) (search : Text) where
  pub scan-Holds :
      (r : Ring) (xs : List Text) (scanned : List (Bool × Text))
      → Holds n r xs
      → NotCancelled scanned
      → (r' : Ring) × (scan to_lower n search r scanned ≡ some r')
        × Holds n r' (xs ++ matching to_lower search scanned)
  unfolding scan
  scan-Holds r xs [] h live = (r, refl, rw (append-nil xs) h)
  scan-Holds r xs ((done, line) ∷ rest) h (live, later) =
      elim (Bool-cases (matches to_lower search line)) [
        | inl hit ↦
            let (r', e, h') =
              scan-Holds (write_line n r line) (xs ++ line ∷ []) rest
                (write_line-Holds n r xs line h) later in
            (r', rw (live, hit) e, rw hit (subst (Holds n r') (append_assoc xs (line ∷ []) _) h'))
        | inr miss ↦
            let (r', e, h') = scan-Holds r xs rest h later in (r', rw (live, miss) e, rw miss h')
      ]
