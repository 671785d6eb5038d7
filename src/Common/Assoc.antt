-- ===== src/Common/Assoc.antt =====
-- Go maps as association lists: a read, a write, a deletion, and their laws. The order of the
-- list stands for the order in which one `range` over the map visits it.
use xray_web_maneger.Common.{
  ◌+◌, ◌≤◌, ◌≡◌, refl, ◌≢◌, Option, none, some, List, [], ◌∷◌, ite, arith, length, All, Bool,
  if◌then◌else◌, Some, here, there, subst, sym, ap, if_pos, if_neg,
}

module _ {ℓ} {K V : Type ℓ} (dec : Discrete K) where
  -- m[k]
  abbrev pub lookup : K → List (K × V) → Option V
  lookup k [] = none
  lookup k (e ∷ m) = ite (dec e.0 k) (some e.1) (lookup k m)

  -- m[k] = v
  abbrev pub put : K → V → List (K × V) → List (K × V)
  put k v [] = (k, v) ∷ []
  put k v (e ∷ m) = ite (dec e.0 k) ((k, v) ∷ m) (e ∷ put k v m)

  -- delete(m, k)
  abbrev pub delete : K → List (K × V) → List (K × V)
  delete k [] = []
  delete k (e ∷ m) = ite (dec e.0 k) (delete k m) (e ∷ delete k m)

  -- A range over the map that deletes the entries that fail a test.
  abbrev pub retain : (K → V → Bool) → List (K × V) → List (K × V)
  retain p [] = []
  retain p (e ∷ m) = if p e.0 e.1 then e ∷ retain p m else retain p m

  pub lookup-put :
      (k j : K) (v : V) (m : List (K × V))
      → lookup j (put k v m) ≡ ite (dec k j) (some v) (lookup j m)
  lookup-put k j v [] = refl
  lookup-put k j v (e ∷ m) = ground (arith, lookup-put k j v m)

  pub lookup-put_self : (k j : K) (v : V) (m : List (K × V)) → k ≡ j → lookup j (put k v m) ≡ some v
  lookup-put_self k j v m e = ground (arith, lookup-put k j v m)

  pub lookup-put_ne :
      (k j : K) (v : V) (m : List (K × V)) → k ≢ j → lookup j (put k v m) ≡ lookup j m
  lookup-put_ne k j v m e = ground (arith, lookup-put k j v m)

  pub lookup-delete :
      (k j : K) (m : List (K × V)) → lookup j (delete k m) ≡ ite (dec k j) none (lookup j m)
  lookup-delete k j [] = ground arith
  lookup-delete k j (e ∷ m) = ground (arith, lookup-delete k j m)

  pub length-put-le : (k : K) (v : V) (m : List (K × V)) → length (put k v m) ≤ length m + 1
  length-put-le k v [] = omega arith
  length-put-le k v (e ∷ m) = ground (arith, length-put-le k v m)

  -- Writing to a key that is there keeps the size.
  pub length-put_of_some :
      (k : K) (v w : V) (m : List (K × V)) → lookup k m ≡ some w → length (put k v m) ≡ length m
  length-put_of_some k v w [] h = cc
  length-put_of_some k v w (e ∷ m) h = ground (arith, length-put_of_some k v w m)

  pub length-delete-le : (k : K) (m : List (K × V)) → length (delete k m) ≤ length m
  length-delete-le k [] = omega arith
  length-delete-le k (e ∷ m) = ground (arith, length-delete-le k m)

  -- Deleting a key that is there makes the map smaller.
  pub length-delete-lt :
      (k : K) (w : V) (m : List (K × V)) → lookup k m ≡ some w → length (delete k m) + 1 ≤ length m
  length-delete-lt k w [] h = cc
  length-delete-lt k w (e ∷ m) h = ground (arith, length-delete-lt k w m, length-delete-le k m)

  pub length-retain-le : (p : K → V → Bool) (m : List (K × V)) → length (retain p m) ≤ length m
  length-retain-le p [] = omega arith
  length-retain-le p (e ∷ m) = ground (arith, length-retain-le p m)

  module _ {μ} (P : K × V → Type μ) where
    pub All-put : (k : K) (v : V) (m : List (K × V)) → All P m → P (k, v) → All P (put k v m)
    All-put k v [] h p = (p, tt)
    All-put k v (e ∷ m) (q, h) p = ground (arith, All-put k v m h p)

    pub All-delete : (k : K) (m : List (K × V)) → All P m → All P (delete k m)
    All-delete k [] h = tt
    All-delete k (e ∷ m) (q, h) = ground (arith, All-delete k m h)

    pub All-retain : (p : K → V → Bool) (m : List (K × V)) → All P m → All P (retain p m)
    All-retain p [] h = tt
    All-retain p (e ∷ m) (q, h) = ground (arith, All-retain p m h)

    pub All-lookup : (k : K) (v : V) (m : List (K × V)) → All P m → lookup k m ≡ some v → P (k, v)
    All-lookup k v [] h e = cc
    All-lookup k v (x ∷ m) (q, h) e = elim (dec x.0 k) [
      | yes same ↦ subst P (ground arith) q
      | no other ↦ All-lookup k v m h (ground arith)
    ]

  -- A Go map holds each key once.
  abbrev pub Absent : K → List (K × V) → Type ℓ
  Absent k m = All (λ e. e.0 ≢ k) m

  abbrev pub HasUniqueKeys : List (K × V) → Type ℓ
  HasUniqueKeys [] = Unit
  HasUniqueKeys (e ∷ m) = Absent e.0 m × HasUniqueKeys m

  -- A key of the list is found.
  pub lookup-Some :
      (k : K) (m : List (K × V)) → Some (λ e. e.0 ≡ k) m → (v : V) × (lookup k m ≡ some v)
  lookup-Some k [] s = elim s [ ]
  lookup-Some k (e ∷ m) (here p) = (e.1, ground arith)
  lookup-Some k (e ∷ m) (there s) = elim (dec e.0 k) [
    | yes same ↦ (e.1, ground arith)
    | no other ↦ let (v, found) = lookup-Some k m s in (v, ground arith)
  ]

  lookup_of_Absent : (k : K) (m : List (K × V)) → Absent k m → lookup k m ≡ none
  lookup_of_Absent k [] h = refl
  lookup_of_Absent k (e ∷ m) (p, h) = ground (arith, lookup_of_Absent k m h)

  pub put-HasUniqueKeys :
      (k : K) (v : V) (m : List (K × V)) → HasUniqueKeys m → HasUniqueKeys (put k v m)
  put-HasUniqueKeys k v [] h = (tt, tt)
  put-HasUniqueKeys k v (e ∷ m) (p, h) = elim (dec e.0 k) [
    | yes same ↦ rw (if_pos (dec e.0 k) same) (subst (λ x. Absent x m) same p, h)
    | no other ↦
        rw (if_neg (dec e.0 k) other)
          (All-put (λ x. x.0 ≢ e.0) k v m p (λ s. other (sym s)), put-HasUniqueKeys k v m h)
  ]

  pub delete-HasUniqueKeys :
      (k : K) (m : List (K × V)) → HasUniqueKeys m → HasUniqueKeys (delete k m)
  delete-HasUniqueKeys k [] h = tt
  delete-HasUniqueKeys k (e ∷ m) (p, h) =
      ground (arith, All-delete (λ x. x.0 ≢ e.0) k m p, delete-HasUniqueKeys k m h)

  pub retain-HasUniqueKeys :
      (p : K → V → Bool) (m : List (K × V)) → HasUniqueKeys m → HasUniqueKeys (retain p m)
  retain-HasUniqueKeys p [] h = tt
  retain-HasUniqueKeys p (e ∷ m) (q, h) =
      ground (arith, All-retain (λ x. x.0 ≢ e.0) p m q, retain-HasUniqueKeys p m h)

  -- What a filtered map holds for a key.
  abbrev pub filtered : (K → V → Bool) → K → Option V → Option V
  filtered p k none = none
  filtered p k (some v) = if p k v then some v else none

  pub lookup-retain :
      (p : K → V → Bool) (k : K) (m : List (K × V))
      → HasUniqueKeys m
      → lookup k (retain p m) ≡ filtered p k (lookup k m)
  lookup-retain p k [] h = refl
  lookup-retain p k (e ∷ m) (q, h) = elim (dec e.0 k) [
    | yes same ↦ ground (
      arith,
      lookup-retain p k m h,
      lookup_of_Absent k m (subst (λ x. Absent x m) same q),
      ap (λ x. p x e.1) same,
    )
    | no other ↦ ground (arith, lookup-retain p k m h)
  ]
