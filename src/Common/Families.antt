-- ===== src/Common/Families.antt =====
-- Families indexed by numbers, with a write at one index; membership in lists of numbers.
use Prim.Native.Nat.{ℕ}
use mathlib.Core.Path.{◌≡◌, refl}
use mathlib.Core.Bool.{Bool, ◌&&◌, ◌||◌, not}
use mathlib.Core.List.{List, [], ◌∷◌, ◌++◌}
use native.Mathlib.Omega.{arith}
use xray_web_maneger.Common.Tests.{if◌then◌else◌, ◌==◌}
use xray_web_maneger.Common.Lists.{any, keep_if}

abbrev pub update {ℓ} : {A : Type ℓ} → (ℕ → A) → ℕ → A → ℕ → A
update f i a j = if j == i then a else f j

abbrev pub mem : ℕ → List ℕ → Bool
mem a xs = any (λ b. b == a) xs

abbrev pub without : ℕ → List ℕ → List ℕ
without a xs = keep_if (λ b. not (b == a)) xs

pub mem-without_eq : (c a : ℕ) (xs : List ℕ) → mem c (without a xs) ≡ mem c xs && not (c == a)
mem-without_eq c a [] = refl
mem-without_eq c a (x ∷ xs) = ground (arith, mem-without_eq c a xs)

pub mem-append_eq : (c : ℕ) (xs ys : List ℕ) → mem c (xs ++ ys) ≡ mem c xs || mem c ys
mem-append_eq c [] ys = refl
mem-append_eq c (x ∷ xs) ys = ground (arith, mem-append_eq c xs ys)
