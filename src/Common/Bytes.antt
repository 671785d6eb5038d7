-- ===== src/Common/Bytes.antt =====
-- Go strings as lists of byte values, and the functions of package strings that the program calls.
use Prim.Native.Nat.{ℕ}
use Prim.Native.Char.{code}
use Prim.Native.String.{String}
use mathlib.Core.Path.{◌≡◌, refl}
use mathlib.Core.Bool.{Bool, true, false, ◌&&◌}
use mathlib.Core.List.{List, [], ◌∷◌}
use mathlib.Core.Logic.{◌↔◌}
use native.Mathlib.Omega.{arith}
use native.Mathlib.Decide.{ℕ_discrete}
use xray_web_maneger.Common.Tests.{◌==◌}

abbrev pub Text : Type 0
Text = List ℕ

-- The bytes of an ASCII literal.
abbrev pub codes : String → Text
codes String.[] = []
codes (String.◌∷◌ c s) = code c ∷ codes s

pub cons_inverse : {x y : ℕ} {xs ys : Text} → x ∷ xs ≡ y ∷ ys → (x ≡ y) × (xs ≡ ys)
cons_inverse e = (cc, cc)

pub nil≢cons : {y : ℕ} {ys : Text} → ¬ (◌≡◌ {A = Text} [] (y ∷ ys))
nil≢cons e = cc

pub cons≢nil : {y : ℕ} {ys : Text} → ¬ (y ∷ ys ≡ [])
cons≢nil e = cc

pub cons_eq : {x y : ℕ} {xs ys : Text} → x ≡ y → xs ≡ ys → x ∷ xs ≡ y ∷ ys
cons_eq e f = cc

cons_dec : {x y : ℕ} {xs ys : Text} → Dec (x ≡ y) → Dec (xs ≡ ys) → Dec (x ∷ xs ≡ y ∷ ys)
cons_dec (yes e) (yes f) = yes (cons_eq e f)
cons_dec (yes e) (no f) = no (λ h. f (cons_inverse h).1)
cons_dec (no e) d = no (λ h. e (cons_inverse h).0)

unfoldable pub Text-discrete : Discrete Text
unfolding ℕ_discrete cons_dec
Text-discrete [] [] = yes refl
Text-discrete [] (y ∷ ys) = no nil≢cons
Text-discrete (x ∷ xs) [] = no cons≢nil
Text-discrete (x ∷ xs) (y ∷ ys) = cons_dec (ℕ_discrete x y) (Text-discrete xs ys)

abbrev pub text_eq : Text → Text → Bool
text_eq [] [] = true
text_eq (x ∷ xs) (y ∷ ys) = x == y && text_eq xs ys
text_eq _ _ = false

pub text_eq_refl : (s : Text) → text_eq s s ≡ true
text_eq_refl [] = refl
text_eq_refl (x ∷ xs) = ground (arith, text_eq_refl xs)

eq_of_text_eq : (s t : Text) → text_eq s t ≡ true → s ≡ t
eq_of_text_eq [] [] h = refl
eq_of_text_eq [] (y ∷ ys) h = cc
eq_of_text_eq (x ∷ xs) [] h = cc
eq_of_text_eq (x ∷ xs) (y ∷ ys) h = ground (arith, eq_of_text_eq xs ys)

pub text_eq_iff : (s t : Text) → (text_eq s t ≡ true) ↔ (s ≡ t)
text_eq_iff s t = (eq_of_text_eq s t, λ e. rw e (text_eq_refl t))

abbrev pub is_empty : Text → Bool
is_empty [] = true
is_empty (_ ∷ _) = false
