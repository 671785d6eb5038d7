-- ===== src/Common/Strings.antt =====
-- The functions of packages strings, strconv and utf8 that the program calls, on bytes.
use Prim.Native.Nat.{ℕ, zero, suc, ◌+◌, ◌-◌, ◌*◌}
use mathlib.Core.Bool.{Bool, true, false, ◌&&◌, ◌||◌}
use mathlib.Core.Option.{Option, none, some}
use mathlib.Core.List.{List, [], ◌∷◌, reverse}
use xray_web_maneger.Common.Tests.{◌==◌, leb, if◌then◌else◌}
use xray_web_maneger.Common.Lists.{length, drop}
use xray_web_maneger.Common.Bytes.{Text}
use xray_web_maneger.Common.Int.{ℤ, pos, negsuc}

-- strings.HasPrefix, with the text first.
unfoldable pub has_prefix : Text → Text → Bool
has_prefix s [] = true
has_prefix [] (p ∷ ps) = false
has_prefix (c ∷ s) (p ∷ ps) = c == p && has_prefix s ps

unfoldable pub has_suffix : Text → Text → Bool
unfolding has_prefix
has_suffix s t = has_prefix (reverse s) (reverse t)

unfoldable pub contains : Text → Text → Bool
unfolding has_prefix
contains [] sub = has_prefix [] sub
contains (c ∷ s) sub = has_prefix (c ∷ s) sub || contains s sub

unfoldable pub trim_prefix : Text → Text → Text
unfolding has_prefix
trim_prefix s p = if has_prefix s p then drop (length p) s else s

-- The bytes of a white space rune at the front, as unicode.IsSpace has it; 0 if there is none.
unfoldable pub space_width : Text → ℕ
space_width [] = 0
space_width (a ∷ []) = if a == 32 || leb 9 a && leb a 13 then 1 else 0
space_width (a ∷ b ∷ []) =
    if a == 32 || leb 9 a && leb a 13
    then 1
    else if a == 0xC2 && (b == 0x85 || b == 0xA0)
    then 2
    else 0
space_width (a ∷ b ∷ c ∷ s) =
    if a == 32 || leb 9 a && leb a 13
    then 1
    else if a == 0xC2 && (b == 0x85 || b == 0xA0)
    then 2
    else if a == 0xE1 && b == 0x9A && c == 0x80
        || a == 0xE2
          && b == 0x80
          && (leb 0x80 c && leb c 0x8A || c == 0xA8 || c == 0xA9 || c == 0xAF)
        || a == 0xE2 && b == 0x81 && c == 0x9F
        || a == 0xE3 && b == 0x80 && c == 0x80
    then 3
    else 0

-- The same at the end of a text that is given backwards.
unfoldable pub last_space_width : Text → ℕ
unfolding space_width
last_space_width [] = 0
last_space_width (a ∷ []) = space_width (a ∷ [])
last_space_width (b ∷ a ∷ []) =
    if space_width (b ∷ []) == 1 then 1 else if space_width (a ∷ b ∷ []) == 2 then 2 else 0
last_space_width (c ∷ b ∷ a ∷ s) =
    if space_width (c ∷ []) == 1
    then 1
    else if space_width (b ∷ c ∷ []) == 2
    then 2
    else if space_width (a ∷ b ∷ c ∷ []) == 3
    then 3
    else 0

-- Drops runes from the front while `width` finds one to drop, with the length as fuel.
unfoldable pub trim_front : (Text → ℕ) → ℕ → Text → Text
trim_front width zero s = s
trim_front width (suc f) s =
    let rest = trim_front width f (drop (width s) s) in if width s == 0 then s else rest

unfoldable pub trim_space : Text → Text
unfolding trim_front space_width last_space_width
trim_space s =
    let t = trim_front space_width (length s) s in
    reverse (trim_front last_space_width (length t) (reverse t))

-- strings.TrimRight with one byte as its cutset.
unfoldable pub drop_while_eq : ℕ → Text → Text
drop_while_eq c [] = []
drop_while_eq c (d ∷ s) = if d == c then drop_while_eq c s else d ∷ s

unfoldable pub trim_right : Text → ℕ → Text
unfolding drop_while_eq
trim_right s c = reverse (drop_while_eq c (reverse s))

-- strings.Index of one byte.
unfoldable pub index_byte : ℕ → Text → Option ℕ
index_byte c [] = none
index_byte c (d ∷ s) =
    if d == c then some 0 else elim (index_byte c s) [ none ↦ none | some i ↦ some (suc i) ]

-- strings.Split on one byte: the parts, the first one separate, for there is always one.
unfoldable pub split_byte : ℕ → Text → Text × List Text
split_byte c [] = ([], [])
split_byte c (d ∷ s) =
    let (part, parts) = split_byte c s in if d == c then ([], part ∷ parts) else (d ∷ part, parts)

-- The decimal value of digits, `none` at any other byte.
unfoldable pub digits_value : ℕ → Text → Option ℕ
digits_value acc [] = some acc
digits_value acc (c ∷ s) =
    let rest = digits_value (acc * 10 + (c - b'0')) s in
    if leb b'0' c && leb c b'9' then rest else none

abbrev pub max_int64 : ℕ
max_int64 = 9_223_372_036_854_775_807

-- The digits of strconv.Atoi after the sign; `none` stands for a syntax or a range error.
unfoldable pub magnitude : Text → Option ℕ
unfolding digits_value
magnitude [] = none
magnitude (c ∷ s) = digits_value 0 (c ∷ s)

abbrev pub signed : Bool → Option ℕ → Option ℤ
signed negative none = none
signed true (some n) =
    if leb n (max_int64 + 1) then some (if n == 0 then pos 0 else negsuc (n - 1)) else none
signed false (some n) = if leb n max_int64 then some (pos n) else none

unfoldable pub atoi : Text → Option ℤ
unfolding magnitude
atoi [] = none
atoi (c ∷ s) =
    if c == b'-'
    then signed true (magnitude s)
    else if c == b'+'
    then signed false (magnitude s)
    else signed false (magnitude (c ∷ s))
