-- ===== src/Server/Logs/Search.antt =====
-- truncateSearch of server/handlerlog.go, and the UTF-8 functions that it calls.
pub mod Laws
pub mod Fuel
use xray_web_maneger.Common.{
  ℕ, zero, suc, ◌+◌, ◌-◌, Text, Bool, true, false, not, ◌&&◌, ◌||◌, ◌==◌, List, [], ◌∷◌, ◌++◌,
  reverse, ltb, leb, length, take, drop, if◌then◌else◌,
}

-- Whether a byte continues a sequence (10xxxxxx); utf8.RuneStart is its negation.
abbrev pub is_continuation : ℕ → Bool
is_continuation c = leb 0x80 c && leb c 0xBF

-- The second byte that a first byte of a three-byte sequence allows.
abbrev second_of_three : ℕ → ℕ → Bool
second_of_three a b =
    if a == 0xE0
    then leb 0xA0 b && leb b 0xBF
    else if a == 0xED
    then leb 0x80 b && leb b 0x9F
    else is_continuation b

abbrev second_of_four : ℕ → ℕ → Bool
second_of_four a b =
    if a == 0xF0
    then leb 0x90 b && leb b 0xBF
    else if a == 0xF4
    then leb 0x80 b && leb b 0x8F
    else is_continuation b

-- The size of the valid sequence at the front, 0 if there is none; utf8.DecodeRuneInString reports
-- a size of 1 where a text that is not empty gets 0 here.
pub rune_size : Text → ℕ
rune_size [] = 0
rune_size (a ∷ []) = if ltb a 0x80 then 1 else 0
rune_size (a ∷ b ∷ []) =
    if ltb a 0x80 then 1 else if leb 0xC2 a && leb a 0xDF && is_continuation b then 2 else 0
rune_size (a ∷ b ∷ c ∷ []) =
    if ltb a 0x80
    then 1
    else if leb 0xC2 a && leb a 0xDF && is_continuation b
    then 2
    else if leb 0xE0 a && leb a 0xEF && second_of_three a b && is_continuation c
    then 3
    else 0
rune_size (a ∷ b ∷ c ∷ d ∷ s) =
    if ltb a 0x80
    then 1
    else if leb 0xC2 a && leb a 0xDF && is_continuation b
    then 2
    else if leb 0xE0 a && leb a 0xEF && second_of_three a b && is_continuation c
    then 3
    else if leb 0xF0 a && leb a 0xF4 && second_of_four a b && is_continuation c && is_continuation d
    then 4
    else 0

-- utf8.ValidString, with fuel: the length is enough, for each round takes a byte at least.
valid_from : ℕ → Text → Bool
valid_from zero s = length s == 0
valid_from (suc f) s =
    let rest = valid_from f (drop (rune_size s) s) in
    if length s == 0 then true else if rune_size s == 0 then false else rest

pub valid_string : Text → Bool
valid_string s = valid_from (length s) s

-- The start that utf8.DecodeLastRuneInString looks for, among the last four bytes: how many bytes
-- there are from it to the end. The text is given backwards, and `seen` bytes of it were passed.
last_start : ℕ → ℕ → Text → ℕ
last_start zero seen s = seen
last_start (suc f) seen [] = seen
last_start (suc f) seen (c ∷ s) = if is_continuation c then last_start f (seen + 1) s else seen + 1

-- The size that utf8.DecodeLastRuneInString reports.
pub last_rune_size : Text → ℕ
last_rune_size s =
    let n = last_start 4 0 (reverse s) in
    if length s == 0 then 0 else if rune_size (drop (length s - n) s) == n then n else 1

-- The loop of truncateSearch, with fuel.
back_up : ℕ → Text → Text
back_up zero s = s
back_up (suc f) s =
    let shorter = take (length s - last_rune_size s) s in
    let rest = back_up f shorter in
    if length s == 0 then s else if valid_string shorter then shorter else rest

pub truncate_search : Text → ℕ → Text
truncate_search s max_bytes =
    let cut = take max_bytes s in
    if leb (length s) max_bytes
    then s
    else if valid_string cut
    then cut
    else back_up (length cut) cut
