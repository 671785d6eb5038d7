-- ===== src/Server/Logs/Search/Fuel.antt =====
-- truncateSearch: the fuel of its loops is enough.
use xray_web_maneger.Common.{
  ℕ, zero, suc, ◌-◌, ◌≤◌, ◌≡◌, refl, Text, length, take, drop, length-take, length-drop, arith,
}
use xray_web_maneger.Server.Logs.Search.{rune_size, valid_from, last_rune_size, back_up}
use xray_web_maneger.Server.Logs.Search.Laws.{last_rune_size-pos}

-- With the length as fuel or more, the loop of utf8.ValidString gives the same answer.
valid_from_enough :
    (f g : ℕ) (s : Text) → length s ≤ f → length s ≤ g → valid_from f s ≡ valid_from g s
unfolding valid_from
valid_from_enough zero zero s p q = refl
valid_from_enough zero (suc g) s p q = ground arith
valid_from_enough (suc f) zero s p q = ground arith
valid_from_enough (suc f) (suc g) s p q =
    ground (arith, valid_from_enough f g (drop (rune_size s) s), length-drop (rune_size s) s)

-- So does the loop of truncateSearch.
back_up_enough : (f g : ℕ) (s : Text) → length s ≤ f → length s ≤ g → back_up f s ≡ back_up g s
unfolding back_up
back_up_enough zero zero s p q = refl
back_up_enough zero (suc g) s p q = ground arith
back_up_enough (suc f) zero s p q = ground arith
back_up_enough (suc f) (suc g) s p q =
    let n = length s - last_rune_size s in
    ground (arith, back_up_enough f g (take n s), length-take n s, last_rune_size-pos s)
