-- ===== src/Server/Connectivity/Time.antt =====
-- The state of a connection at a time.
use xray_web_maneger.Common.{ℕ, ◌+◌, ◌-◌, ◌≤◌, ◌<◌, ◌≡◌, refl, sym, ap, ◌∙◌, suc, arith, dec_lt}
use xray_web_maneger.Server.Connectivity.{Connectivity, History, stays, changes, get_state, advance}

-- The state after some nanoseconds.
abbrev pub state_at : History → ℕ → Connectivity
state_at h t = get_state (advance t h)

pub state_at_stays : (s : Connectivity) (t : ℕ) → state_at (stays s) t ≡ s
unfolding advance
state_at_stays s t = refl

pub state_at_early :
    (s : Connectivity) (n : ℕ) (h : History) (t : ℕ) → t ≤ n → state_at (changes s n h) t ≡ s
unfolding advance
state_at_early s n h t e = ground arith

pub state_at_late :
    (s : Connectivity) (n : ℕ) (h : History) (t : ℕ)
    → n < t
    → state_at (changes s n h) t ≡ state_at h (t - suc n)
unfolding advance
state_at_late s n h t e = ground arith

pub back : (n k : ℕ) → suc n + k - suc n ≡ k
back n k = omega arith

pub advance-stays : (t : ℕ) (s : Connectivity) → advance t (stays s) ≡ stays s
unfolding advance
advance-stays t s = refl

pub advance_late :
    (s : Connectivity) (n : ℕ) (h : History) (t : ℕ)
    → n < t
    → advance t (changes s n h) ≡ advance (t - suc n) h
unfolding advance
advance_late s n h t e = ground arith

pub advance_early :
    (s : Connectivity) (n : ℕ) (h : History) (t : ℕ)
    → t ≤ n
    → advance t (changes s n h) ≡ changes s (n - t) h
unfolding advance
advance_early s n h t e = ground arith

pub advance_none : (h : History) → advance 0 h ≡ h
unfolding advance
advance_none (stays s) = refl
advance_none (changes s n h) = ground arith

pub advance-rest :
    (s : Connectivity) (n : ℕ) (h : History) (a b : ℕ)
    → b ≤ n
    → advance a (changes s (n - b) h) ≡ advance (b + a) (changes s n h)
advance-rest s n h a b e = elim (dec_lt (n - b) a) [
  | yes late ↦
      advance_late s (n - b) h a late
      ∙ ap (λ t. advance t h) (omega (arith, late, e))
      ∙ sym (advance_late s n h (b + a) (omega (arith, late, e)))
  | no soon ↦
      advance_early s (n - b) h a (omega (arith, soon))
      ∙ ap (λ k. changes s k h) (omega (arith, soon, e))
      ∙ sym (advance_early s n h (b + a) (omega (arith, soon, e)))
]

pub advance-advance : (a b : ℕ) (h : History) → advance a (advance b h) ≡ advance (b + a) h
unfolding advance
advance-advance a b (stays s) = refl
advance-advance a b (changes s n h) = elim (dec_lt n b) [
  | yes late ↦
      ap (advance a) (advance_late s n h b late)
      ∙ advance-advance a (b - suc n) h
      ∙ ap (λ t. advance t h) (omega (arith, late))
      ∙ sym (advance_late s n h (b + a) (omega (arith, late)))
  | no soon ↦
      ap (advance a) (advance_early s n h b (omega (arith, soon)))
      ∙ advance-rest s n h a b (omega (arith, soon))
]
