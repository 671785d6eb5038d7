-- ===== src/Sse/Manager/Invariant.antt =====
-- What holds of the manager after any calls, and how a shutdown ends.
use xray_web_maneger.Common.{
  ℕ, ◌+◌, ◌≤◌, ◌<◌, ◌≡◌, ◌≢◌, refl, ◌⊎◌, inl, inr, Bool, true, false, not, ◌==◌, none, some, List,
  [], ◌∷◌, ◌++◌, length, keep_if, length-keep_if-le, All, All-keep_if, Some, here, there, arith,
}
use xray_web_maneger.Sse.Manager.{
  Manager, new_manager, add, remove, close, close_all, Call, adds, removes, closes, closes_all,
  step, run,
}

-- The connections differ from one another and have numbers that were given out.
abbrev pub IsDistinct : List ℕ → Type 0
IsDistinct [] = Unit
IsDistinct (c ∷ cs) = All (λ d. d ≢ c) cs × IsDistinct cs

pub record IsValid (m : Manager) : Type 0 where
  pub bounded : length m.connections ≤ m.max_conns
  pub fresh : All (λ c. c < m.next) m.connections
  pub distinct : IsDistinct m.connections
  pub shut : m.shutdown ≡ true → m.connections ≡ []

IsDistinct-keep_if : (p : ℕ → Bool) (cs : List ℕ) → IsDistinct cs → IsDistinct (keep_if p cs)
IsDistinct-keep_if p [] h = tt
IsDistinct-keep_if p (c ∷ cs) (a, h) =
    ground (arith, All-keep_if (λ d. d ≢ c) p cs a, IsDistinct-keep_if p cs h)

All-lt_suc : (n : ℕ) (cs : List ℕ) → All (λ c. c < n) cs → All (λ c. c < n + 1) cs
All-lt_suc n [] h = tt
All-lt_suc n (c ∷ cs) (a, h) = (omega arith, All-lt_suc n cs h)

ne_of_fresh : (n : ℕ) (cs : List ℕ) → All (λ c. c < n) cs → All (λ d. d ≢ n) cs
ne_of_fresh n [] h = tt
ne_of_fresh n (c ∷ cs) (a, h) = (λ e. omega arith, ne_of_fresh n cs h)

pub new_manager-IsValid : IsValid new_manager
new_manager-IsValid = record { bounded = omega arith; fresh = tt; distinct = tt; shut = λ e. refl }

-- What Add does, on both of its outcomes.
add_cases :
    (m : Manager)
    → (add m ≡ (m, none))
      ⊎ ((m.shutdown ≡ false)
          × (length m.connections < m.max_conns)
          × (add m ≡ (
            record m { connections = m.next ∷ m.connections; next = m.next + 1 },
            some m.next,
          )))
unfolding add
add_cases m = ground arith

add-IsValid : (m : Manager) → IsValid m → IsValid (add m).0
add-IsValid m v = elim (add_cases m) [
  | inl e ↦ rw e v
  | inr (open_, room, e) ↦ rw e (record {
    bounded = omega arith;
    fresh = (omega arith, All-lt_suc m.next m.connections v.fresh);
    distinct = (ne_of_fresh m.next m.connections v.fresh, v.distinct);
    shut = λ s. cc;
  })
]

pub step-IsValid : (m : Manager) (c : Call) → IsValid m → IsValid (step m c)
unfolding step remove close close_all
step-IsValid m adds v = add-IsValid m v
step-IsValid m (removes none) v = v
step-IsValid m (removes (some conn)) v = record {
  bounded = omega (arith, v.bounded, length-keep_if-le (λ c. not (c == conn)) m.connections);
  fresh = All-keep_if (λ c. c < m.next) (λ c. not (c == conn)) m.connections v.fresh;
  distinct = IsDistinct-keep_if (λ c. not (c == conn)) m.connections v.distinct;
  shut = λ e. rw (v.shut e);
}
step-IsValid m (closes conn) v = record {
  bounded = v.bounded;
  fresh = v.fresh;
  distinct = v.distinct;
  shut = v.shut;
}
step-IsValid m closes_all v = record {
  bounded = omega arith;
  fresh = tt;
  distinct = tt;
  shut = λ e. refl;
}

run-IsValid : (m : Manager) (cs : List Call) → IsValid m → IsValid (run m cs)
unfolding run
run-IsValid m [] v = v
run-IsValid m (c ∷ cs) v = run-IsValid (step m c) cs (step-IsValid m c v)

-- After any calls on a new manager the connections are distinct, at most max_conns, and none once
-- it was shut down.
pub run-new_manager-IsValid : (cs : List Call) → IsValid (run new_manager cs)
run-new_manager-IsValid cs = run-IsValid new_manager cs new_manager-IsValid

pub step-shutdown : (m : Manager) (c : Call) → m.shutdown ≡ true → (step m c).shutdown ≡ true
unfolding step add remove close close_all
step-shutdown m adds h = ground arith
step-shutdown m (removes none) h = h
step-shutdown m (removes (some conn)) h = h
step-shutdown m (closes conn) h = h
step-shutdown m closes_all h = refl

run-shutdown : (m : Manager) (cs : List Call) → m.shutdown ≡ true → (run m cs).shutdown ≡ true
unfolding run
run-shutdown m [] h = h
run-shutdown m (c ∷ cs) h = run-shutdown (step m c) cs (step-shutdown m c h)

abbrev pub IsClosed : Manager → ℕ → Type 0
IsClosed m c = Some (λ d. d ≡ c) m.closed

Some-append_right : (c : ℕ) (xs ys : List ℕ) → Some (λ d. d ≡ c) ys → Some (λ d. d ≡ c) (xs ++ ys)
Some-append_right c [] ys s = s
Some-append_right c (x ∷ xs) ys s = there (Some-append_right c xs ys s)

Some-append_left : (c : ℕ) (xs ys : List ℕ) → Some (λ d. d ≡ c) xs → Some (λ d. d ≡ c) (xs ++ ys)
Some-append_left c [] ys s = elim s [ ]
Some-append_left c (x ∷ xs) ys (here e) = here e
Some-append_left c (x ∷ xs) ys (there s) = there (Some-append_left c xs ys s)

All-Some-self :
    (all rest : List ℕ)
    → ((c : ℕ) → Some (λ d. d ≡ c) rest → Some (λ d. d ≡ c) all)
    → All (λ c. Some (λ d. d ≡ c) all) rest
All-Some-self all [] f = tt
All-Some-self all (x ∷ rest) f = (f x (here refl), All-Some-self all rest (λ c s. f c (there s)))

-- CloseAll cancels every connection that is open, and after it, whatever calls follow, no
-- connection is added.
pub close_all_lem :
    (m : Manager) (cs : List Call)
    → All (IsClosed (close_all m)) m.connections × ((add (run (close_all m) cs)).1 ≡ none)
unfolding close_all add
close_all_lem m cs = (
  All-Some-self (m.connections ++ m.closed) m.connections
      (λ c s. Some-append_left c m.connections m.closed s),
  rw (run-shutdown (close_all m) cs refl),
)

pub close_all-IsValid : (m : Manager) → IsValid m → IsValid (close_all m)
unfolding step
close_all-IsValid m v = step-IsValid m closes_all v

pub close_all-shutdown : (m : Manager) → (close_all m).shutdown ≡ true
unfolding close_all
close_all-shutdown m = refl

-- After CloseAll no connection is added.
pub add_of_shutdown : (m : Manager) → m.shutdown ≡ true → (add m).1 ≡ none
unfolding add
add_of_shutdown m h = rw h refl
