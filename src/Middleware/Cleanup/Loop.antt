-- ===== src/Middleware/Cleanup/Loop.antt =====
-- One cleanup loop: which of its goroutines are told to stop.
use xray_web_maneger.Common.{
  ℕ, ◌+◌, ◌<◌, ◌≡◌, sym, ap, ◌∙◌, ◌⊎◌, inl, inr, refl, subst, true, false, not, ◌==◌, ==_iff,
  Option, none, some, List, [], ◌∷◌, keep_if, is_some, arith, All, All-keep_if, Bool-cases, ◌++◌,
}
use xray_web_maneger.Middleware.Cleanup.{
  mem, CleanupLoop, never_started, start_cleanup_loop, stop_cleanup_loop, end_loop,
}

-- A goroutine whose stop channel is closed, so that it returns.
abbrev pub IsTold : List ℕ → ℕ → Type 0
IsTold signalled d = mem d signalled ≡ true

-- The goroutines that run and are not told to stop.
abbrev pub untold : List ℕ → List ℕ → List ℕ
untold signalled running = keep_if (λ d. not (mem d signalled)) running

abbrev pub current : Option ℕ → List ℕ
current none = []
current (some d) = d ∷ []

abbrev AreBelow : ℕ → List ℕ → Type 0
AreBelow n ds = All (λ d. d < n) ds

-- The one goroutine that is not told to stop is the one whose channel the loop holds; the flag says
-- whether there is one.
pub record IsSingle (l : CleanupLoop) : Type 0 where
  pub single : untold l.signalled l.running ≡ current l.stop
  pub flag : l.started ≡ is_some l.stop
  pub running_below : AreBelow l.next l.running
  pub signalled_below : AreBelow l.next l.signalled

pub never_started-IsSingle : IsSingle never_started
never_started-IsSingle = record {
  single = refl;
  flag = refl;
  running_below = tt;
  signalled_below = tt;
}

AreBelow-suc : (n : ℕ) (ds : List ℕ) → AreBelow n ds → AreBelow (n + 1) ds
AreBelow-suc n [] h = tt
AreBelow-suc n (d ∷ ds) (e, h) = (omega (arith, e), AreBelow-suc n ds h)

mem_of_below : (n : ℕ) (ds : List ℕ) → AreBelow n ds → mem n ds ≡ false
mem_of_below n [] h = refl
mem_of_below n (d ∷ ds) (e, h) = ground (arith, mem_of_below n ds h)

-- The loop with a new goroutine.
abbrev begun : CleanupLoop → CleanupLoop
begun l = record l {
  started = true;
  stop = some l.next;
  running = l.next ∷ l.running;
  next = l.next + 1;
}

start_cases :
    (l : CleanupLoop)
    → ((l.started ≡ true) × (start_cleanup_loop l ≡ l))
      ⊎ ((l.started ≡ false) × (start_cleanup_loop l ≡ begun l))
unfolding start_cleanup_loop
start_cases l = ground arith

current_of_none : (o : Option ℕ) → is_some o ≡ false → current o ≡ []
current_of_none none e = refl
current_of_none (some d) e = cc

pub start_cleanup_loop-IsSingle : (l : CleanupLoop) → IsSingle l → IsSingle (start_cleanup_loop l)
start_cleanup_loop-IsSingle l s = elim (start_cases l) [
  | inl (e, same) ↦ subst IsSingle (sym same) s
  | inr (e, new) ↦ subst IsSingle (sym new) (record {
    single =
        rw (mem_of_below l.next l.signalled s.signalled_below)
          (ap (◌∷◌ l.next) (s.single ∙ current_of_none l.stop (sym s.flag ∙ e)));
    flag = refl;
    running_below = (omega arith, AreBelow-suc l.next l.running s.running_below);
    signalled_below = AreBelow-suc l.next l.signalled s.signalled_below;
  })
]

-- The loop without its current goroutine, which is told.
abbrev ended : CleanupLoop → CleanupLoop
ended l = record l { started = false; stop = none; signalled = current l.stop ++ l.signalled }

stop_cleanup_loop_lem : (l : CleanupLoop) → stop_cleanup_loop l ≡ ended l
unfolding stop_cleanup_loop
stop_cleanup_loop_lem l = ground arith

untold_later :
    (e : ℕ) (signalled ds : List ℕ)
    → untold (e ∷ signalled) ds ≡ keep_if (λ d. not (e == d)) (untold signalled ds)
untold_later e signalled [] = refl
untold_later e signalled (d ∷ ds) = ground (arith, untold_later e signalled ds)

untold_none :
    (o : Option ℕ) (signalled ds : List ℕ)
    → untold signalled ds ≡ current o
    → untold (current o ++ signalled) ds ≡ []
untold_none none signalled ds h = h
untold_none (some e) signalled ds h =
    untold_later e signalled ds ∙ ap (keep_if (λ d. not (e == d))) h ∙ ground arith

current_below :
    (o : Option ℕ) (n : ℕ) (signalled : List ℕ)
    → AreBelow n (current o)
    → AreBelow n signalled
    → AreBelow n (current o ++ signalled)
current_below none n signalled a b = b
current_below (some d) n signalled (a, _) b = (a, b)

pub stop_cleanup_loop-IsSingle : (l : CleanupLoop) → IsSingle l → IsSingle (stop_cleanup_loop l)
stop_cleanup_loop-IsSingle l s = subst IsSingle (sym (stop_cleanup_loop_lem l)) (record {
  single = untold_none l.stop l.signalled l.running s.single;
  flag = refl;
  running_below = s.running_below;
  signalled_below =
      current_below l.stop l.next l.signalled
        (subst (AreBelow l.next) s.single
          (All-keep_if _ (λ d. not (mem d l.signalled)) l.running s.running_below))
        s.signalled_below;
})

untold-IsTold :
    (signalled ds : List ℕ) → untold signalled ds ≡ [] → All (λ d. IsTold signalled d) ds
untold-IsTold signalled [] h = tt
untold-IsTold signalled (d ∷ ds) h = elim (Bool-cases (mem d signalled)) [
  | inl e ↦ (e, untold-IsTold signalled ds (ground (arith, e, h)))
  | inr e ↦ absurd (ground (arith, e, h))
]

-- After its half of StopCleanup, all goroutines of the loop are told.
pub stop_cleanup_loop-IsTold :
    (l : CleanupLoop)
    → IsSingle l
    → All (λ d. IsTold (stop_cleanup_loop l).signalled d) (stop_cleanup_loop l).running
stop_cleanup_loop-IsTold l s = rw (stop_cleanup_loop_lem l) (
    untold-IsTold (current l.stop ++ l.signalled) l.running
      (untold_none l.stop l.signalled l.running s.single))

end_loop_lem :
    (d : ℕ) (l l' : CleanupLoop)
    → end_loop d l ≡ some l'
    → IsTold l.signalled d × (record l { running = keep_if (λ b. not (b == d)) l.running } ≡ l')
unfolding end_loop
end_loop_lem d l l' e = ground arith

untold_without :
    (d : ℕ) (signalled ds : List ℕ)
    → IsTold signalled d
    → untold signalled (keep_if (λ b. not (b == d)) ds) ≡ untold signalled ds
untold_without d signalled [] t = refl
untold_without d signalled (b ∷ ds) t = elim (Bool-cases (b == d)) [
  | inl e ↦
      let told : IsTold signalled b = subst (IsTold signalled) (sym ((==_iff b d).0 e)) t in
      rw (e, told) (untold_without d signalled ds t)
  | inr e ↦ ground (arith, e, untold_without d signalled ds t)
]

pub end_loop-IsSingle :
    (d : ℕ) (l l' : CleanupLoop) → IsSingle l → end_loop d l ≡ some l' → IsSingle l'
end_loop-IsSingle d l l' s e =
    let (told, same) = end_loop_lem d l l' e in
    subst IsSingle same (record {
      single = untold_without d l.signalled l.running told ∙ s.single;
      flag = s.flag;
      running_below = All-keep_if _ (λ b. not (b == d)) l.running s.running_below;
      signalled_below = s.signalled_below;
    })
