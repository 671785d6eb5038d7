-- ===== src/Middleware/RateLimit/Oldest.antt =====
-- evictOldest: what the scan over the map finds, and what its removal leaves.
use xray_web_maneger.Common.{
  sym, subst, suc, ◌<◌, ◌+◌, ◌≤◌, ◌≡◌, refl, ◌⊎◌, inl, inr, Text, Text-discrete, is_empty, false,
  List, [], ◌∷◌, ltb, length, arith, All, Some, here, there, Some-map, Bool-cases, ℕ,
}
use xray_web_maneger.Common.Assoc.{delete, length-delete-lt, lookup-Some}
use xray_web_maneger.Middleware.RateLimit.{SlidingWindow, RateLimiter, scan_oldest, evict_oldest}

abbrev Entry : Type 0
Entry = Text × SlidingWindow

-- No window of the map starts before the given time.
abbrev pub NoneOlder : ℕ → List Entry → Type 0
NoneOlder t m = All (λ e. t ≤ e.1.window_start) m

-- No address of the map is the empty string.
abbrev pub HasAddresses : List Entry → Type 0
HasAddresses m = All (λ e. is_empty e.0 ≡ false) m

-- An entry with the key, as old as any in the map and as the given time.
abbrev Found : Text → ℕ → List Entry → Entry → Type 0
Found ip t m e = (e.0 ≡ ip) × (e.1.window_start ≤ t) × NoneOlder e.1.window_start m

NoneOlder-mono : (s t : ℕ) (m : List Entry) → s ≤ t → NoneOlder t m → NoneOlder s m
NoneOlder-mono s t [] h n = tt
NoneOlder-mono s t (e ∷ m) h (p, n) = (omega arith, NoneOlder-mono s t m h n)

Found-cons :
    (ip : Text) (s t : ℕ) (e f : Entry) (m : List Entry)
    → s ≤ t
    → s ≤ e.1.window_start
    → Found ip s m f
    → Found ip t (e ∷ m) f
Found-cons ip s t e f m h k (same, old, n) = (same, omega arith, (omega arith, n))

-- The scan of the tail, seen from the whole map: it began at `e` itself.
took_first :
    (r : Text) (t : ℕ) (e : Entry) (m : List Entry)
    → e.1.window_start < t
    → ((r ≡ e.0) × NoneOlder e.1.window_start m) ⊎ Some (Found r e.1.window_start m) m
    → Some (Found r t (e ∷ m)) (e ∷ m)
took_first r t e m h (inl (same, n)) = here (sym same, omega arith, (omega arith, n))
took_first r t e m h (inr s) = there (
    Some-map (Found r e.1.window_start m) (Found r t (e ∷ m))
      (λ f found. Found-cons r e.1.window_start t e f m (omega arith) (omega arith) found) m s)

-- The same, where the scan passed `e` by.
passed_first :
    (r ip : Text) (t : ℕ) (e : Entry) (m : List Entry)
    → t ≤ e.1.window_start
    → ((r ≡ ip) × NoneOlder t m) ⊎ Some (Found r t m) m
    → ((r ≡ ip) × NoneOlder t (e ∷ m)) ⊎ Some (Found r t (e ∷ m)) (e ∷ m)
passed_first r ip t e m h (inl (same, n)) = inl (same, (h, n))
passed_first r ip t e m h (inr s) = inr (
    there (
      Some-map (Found r t m) (Found r t (e ∷ m))
        (λ f found. Found-cons r t t e f m (omega arith) h found) m s))

scan_oldest_cons :
    (ip : Text) (t : ℕ) (e : Entry) (m : List Entry)
    → is_empty ip ≡ false
    → ((e.1.window_start < t) × (scan_oldest ip t (e ∷ m) ≡ scan_oldest e.0 e.1.window_start m))
      ⊎ ((t ≤ e.1.window_start) × (scan_oldest ip t (e ∷ m) ≡ scan_oldest ip t m))
unfolding scan_oldest
scan_oldest_cons ip t e m p = elim (Bool-cases (ltb e.1.window_start t)) [
  | inl older ↦ inl (ground arith, rw (p, older))
  | inr newer ↦ inr (ground arith, rw (p, newer))
]

scan_oldest-Found :
    (ip : Text) (t : ℕ) (m : List Entry)
    → is_empty ip ≡ false
    → HasAddresses m
    → ((scan_oldest ip t m ≡ ip) × NoneOlder t m) ⊎ Some (Found (scan_oldest ip t m) t m) m
scan_oldest-Found ip t [] p h = inl (unfold scan_oldest in refl, tt)
scan_oldest-Found ip t (e ∷ m) p (q, h) = elim (scan_oldest_cons ip t e m p) [
  | inl (older, step) ↦
      rw step (inr (took_first _ t e m older (scan_oldest-Found e.0 e.1.window_start m q h)))
  | inr (newer, step) ↦ rw step (passed_first _ ip t e m newer (scan_oldest-Found ip t m p h))
]

-- An entry that has the key and is as old as any in the map.
abbrev pub IsOldest : Text → List Entry → Entry → Type 0
IsOldest ip m e = (e.0 ≡ ip) × NoneOlder e.1.window_start m

scan_oldest_start :
    (t : ℕ) (e : Entry) (m : List Entry)
    → scan_oldest [] t (e ∷ m) ≡ scan_oldest e.0 e.1.window_start m
unfolding scan_oldest
scan_oldest_start t e m = refl

scan_oldest-IsOldest :
    (e : Entry) (m : List Entry)
    → HasAddresses (e ∷ m)
    → Some (IsOldest (scan_oldest [] 0 (e ∷ m)) (e ∷ m)) (e ∷ m)
scan_oldest-IsOldest e m (q, h) = rw (scan_oldest_start 0 e m) (
    Some-map (Found r (suc e.1.window_start) (e ∷ m)) (IsOldest r (e ∷ m))
      (λ f found. (found.0, found.2)) (e ∷ m)
      (took_first r (suc e.1.window_start) e m (omega arith)
        (scan_oldest-Found e.0 e.1.window_start m q h)))
  where
    r : Text
    r = scan_oldest e.0 e.1.window_start m

is_empty-scan_oldest :
    (ip : Text) (t : ℕ) (m : List Entry)
    → is_empty ip ≡ false
    → HasAddresses m
    → is_empty (scan_oldest ip t m) ≡ false
unfolding scan_oldest
is_empty-scan_oldest ip t [] p h = p
is_empty-scan_oldest ip t (e ∷ m) p (q, h) =
    ground (arith, is_empty-scan_oldest e.0 e.1.window_start m q h, is_empty-scan_oldest ip t m p h)

evict_oldest_of_found :
    (rl : RateLimiter)
    → is_empty (scan_oldest [] 0 rl.requests) ≡ false
    → (evict_oldest rl).requests ≡ delete Text-discrete (scan_oldest [] 0 rl.requests) rl.requests
unfolding evict_oldest
evict_oldest_of_found rl h = ground arith

-- evictOldest on a map that is not empty removes one address, the one that has gone longest
-- without a new window, and leaves the map smaller.
pub evict_oldest_lem :
    (rl : RateLimiter) (e : Entry) (m : List Entry)
    → rl.requests ≡ e ∷ m
    → HasAddresses rl.requests
    → (victim : Text) × Some (IsOldest victim rl.requests) rl.requests
      × ((evict_oldest rl).requests ≡ delete Text-discrete victim rl.requests)
      × (length (evict_oldest rl).requests + 1 ≤ length rl.requests)
evict_oldest_lem rl e m same h = (
  scan_oldest [] 0 rl.requests,
  oldest,
  removed,
  rw removed (
      let (v, found) = lookup-Some Text-discrete victim rl.requests (
        Some-map (IsOldest victim rl.requests) (λ f. f.0 ≡ victim) (λ f o. o.0) rl.requests
          oldest) in
      length-delete-lt Text-discrete victim v rl.requests found),
)
  where
    victim : Text
    victim = scan_oldest [] 0 rl.requests

    k : HasAddresses (e ∷ m)
    k = subst HasAddresses same h

    oldest : Some (IsOldest victim rl.requests) rl.requests
    oldest =
        subst (λ l. Some (IsOldest (scan_oldest [] 0 l) l) l) (sym same)
          (scan_oldest-IsOldest e m k)

    removed : (evict_oldest rl).requests ≡ delete Text-discrete victim rl.requests
    removed = evict_oldest_of_found rl (
        subst (λ l. is_empty (scan_oldest [] 0 l) ≡ false) (sym same)
          (rw (scan_oldest_start 0 e m) (is_empty-scan_oldest e.0 e.1.window_start m k.0 k.1)))
