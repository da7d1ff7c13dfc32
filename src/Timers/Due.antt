-- ===== src/Timers/Due.antt =====
-- Which timers src/TimerPool.cc takes out as expired, and a timer that is late when it is added.
use annety.Prelude.{
  ◌-◌, ℕ, ◌+◌, ◌≤◌, ◌<◌, ◌≡◌, refl, sym, ap, inl, inr, Bool, true, false, not, List, [], ◌∷◌, All,
  leb, ◌==◌, if◌then◌else◌, Bool-cases, arith,
}
use annety.Prelude.Int.{ℤ, pos, negsuc, ◌-ℤ◌}
use annety.Timers.{
  Timer, TimerPool, uintptr_max, is_due, due_timers, later_timers, reset_timerfd, reset,
  earliest_changed, save, add_timer_in_own_loop, fill_expired_timers,
}
use annety.Timers.Sorted.{IsSorted, All-earliest}

-- The timers that a test keeps.
abbrev pub filter : (Timer → Bool) → List Timer → List Timer
filter f [] = []
filter f (t ∷ ts) = let rest = filter f ts in if f t then t ∷ rest else rest

abbrev pub expires : ℕ → Timer → Bool
expires time t = leb t.expired time

-- An address is less than the sentry's.
abbrev pub IsAddress : Timer → Type 0
IsAddress t = t.address < uintptr_max

filter_gone :
    (time : ℕ) (ts : List Timer) → All (λ t. time < t.expired) ts → filter (expires time) ts ≡ []
filter_gone time [] h = refl
filter_gone time (t ∷ ts) h =
    let later : expires time t ≡ false = ground (arith, h.0) in
    simp (later) (filter_gone time ts h.1)

filter_kept :
    (time : ℕ) (ts : List Timer)
    → All (λ t. time < t.expired) ts
    → filter (λ t. not (expires time t)) ts ≡ ts
filter_kept time [] h = refl
filter_kept time (t ∷ ts) h =
    let later : expires time t ≡ false = ground (arith, h.0) in
    simp (later) (ap (λ rest. t ∷ rest) (filter_kept time ts h.1))

All-later :
    (time e : ℕ) (ts : List Timer)
    → time < e
    → All (λ t. e ≤ t.expired) ts
    → All (λ t. time < t.expired) ts
All-later time e [] l h = tt
All-later time e (t ∷ ts) l h = (omega (arith, l, h.0), All-later time e ts l h.1)

split :
    (time : ℕ) (ts : List Timer)
    → IsSorted ts
    → All IsAddress ts
    → (due_timers time ts ≡ filter (expires time) ts)
      × (later_timers time ts ≡ filter (λ t. not (expires time t)) ts)
unfolding due_timers later_timers
split time [] s a = (refl, refl)
split time (t ∷ ts) s a = elim (Bool-cases (expires time t)) [
  | inl expired ↦
      let due : is_due time t ≡ true = ground (arith, expired, a.0) in
      let rest = split time ts s.1 a.1 in simp (due, expired) (ap (λ l. t ∷ l) rest.0, rest.1)
  | inr later ↦
      let kept : is_due time t ≡ false = ground (arith, later) in
      let all = All-later time t.expired ts (ground (arith, later)) (All-earliest t ts s.0) in
      simp (kept, later)
        (sym (filter_gone time ts all), ap (λ l. t ∷ l) (sym (filter_kept time ts all)))
]

-- Of timers in order, at addresses below the sentry's, exactly those whose time has come are
-- taken out, in order, and exactly the others stay.
pub fill_expired_timers-splits :
    (time : ℕ) (p : TimerPool)
    → IsSorted p.timers
    → All IsAddress p.timers
    → let (expired, rest) = fill_expired_timers time p in
      (expired ≡ filter (expires time) p.timers)
      × (rest.timers ≡ filter (λ t. not (expires time t)) p.timers)
unfolding fill_expired_timers
fill_expired_timers-splits time p s a = split time p.timers s a

module _ (timerfd_settime : ℤ → Bool) where
  refused :
      (now e : ℕ)
      → ((n : ℕ) → timerfd_settime (negsuc n) ≡ false)
      → e ≤ now
      → reset_timerfd timerfd_settime (pos e -ℤ pos now) ≡ false
  unfolding reset_timerfd ◌-ℤ◌
  refused now e r l = elim (Bool-cases (leb (0 + now) (e + 0))) [
    | inl equal ↦
        let none_left : e + 0 - (0 + now) ≡ 0 = ground (arith, equal, l) in
        simp (equal, none_left) refl
    | inr less ↦ simp (less) (r _)
  ]

  late :
      (now e : ℕ) (p : TimerPool)
      → ((n : ℕ) → timerfd_settime (negsuc n) ≡ false)
      → 0 < e
      → e ≤ now
      → (reset timerfd_settime now e p).aborted ≡ true
  unfolding reset
  late now e p r v l =
      let valid : (e == 0) ≡ false = ground (arith, v) in simp (valid, refused now e r l) refl

  -- Where the kernel refuses to set a negative time, adding a timer whose time is valid but has
  -- come already, and which is the earliest, stops the program.
  pub add_timer_in_own_loop-late :
      (now : ℕ) (t : Timer) (p : TimerPool)
      → ((n : ℕ) → timerfd_settime (negsuc n) ≡ false)
      → earliest_changed t p.timers ≡ true
      → 0 < t.expired
      → t.expired ≤ now
      → (add_timer_in_own_loop timerfd_settime now t p).aborted ≡ true
  unfolding add_timer_in_own_loop
  add_timer_in_own_loop-late now t p r e v l = simp (e) (late now t.expired (save t p) r v l)
