-- ===== src/Timers/Armed.antt =====
-- The descriptor of src/TimerPool.cc is set for the earliest timer.
use annety.Prelude.{
  ℕ, ◌≤◌, ◌<◌, ◌≡◌, refl, ap, ◌∙◌, ◌⊎◌, inl, inr, Bool, true, false, List, [], ◌∷◌, All, ◌==◌,
  Bool-cases, arith, Option, some,
}
use annety.Prelude.Int.{ℤ, pos, ◌+ℤ◌, ◌-ℤ◌}
use annety.Timers.{
  Timer, TimerPool, before, insert_timer, reset_timerfd, reset, earliest_changed, save,
  add_timer_in_own_loop, reset_first,
}
use annety.Timers.Sorted.{
  IsSorted, All-insert_timer, All-before, insert_timer-IsSorted, All-earliest,
}

-- In order, and at valid times.
pub record Shaped (ts : List Timer) : Type 0 where
  pub sorted : IsSorted ts
  pub valid : All (λ t. 0 < t.expired) ts

pub insert_timer-Shaped :
    (t : Timer) (ts : List Timer) → 0 < t.expired → Shaped ts → Shaped (insert_timer t ts)
insert_timer-Shaped t ts v h = record {
  sorted = insert_timer-IsSorted t ts h.sorted;
  valid = All-insert_timer (λ u. 0 < u.expired) t ts v h.valid;
}

-- The delta to a time, from now on, is over at that time.
delta_fires : (now e : ℕ) → pos now +ℤ (pos e -ℤ pos now) ≡ pos e
unfolding ◌+ℤ◌ ◌-ℤ◌
delta_fires now e = ground arith

-- Set for the first of the list, which none comes before.
abbrev pub FirstArmed : List Timer → Option ℤ → Type 0
FirstArmed [] armed = Unit {0}
FirstArmed (t ∷ ts) armed = (armed ≡ some (pos t.expired)) × All (λ u. t.expired ≤ u.expired) ts

pub record Ready (p : TimerPool) : Type 0 where
  pub shaped : Shaped p.timers
  pub set_ : (p.aborted ≡ true) ⊎ FirstArmed p.timers p.armed

first_expired :
    (t : Timer) (ts : List Timer) (armed : Option ℤ)
    → earliest_changed t ts ≡ false
    → FirstArmed ts armed
    → IsSorted ts
    → FirstArmed (insert_timer t ts) armed
unfolding insert_timer
first_expired t [] armed e f s = absurd (cc)
first_expired t (u ∷ us) armed e f s = elim (Bool-cases (before t u)) [
  | inl first ↦
      let equal : u.expired ≡ t.expired = ground (arith, first, e) in
      simp (first) (
        f.0 ∙ ap (λ n. some (pos n)) equal,
        All-earliest t (u ∷ us) (first, All-before t u us first s.0),
      )
  | inr later ↦ elim (Bool-cases (before u t)) [
    | inl after ↦
        let least = All-insert_timer (λ v. before u v ≡ true) t us after s.0 in
        simp (later, after) (f.0, All-earliest u (insert_timer t us) least)
    | inr same ↦ simp (later, same) f
  ]
]

-- A timer before all others is the first.
first_inserted :
    (t : Timer) (ts : List Timer) → earliest_changed t ts ≡ true → insert_timer t ts ≡ t ∷ ts
unfolding insert_timer
first_inserted t [] e = refl
first_inserted t (u ∷ us) e = let first : before t u ≡ true = ground (arith, e) in simp (first) refl

All-earlier :
    (t : Timer) (ts : List Timer)
    → earliest_changed t ts ≡ true
    → IsSorted ts
    → All (λ u. t.expired ≤ u.expired) ts
All-earlier t [] e s = tt
All-earlier t (u ∷ us) e s =
    let first : before t u ≡ true = ground (arith, e) in
    All-earliest t (u ∷ us) (first, All-before t u us first s.0)

module _ (timerfd_settime : ℤ → Bool) where
  reset_sets :
      (now e : ℕ) (p : TimerPool)
      → 0 < e
      → let r = reset timerfd_settime now e p in
        (r.timers ≡ p.timers) × ((r.aborted ≡ true) ⊎ (r.armed ≡ some (pos e)))
  unfolding reset
  reset_sets now e p v =
      let valid : (e == 0) ≡ false = ground arith in
      elim (Bool-cases (reset_timerfd timerfd_settime (pos e -ℤ pos now))) [
        | inl good ↦ simp (valid, good) (refl, inr (ap some (delta_fires now e)))
        | inr bad ↦ simp (valid, bad) (refl, inl refl)
      ]

  reset_aborted :
      (now e : ℕ) (p : TimerPool)
      → p.aborted ≡ true
      → (reset timerfd_settime now e p).aborted ≡ true
  unfolding reset
  reset_aborted now e p h = elim (Bool-cases (e == 0)) [
    | inl invalid ↦ simp (invalid) h
    | inr valid ↦ elim (Bool-cases (reset_timerfd timerfd_settime (pos e -ℤ pos now))) [
      | inl good ↦ simp (valid, good) h
      | inr bad ↦ simp (valid, bad) refl
    ]
  ]

  reset_timers : (now e : ℕ) (p : TimerPool) → (reset timerfd_settime now e p).timers ≡ p.timers
  unfolding reset
  reset_timers now e p = elim (Bool-cases (e == 0)) [
    | inl invalid ↦ simp (invalid) refl
    | inr valid ↦ elim (Bool-cases (reset_timerfd timerfd_settime (pos e -ℤ pos now))) [
      | inl good ↦ simp (valid, good) refl
      | inr bad ↦ simp (valid, bad) refl
    ]
  ]

  reset_first_timers :
      (now : ℕ) (ts : List Timer) (p : TimerPool)
      → (reset_first timerfd_settime now ts p).timers ≡ p.timers
  unfolding reset_first
  reset_first_timers now [] p = refl
  reset_first_timers now (t ∷ ts) p = reset_timers now t.expired p

  reset_first-set :
      (now : ℕ) (ts : List Timer) (p : TimerPool)
      → Shaped ts
      → let r = reset_first timerfd_settime now ts p in (r.aborted ≡ true) ⊎ FirstArmed ts r.armed
  unfolding reset_first
  reset_first-set now [] p h = inr tt
  reset_first-set now (t ∷ ts) p h = elim (reset_sets now t.expired p h.valid.0).1 [
    | inl stopped ↦ inl stopped
    | inr set_ ↦ inr (set_, All-earliest t ts h.sorted.0)
  ]

  pub reset_first-Ready :
      (now : ℕ) (p : TimerPool)
      → Shaped p.timers
      → Ready (reset_first timerfd_settime now p.timers p)
  reset_first-Ready now p h =
      let same = reset_first_timers now p.timers p in
      record { shaped = rw (same) h; set_ = rw (same) (reset_first-set now p.timers p h) }

  pub add_timer_in_own_loop-Shaped :
      (now : ℕ) (t : Timer) (p : TimerPool)
      → 0 < t.expired
      → Shaped p.timers
      → Shaped (add_timer_in_own_loop timerfd_settime now t p).timers
  unfolding add_timer_in_own_loop save
  add_timer_in_own_loop-Shaped now t p v h =
      let shaped = insert_timer-Shaped t p.timers v h in
      elim (Bool-cases (earliest_changed t p.timers)) [
        | inl changed ↦ simp (changed) (rw (reset_timers now t.expired (save t p)) shaped)
        | inr same ↦ simp (same) shaped
      ]

  add_timer_in_own_loop_aborted :
      (now : ℕ) (t : Timer) (p : TimerPool)
      → p.aborted ≡ true
      → (add_timer_in_own_loop timerfd_settime now t p).aborted ≡ true
  unfolding add_timer_in_own_loop save
  add_timer_in_own_loop_aborted now t p h = elim (Bool-cases (earliest_changed t p.timers)) [
    | inl changed ↦ simp (changed) (reset_aborted now t.expired (save t p) h)
    | inr same ↦ simp (same) h
  ]

  add_timer_in_own_loop-set :
      (now : ℕ) (t : Timer) (p : TimerPool)
      → 0 < t.expired
      → IsSorted p.timers
      → FirstArmed p.timers p.armed
      → let r = add_timer_in_own_loop timerfd_settime now t p in
        (r.aborted ≡ true) ⊎ FirstArmed r.timers r.armed
  unfolding add_timer_in_own_loop save
  add_timer_in_own_loop-set now t p v s f = elim (Bool-cases (earliest_changed t p.timers)) [
    | inl changed ↦
        let list : (reset timerfd_settime now t.expired (save t p)).timers ≡ t ∷ p.timers =
          reset_timers now t.expired (save t p) ∙ first_inserted t p.timers changed in
        simp (changed) (
          rw (list) (elim (reset_sets now t.expired (save t p) v).1 [
            | inl stopped ↦ inl stopped
            | inr set_ ↦ inr (set_, All-earlier t p.timers changed s)
          ]))
    | inr same ↦ simp (same) (inr (first_expired t p.timers p.armed same f s))
  ]

  pub add_timer_in_own_loop-Ready :
      (now : ℕ) (t : Timer) (p : TimerPool)
      → 0 < t.expired
      → Ready p
      → Ready (add_timer_in_own_loop timerfd_settime now t p)
  add_timer_in_own_loop-Ready now t p v h = record {
    shaped = add_timer_in_own_loop-Shaped now t p v h.shaped;
    set_ = elim h.set_ [
      | inl stopped ↦ inl (add_timer_in_own_loop_aborted now t p stopped)
      | inr armed ↦ add_timer_in_own_loop-set now t p v h.shaped.sorted armed
    ];
  }
