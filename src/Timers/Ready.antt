-- ===== src/Timers/Ready.antt =====
-- The timers of src/TimerPool.cc stay in order and the descriptor stays set for the first one,
-- whatever the callbacks do.
use annety.Prelude.{ℕ, ◌+◌, ◌<◌, inl, inr, Bool, not, ◌&&◌, List, [], ◌∷◌, All, Bool-cases, arith}
use annety.Prelude.Int.{ℤ}
use annety.Timers.{
  Timer, Key, key, TimerPool, make, repeat, erase_timer, due_timers, later_timers, save,
  erase_canceled, cancel_timer_in_own_loop, fill_expired_timers, restart, save_again, update_all,
  update, Call, adds, cancels, call, calls, run_all, handle_read, Step, calls_in_loop, reads, step,
  steps, has_key,
}
use annety.Timers.Sorted.{
  erase_timer-IsSorted, later_timers-IsSorted, All-erase_timer, All-later_timers,
}
use annety.Timers.Armed.{
  Shaped, Ready, insert_timer-Shaped, reset_first-Ready, add_timer_in_own_loop-Ready,
  add_timer_in_own_loop-Shaped,
}

-- Calls and callbacks add timers at valid times.
abbrev pub IsValid : Call → Type 0
IsValid (adds now t) = 0 < t.expired
IsValid (cancels now k) = Unit {0}

abbrev pub IsValidStep : Step → Type 0
IsValidStep (calls_in_loop c) = IsValid c
IsValidStep (reads cb curr now) = (t : Timer) → All IsValid (cb t)

erase_timer-Shaped : (a : ℕ) (ts : List Timer) → Shaped ts → Shaped (erase_timer a ts)
erase_timer-Shaped a ts h = record {
  sorted = erase_timer-IsSorted a ts h.sorted;
  valid = All-erase_timer (λ u. 0 < u.expired) a ts h.valid;
}

later_timers-Shaped : (time : ℕ) (ts : List Timer) → Shaped ts → Shaped (later_timers time ts)
later_timers-Shaped time ts h = record {
  sorted = later_timers-IsSorted time ts h.sorted;
  valid = All-later_timers (λ u. 0 < u.expired) time ts h.valid;
}

erase_canceled-Shaped :
    (k : Key) (p : TimerPool) → Shaped p.timers → Shaped (erase_canceled k p).timers
unfolding erase_canceled
erase_canceled-Shaped k p h = elim (Bool-cases (has_key k p.active_timers)) [
  | inl active ↦ simp (active) (erase_timer-Shaped k.0 p.timers h)
  | inr gone ↦ elim (Bool-cases p.calling_expired_timers) [
    | inl calling ↦ simp (gone, calling) h
    | inr idle ↦ simp (gone, idle) h
  ]
]

-- A timer that repeats is valid again after its interval.
save_again-Shaped :
    (time : ℕ) (t : Timer) (p : TimerPool) → Shaped p.timers → Shaped (save_again time t p).timers
unfolding save_again save
save_again-Shaped time t p h =
    elim (Bool-cases (repeat t && not (has_key (key t) p.canceling_timers))) [
      | inl again ↦
          let valid : 0 < time + t.interval = ground (arith, again) in
          simp (again) (insert_timer-Shaped (restart time t) p.timers valid h)
      | inr done ↦ simp (done) h
    ]

update_all-Shaped :
    (time : ℕ) (ts : List Timer) (p : TimerPool)
    → Shaped p.timers
    → Shaped (update_all time ts p).timers
unfolding update_all
update_all-Shaped time [] p h = h
update_all-Shaped time (t ∷ ts) p h =
    update_all-Shaped time ts (save_again time t p) (save_again-Shaped time t p h)

module _ (timerfd_settime : ℤ → Bool) where
  cancel_timer_in_own_loop-Ready :
      (now : ℕ) (k : Key) (p : TimerPool)
      → Shaped p.timers
      → Ready (cancel_timer_in_own_loop timerfd_settime now k p)
  unfolding cancel_timer_in_own_loop
  cancel_timer_in_own_loop-Ready now k p h =
      reset_first-Ready timerfd_settime now (erase_canceled k p) (erase_canceled-Shaped k p h)

  call-Shaped :
      (c : Call) (p : TimerPool)
      → IsValid c
      → Shaped p.timers
      → Shaped (call timerfd_settime c p).timers
  unfolding call
  call-Shaped (adds now t) p v h = add_timer_in_own_loop-Shaped timerfd_settime now t p v h
  call-Shaped (cancels now k) p v h = (cancel_timer_in_own_loop-Ready now k p h).shaped

  calls-Shaped :
      (cs : List Call) (p : TimerPool)
      → All IsValid cs
      → Shaped p.timers
      → Shaped (calls timerfd_settime cs p).timers
  unfolding calls
  calls-Shaped [] p v h = h
  calls-Shaped (c ∷ cs) p v h =
      calls-Shaped cs (call timerfd_settime c p) v.1 (call-Shaped c p v.0 h)

  run_all-Shaped :
      (cb : Timer → List Call) (ts : List Timer) (p : TimerPool)
      → ((t : Timer) → All IsValid (cb t))
      → Shaped p.timers
      → Shaped (run_all timerfd_settime cb ts p).timers
  unfolding run_all
  run_all-Shaped cb [] p v h = h
  run_all-Shaped cb (t ∷ ts) p v h =
      run_all-Shaped cb ts (calls timerfd_settime (cb t) p) v (calls-Shaped (cb t) p (v t) h)

  handle_read-Ready :
      (cb : Timer → List Call) (curr now : ℕ) (p : TimerPool)
      → ((t : Timer) → All IsValid (cb t))
      → Shaped p.timers
      → Ready (handle_read timerfd_settime cb curr now p)
  unfolding handle_read update fill_expired_timers
  handle_read-Ready cb curr now p v h =
      let expired = due_timers curr p.timers in
      reset_first-Ready timerfd_settime now _ (
        update_all-Shaped curr expired _
          (run_all-Shaped cb expired _ v (later_timers-Shaped curr p.timers h)))

  step-Ready :
      (p : TimerPool) (s : Step) → IsValidStep s → Ready p → Ready (step timerfd_settime p s)
  unfolding step call
  step-Ready p (calls_in_loop (adds now t)) v h =
      add_timer_in_own_loop-Ready timerfd_settime now t p v h
  step-Ready p (calls_in_loop (cancels now k)) v h = cancel_timer_in_own_loop-Ready now k p h.shaped
  step-Ready p (reads cb curr now) v h = handle_read-Ready cb curr now p v h.shaped

  steps-Ready_from :
      (ss : List Step) (p : TimerPool)
      → All IsValidStep ss
      → Ready p
      → Ready (steps timerfd_settime p ss)
  unfolding steps
  steps-Ready_from [] p v h = h
  steps-Ready_from (s ∷ ss) p v h =
      steps-Ready_from ss (step timerfd_settime p s) v.1 (step-Ready p s v.0 h)

  make-Ready : Ready make
  unfolding make
  make-Ready = record { shaped = record { sorted = tt; valid = tt }; set_ = inr tt }

  -- After any calls and expiries, with callbacks that add and cancel timers as they like, all of
  -- them at times after the epoch, either the program has been stopped by a failed
  -- `timerfd_settime`, or the delta that the descriptor was set to last is over exactly at the time
  -- of the first timer, if there is one, and no other timer is earlier.
  pub steps-Ready : (ss : List Step) → All IsValidStep ss → Ready (steps timerfd_settime make ss)
  steps-Ready ss v = steps-Ready_from ss make v make-Ready
