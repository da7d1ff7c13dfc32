-- ===== src/Timers/Cancelled.antt =====
-- A timer that is cancelled in src/TimerPool.cc while callbacks run does not come back.
use annety.Prelude.{
  ℕ, ◌≡◌, refl, ◌⊎◌, inl, inr, Bool, true, false, subst, List, [], ◌∷◌, All, ◌==◌, Bool-cases,
  arith,
}
use annety.Prelude.Int.{ℤ, pos, ◌-ℤ◌}
use annety.Timers.{
  Timer, Key, key, same_key, TimerPool, erase_keys, reset, reset_timerfd, earliest_changed, save,
  add_timer_in_own_loop, reset_first, erase_canceled, cancel_timer_in_own_loop, fill_expired_timers,
  due_timers, update_all, update, Call, adds, cancels, call, calls, run_all, handle_read, has_key,
}
use annety.Timers.Among.{AreDistinct}
use annety.Timers.Paired.{active-Paired, Paired-absent, taken-Paired, run_all-Paired, update-Paired}
use annety.Timers.Cancelling.{
  cancels_in, cancelled_by, Spares, Open, Gone, erase_canceled-Open, erase_canceled-Gone,
  erase_canceled_own, save-absent,
}
use annety.Timers.Keys.{among, same_key_eq, among-erase_keys, update_all-absent}

module _ (timerfd_settime : ℤ → Bool) where
  reset-keeps :
      (P : List Key → List Key → Bool → Type 0) (now e : ℕ) (p : TimerPool)
      → P p.active_timers p.canceling_timers p.calling_expired_timers
      → let r = reset timerfd_settime now e p in
        P r.active_timers r.canceling_timers r.calling_expired_timers
  unfolding reset
  reset-keeps P now e p h = elim (Bool-cases (e == 0)) [
    | inl invalid ↦ simp (invalid) h
    | inr valid ↦ elim (Bool-cases (reset_timerfd timerfd_settime (pos e -ℤ pos now))) [
      | inl good ↦ simp (valid, good) h
      | inr bad ↦ simp (valid, bad) h
    ]
  ]

  reset_first-keeps :
      (P : List Key → List Key → Bool → Type 0) (now : ℕ) (ts : List Timer) (p : TimerPool)
      → P p.active_timers p.canceling_timers p.calling_expired_timers
      → let r = reset_first timerfd_settime now ts p in
        P r.active_timers r.canceling_timers r.calling_expired_timers
  unfolding reset_first
  reset_first-keeps P now [] p h = h
  reset_first-keeps P now (t ∷ ts) p h = reset-keeps P now t.expired p h

  add-keeps :
      (P : List Key → List Key → Bool → Type 0) (now : ℕ) (t : Timer) (p : TimerPool)
      → P (save t p).active_timers p.canceling_timers p.calling_expired_timers
      → let r = add_timer_in_own_loop timerfd_settime now t p in
        P r.active_timers r.canceling_timers r.calling_expired_timers
  unfolding add_timer_in_own_loop save
  add-keeps P now t p h = elim (Bool-cases (earliest_changed t p.timers)) [
    | inl changed ↦ simp (changed) (reset-keeps P now t.expired (save t p) h)
    | inr same ↦ simp (same) h
  ]

  call-Open :
      (k : Key) (ts : List Timer) (c : Call) (p : TimerPool)
      → Spares k c
      → Open k ts p.active_timers p.canceling_timers p.calling_expired_timers
      → let r = call timerfd_settime c p in
        Open k ts r.active_timers r.canceling_timers r.calling_expired_timers
  unfolding call cancel_timer_in_own_loop
  call-Open k ts (adds now t) p n o =
      add-keeps (Open k ts) now t p
        (o.0, elim o.1 [ inl absent ↦ inl (save-absent k t p n absent) | inr apart ↦ inr apart ])
  call-Open k ts (cancels now l) p n o =
      reset_first-keeps (Open k ts) now (erase_canceled l p).timers (erase_canceled l p)
        (erase_canceled-Open k l ts p o)

  call-Gone :
      (k : Key) (ts : List Timer) (c : Call) (p : TimerPool)
      → Spares k c
      → Gone k ts p.active_timers p.canceling_timers p.calling_expired_timers
      → let r = call timerfd_settime c p in
        Gone k ts r.active_timers r.canceling_timers r.calling_expired_timers
  unfolding call cancel_timer_in_own_loop
  call-Gone k ts (adds now t) p n o =
      add-keeps (Gone k ts) now t p (o.0, (save-absent k t p n o.1.0, o.1.1))
  call-Gone k ts (cancels now l) p n o =
      reset_first-keeps (Gone k ts) now (erase_canceled l p).timers (erase_canceled l p)
        (erase_canceled-Gone k l ts p o)

  calls-Open :
      (k : Key) (ts : List Timer) (cs : List Call) (p : TimerPool)
      → All (Spares k) cs
      → Open k ts p.active_timers p.canceling_timers p.calling_expired_timers
      → let r = calls timerfd_settime cs p in
        Open k ts r.active_timers r.canceling_timers r.calling_expired_timers
  unfolding calls
  calls-Open k ts [] p n o = o
  calls-Open k ts (c ∷ cs) p n o =
      calls-Open k ts cs (call timerfd_settime c p) n.1 (call-Open k ts c p n.0 o)

  calls-Gone :
      (k : Key) (ts : List Timer) (cs : List Call) (p : TimerPool)
      → All (Spares k) cs
      → Gone k ts p.active_timers p.canceling_timers p.calling_expired_timers
      → let r = calls timerfd_settime cs p in
        Gone k ts r.active_timers r.canceling_timers r.calling_expired_timers
  unfolding calls
  calls-Gone k ts [] p n o = o
  calls-Gone k ts (c ∷ cs) p n o =
      calls-Gone k ts cs (call timerfd_settime c p) n.1 (call-Gone k ts c p n.0 o)

  calls-cancel :
      (k : Key) (ts : List Timer) (cs : List Call) (p : TimerPool)
      → All (Spares k) cs
      → cancels_in k cs ≡ true
      → Open k ts p.active_timers p.canceling_timers p.calling_expired_timers
      → let r = calls timerfd_settime cs p in
        Gone k ts r.active_timers r.canceling_timers r.calling_expired_timers
  unfolding calls call cancel_timer_in_own_loop
  calls-cancel k ts [] p n h o = absurd (cc)
  calls-cancel k ts (adds now t ∷ cs) p n h o =
      calls-cancel k ts cs (call timerfd_settime (adds now t) p) n.1 h
        (call-Open k ts (adds now t) p n.0 o)
  calls-cancel k ts (cancels now l ∷ cs) p n h o = elim (Bool-cases (same_key k l)) [
    | inl same ↦
        let canceled = erase_canceled_own k ts p o in
        let mine =
          subst
            (λ m.
              Gone k ts (erase_canceled m p).active_timers (erase_canceled m p).canceling_timers
                (erase_canceled m p).calling_expired_timers)
            (same_key_eq k l same) canceled in
        calls-Gone k ts cs _ n.1
          (reset_first-keeps (Gone k ts) now (erase_canceled l p).timers (erase_canceled l p) mine)
    | inr other ↦
        calls-cancel k ts cs (call timerfd_settime (cancels now l) p) n.1 (ground (arith, h, other))
          (call-Open k ts (cancels now l) p n.0 o)
  ]

  run_all-Gone :
      (k : Key) (ts : List Timer) (cb : Timer → List Call) (us : List Timer) (p : TimerPool)
      → ((t : Timer) → All (Spares k) (cb t))
      → Gone k ts p.active_timers p.canceling_timers p.calling_expired_timers
      → let r = run_all timerfd_settime cb us p in
        Gone k ts r.active_timers r.canceling_timers r.calling_expired_timers
  unfolding run_all
  run_all-Gone k ts cb [] p n o = o
  run_all-Gone k ts cb (u ∷ us) p n o =
      run_all-Gone k ts cb us (calls timerfd_settime (cb u) p) n (calls-Gone k ts (cb u) p (n u) o)

  run_all-cancel :
      (k : Key) (ts : List Timer) (cb : Timer → List Call) (us : List Timer) (p : TimerPool)
      → ((t : Timer) → All (Spares k) (cb t))
      → cancelled_by k cb us ≡ true
      → Open k ts p.active_timers p.canceling_timers p.calling_expired_timers
      → let r = run_all timerfd_settime cb us p in
        Gone k ts r.active_timers r.canceling_timers r.calling_expired_timers
  unfolding run_all
  run_all-cancel k ts cb [] p n h o = absurd (cc)
  run_all-cancel k ts cb (u ∷ us) p n h o = elim (Bool-cases (cancels_in k (cb u))) [
    | inl here ↦
        run_all-Gone k ts cb us (calls timerfd_settime (cb u) p) n
          (calls-cancel k ts (cb u) p (n u) here o)
    | inr later ↦
        run_all-cancel k ts cb us (calls timerfd_settime (cb u) p) n (ground (arith, h, later))
          (calls-Open k ts (cb u) p (n u) o)
  ]

  update-absent :
      (k : Key) (now time : ℕ) (ts : List Timer) (p : TimerPool)
      → has_key k p.active_timers ≡ false
      → (has_key k p.canceling_timers ≡ true) ⊎ (among k ts ≡ false)
      → has_key k (update timerfd_settime now time ts p).active_timers ≡ false
  unfolding update
  update-absent k now time ts p h c =
      let done = update_all time ts p in
      reset_first-keeps (λ active canceling calling. has_key k active ≡ false) now done.timers done
        (update_all-absent time ts k p h c)

  -- When one of the callbacks that an expiry runs cancels a timer, be it its own, one that
  -- expires in the same round or a later one, and no callback adds a timer under the same key,
  -- the timer is after the round neither active nor in `timers_`, from which timers expire, even
  -- one that repeats; in a pool whose entries have one key each and are all active.
  pub handle_read-Cancelled :
      (k : Key) (cb : Timer → List Call) (curr now : ℕ) (p : TimerPool)
      → AreDistinct p.timers
      → All (λ t. has_key (key t) p.active_timers ≡ true) p.timers
      → ((t : Timer) → All (Spares k) (cb t))
      → cancelled_by k cb (due_timers curr p.timers) ≡ true
      → let r = handle_read timerfd_settime cb curr now p in
        (has_key k r.active_timers ≡ false) × (among k r.timers ≡ false)
  unfolding handle_read fill_expired_timers
  handle_read-Cancelled k cb curr now p d a n h =
      let ts = due_timers curr p.timers in
      let open_ : (has_key k (erase_keys ts p.active_timers) ≡ false) ⊎ (among k ts ≡ false) =
        elim (Bool-cases (among k ts)) [
          | inl expired ↦ inl (among-erase_keys k ts p.active_timers expired)
          | inr other ↦ inr other
        ] in
      let gone = run_all-cancel k ts cb ts _ n h (refl, open_) in
      let absent = update-absent k now curr ts _ gone.1.0 gone.1.1 in
      let taken =
        taken-Paired k curr p.timers p.active_timers d
          (active-Paired k p.timers p.active_timers a) in
      let ran = run_all-Paired timerfd_settime k cb ts _ taken in
      (absent, Paired-absent k _ _ (update-Paired timerfd_settime k now curr ts _ ran) absent)
