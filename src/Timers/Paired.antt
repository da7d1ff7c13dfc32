-- ===== src/Timers/Paired.antt =====
-- Of the two sets of src/TimerPool.cc: what stands in `timers_` is active.
use annety.Prelude.{
  ℕ, ◌≡◌, refl, sym, ap, ◌∙◌, ◌⊎◌, inl, inr, Bool, true, false, not, ◌&&◌, List, [], ◌∷◌, All, ◌==◌,
  Bool-cases, arith,
}
use annety.Prelude.Int.{ℤ, pos, ◌-ℤ◌}
use annety.Timers.{
  Timer, Key, key, same_key, TimerPool, repeat, erase_timer, erase_keys, due_timers, later_timers,
  reset, reset_timerfd, earliest_changed, save, save_again, restart, add_timer_in_own_loop,
  reset_first, erase_canceled, cancel_timer_in_own_loop, update_all, update, Call, adds, cancels,
  call, calls, run_all, has_key,
}
use annety.Timers.Among.{
  AreDistinct, among-insert_timer, among-erase_timer, erased_own, among-later_timers, due_or_later,
  kept_keys,
}
use annety.Timers.Keys.{among, same_key_eq, has_key-insert_key, has_key-erase_key}

-- For a key: its timer is active, or it is not in `timers_`.
abbrev pub Paired : Key → List Timer → List Key → Type 0
Paired k timers active = (has_key k active ≡ true) ⊎ (among k timers ≡ false)

-- In a pool whose entries are all active.
pub active-Paired :
    (k : Key) (ts : List Timer) (ks : List Key)
    → All (λ t. has_key (key t) ks ≡ true) ts
    → Paired k ts ks
active-Paired k [] ks h = inr refl
active-Paired k (t ∷ ts) ks h = elim (Bool-cases (same_key k (key t))) [
  | inl same ↦ inl (ap (λ l. has_key l ks) (same_key_eq k (key t) same) ∙ h.0)
  | inr other ↦ elim (active-Paired k ts ks h.1) [
    | inl active ↦ inl active
    | inr absent ↦ inr (ground (arith, other, absent))
  ]
]

pub Paired-absent :
    (k : Key) (ts : List Timer) (ks : List Key)
    → Paired k ts ks
    → has_key k ks ≡ false
    → among k ts ≡ false
Paired-absent k ts ks (inl active) h = absurd (cc)
Paired-absent k ts ks (inr absent) h = absent

-- Taking out the timers that are due keeps the sets together.
pub taken-Paired :
    (k : Key) (time : ℕ) (ts : List Timer) (ks : List Key)
    → AreDistinct ts
    → Paired k ts ks
    → Paired k (later_timers time ts) (erase_keys (due_timers time ts) ks)
taken-Paired k time ts ks d (inl active) = elim (due_or_later k time ts d) [
  | inl stays ↦ inl (kept_keys k (due_timers time ts) ks stays active)
  | inr gone ↦ inr gone
]
taken-Paired k time ts ks d (inr absent) = inr (among-later_timers k time ts absent)

save-Paired :
    (k : Key) (t : Timer) (p : TimerPool)
    → Paired k p.timers p.active_timers
    → Paired k (save t p).timers (save t p).active_timers
unfolding save
save-Paired k t p (inl active) =
    inl (rw (has_key-insert_key k (key t) p.active_timers, active) (ground arith))
save-Paired k t p (inr absent) = elim (Bool-cases (same_key k (key t))) [
  | inl same ↦ inl (rw (has_key-insert_key k (key t) p.active_timers, same) refl)
  | inr other ↦ inr (among-insert_timer k t p.timers absent other)
]

erase_canceled-Paired :
    (k l : Key) (p : TimerPool)
    → Paired k p.timers p.active_timers
    → Paired k (erase_canceled l p).timers (erase_canceled l p).active_timers
unfolding erase_canceled
erase_canceled-Paired k l p h = elim (Bool-cases (has_key l p.active_timers)) [
  | inl found ↦ simp (found) (elim h [
    | inl active ↦ elim (Bool-cases (same_key k l)) [
      | inl same ↦ inr (
          ap (λ m. among k (erase_timer m.0 p.timers)) (sym (same_key_eq k l same))
          ∙ erased_own k p.timers)
      | inr other ↦ inl (rw (has_key-erase_key k l p.active_timers, other) active)
    ]
    | inr absent ↦ inr (among-erase_timer k l.0 p.timers absent)
  ])
  | inr gone ↦ elim (Bool-cases p.calling_expired_timers) [
    | inl calling ↦ simp (gone, calling) h
    | inr idle ↦ simp (gone, idle) h
  ]
]

update_all-Paired :
    (k : Key) (time : ℕ) (ts : List Timer) (p : TimerPool)
    → Paired k p.timers p.active_timers
    → Paired k (update_all time ts p).timers (update_all time ts p).active_timers
unfolding update_all save_again
update_all-Paired k time [] p h = h
update_all-Paired k time (t ∷ ts) p h =
    elim (Bool-cases (repeat t && not (has_key (key t) p.canceling_timers))) [
      | inl again ↦ simp (again) (
          update_all-Paired k time ts (save (restart time t) p)
            (save-Paired k (restart time t) p h))
      | inr done ↦ simp (done) (update_all-Paired k time ts p h)
    ]

module _ (timerfd_settime : ℤ → Bool) (k : Key) where
  abbrev pub IsPaired : TimerPool → Type 0
  IsPaired p = Paired k p.timers p.active_timers

  reset-Paired : (now e : ℕ) (p : TimerPool) → IsPaired p → IsPaired (reset timerfd_settime now e p)
  unfolding reset
  reset-Paired now e p h = elim (Bool-cases (e == 0)) [
    | inl invalid ↦ simp (invalid) h
    | inr valid ↦ elim (Bool-cases (reset_timerfd timerfd_settime (pos e -ℤ pos now))) [
      | inl good ↦ simp (valid, good) h
      | inr bad ↦ simp (valid, bad) h
    ]
  ]

  reset_first-Paired :
      (now : ℕ) (ts : List Timer) (p : TimerPool)
      → IsPaired p
      → IsPaired (reset_first timerfd_settime now ts p)
  unfolding reset_first
  reset_first-Paired now [] p h = h
  reset_first-Paired now (t ∷ ts) p h = reset-Paired now t.expired p h

  call-Paired : (c : Call) (p : TimerPool) → IsPaired p → IsPaired (call timerfd_settime c p)
  unfolding call add_timer_in_own_loop cancel_timer_in_own_loop
  call-Paired (adds now t) p h = elim (Bool-cases (earliest_changed t p.timers)) [
    | inl changed ↦ simp (changed) (reset-Paired now t.expired (save t p) (save-Paired k t p h))
    | inr same ↦ simp (same) (save-Paired k t p h)
  ]
  call-Paired (cancels now l) p h =
      reset_first-Paired now (erase_canceled l p).timers (erase_canceled l p)
        (erase_canceled-Paired k l p h)

  calls-Paired :
      (cs : List Call) (p : TimerPool) → IsPaired p → IsPaired (calls timerfd_settime cs p)
  unfolding calls
  calls-Paired [] p h = h
  calls-Paired (c ∷ cs) p h = calls-Paired cs (call timerfd_settime c p) (call-Paired c p h)

  pub run_all-Paired :
      (cb : Timer → List Call) (ts : List Timer) (p : TimerPool)
      → IsPaired p
      → IsPaired (run_all timerfd_settime cb ts p)
  unfolding run_all
  run_all-Paired cb [] p h = h
  run_all-Paired cb (t ∷ ts) p h =
      run_all-Paired cb ts (calls timerfd_settime (cb t) p) (calls-Paired (cb t) p h)

  pub update-Paired :
      (now time : ℕ) (ts : List Timer) (p : TimerPool)
      → IsPaired p
      → IsPaired (update timerfd_settime now time ts p)
  unfolding update
  update-Paired now time ts p h =
      reset_first-Paired now (update_all time ts p).timers (update_all time ts p)
        (update_all-Paired k time ts p h)
