-- ===== src/Timers/Cancelling.antt =====
-- What src/TimerPool.cc keeps of a timer while callbacks run that may cancel it.
use annety.Prelude.{
  ◌≡◌, refl, ◌⊎◌, inl, inr, Bool, true, false, ◌||◌, List, [], ◌∷◌, Bool-cases, arith,
}
use annety.Timers.{
  Timer, Key, key, same_key, TimerPool, insert_key, erase_key, save, erase_canceled, Call, adds,
  cancels, has_key,
}
use annety.Timers.Keys.{among, same_key_refl, has_key-insert_key, has_key-erase_key}

-- Whether calls cancel a key.
abbrev pub cancels_in : Key → List Call → Bool
cancels_in k [] = false
cancels_in k (adds now t ∷ cs) = cancels_in k cs
cancels_in k (cancels now l ∷ cs) = same_key k l || cancels_in k cs

abbrev pub cancelled_by : Key → (Timer → List Call) → List Timer → Bool
cancelled_by k cb [] = false
cancelled_by k cb (t ∷ ts) = cancels_in k (cb t) || cancelled_by k cb ts

-- The call adds no timer with the key.
abbrev pub Spares : Key → Call → Type 0
Spares k (adds now t) = same_key k (key t) ≡ false
Spares k (cancels now l) = Unit {0}

-- While the callbacks of `ts` run, with the active and the cancelled keys: the key is not active
-- unless it is of another timer; and then, it has been cancelled.
abbrev pub Open : Key → List Timer → List Key → List Key → Bool → Type 0
Open k ts active canceling calling =
    (calling ≡ true) × ((has_key k active ≡ false) ⊎ (among k ts ≡ false))

abbrev pub Gone : Key → List Timer → List Key → List Key → Bool → Type 0
Gone k ts active canceling calling =
    (calling ≡ true)
    × ((has_key k active ≡ false) × ((has_key k canceling ≡ true) ⊎ (among k ts ≡ false)))

pub erase_canceled-Open :
    (k l : Key) (ts : List Timer) (p : TimerPool)
    → Open k ts p.active_timers p.canceling_timers p.calling_expired_timers
    → let r = erase_canceled l p in
      Open k ts r.active_timers r.canceling_timers r.calling_expired_timers
unfolding erase_canceled
erase_canceled-Open k l ts p o = elim (Bool-cases (has_key l p.active_timers)) [
  | inl active ↦ simp (active) (
    o.0,
    elim o.1 [
      | inl absent ↦ inl (rw (has_key-erase_key k l p.active_timers, absent) (ground arith))
      | inr apart ↦ inr apart
    ],
  )
  | inr gone ↦ simp (gone, o.0) (refl, o.1)
]

pub erase_canceled-Gone :
    (k l : Key) (ts : List Timer) (p : TimerPool)
    → Gone k ts p.active_timers p.canceling_timers p.calling_expired_timers
    → let r = erase_canceled l p in
      Gone k ts r.active_timers r.canceling_timers r.calling_expired_timers
unfolding erase_canceled
erase_canceled-Gone k l ts p o = elim (Bool-cases (has_key l p.active_timers)) [
  | inl active ↦
      simp (active) (o.0, (rw (has_key-erase_key k l p.active_timers, o.1.0) (ground arith), o.1.1))
  | inr gone ↦
      simp (gone, o.0)
        (
          refl,
          (
            o.1.0,
            elim o.1.1 [
              | inl canceled ↦
                  inl (rw (has_key-insert_key k l p.canceling_timers, canceled) (ground arith))
              | inr apart ↦ inr apart
            ],
          ),
        )
]

-- The key itself is cancelled.
pub erase_canceled_own :
    (k : Key) (ts : List Timer) (p : TimerPool)
    → Open k ts p.active_timers p.canceling_timers p.calling_expired_timers
    → let r = erase_canceled k p in
      Gone k ts r.active_timers r.canceling_timers r.calling_expired_timers
unfolding erase_canceled
erase_canceled_own k ts p o = elim (Bool-cases (has_key k p.active_timers)) [
  | inl active ↦
      let none_left : has_key k (erase_key k p.active_timers) ≡ false =
        rw (has_key-erase_key k k p.active_timers, same_key_refl k) refl in
      simp (active)
        (o.0, (none_left, elim o.1 [ inl absent ↦ absurd (cc) | inr apart ↦ inr apart ]))
  | inr gone ↦
      let there : has_key k (insert_key k p.canceling_timers) ≡ true =
        rw (has_key-insert_key k k p.canceling_timers, same_key_refl k) refl in
      simp (gone, o.0) (refl, (refl, inl there))
]

pub save-absent :
    (k : Key) (t : Timer) (p : TimerPool)
    → same_key k (key t) ≡ false
    → has_key k p.active_timers ≡ false
    → has_key k (save t p).active_timers ≡ false
unfolding save
save-absent k t p n h = rw (has_key-insert_key k (key t) p.active_timers, n) h
