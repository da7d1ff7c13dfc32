-- ===== src/Timers/Keys.antt =====
-- The sets of keys of src/TimerPool.cc, and what `update` makes of a cancelled one.
use annety.Prelude.{
  ℕ, ◌≡◌, refl, sym, ap, ◌∙◌, ◌⊎◌, inl, inr, Bool, true, false, not, ◌&&◌, ◌||◌, List, [], ◌∷◌,
  Bool-cases, arith,
}
use annety.Timers.{
  Timer, Key, key, same_key, TimerPool, repeat, insert_key, erase_key, erase_keys, save, save_again,
  update_all, has_key,
}

pub same_key_refl : (k : Key) → same_key k k ≡ true
same_key_refl k = ground arith

pub same_key_eq : (k l : Key) → same_key k l ≡ true → k ≡ l
same_key_eq k l h =
    let first : k.0 ≡ l.0 = ground (arith, h) in
    let second : k.1 ≡ l.1 = ground (arith, h) in
    ap (λ x. (x, k.1)) first ∙ ap (λ y. (l.0, y)) second

pub has_key-insert_key :
    (k l : Key) (ls : List Key) → has_key k (insert_key l ls) ≡ (same_key k l || has_key k ls)
unfolding insert_key
has_key-insert_key k l ls = elim (Bool-cases (has_key l ls)) [
  | inl present ↦ elim (Bool-cases (same_key k l)) [
    | inl same ↦ simp (present, same) (ap (λ m. has_key m ls) (same_key_eq k l same) ∙ present)
    | inr other ↦ simp (present, other) refl
  ]
  | inr absent ↦ simp (absent) refl
]

pub has_key-erase_key :
    (k l : Key) (ls : List Key) → has_key k (erase_key l ls) ≡ (not (same_key k l) && has_key k ls)
unfolding erase_key
has_key-erase_key k l [] = ground arith
has_key-erase_key k l (m ∷ ls) =
    let rest = has_key-erase_key k l ls in
    elim (Bool-cases (same_key l m)) [
      | inl same ↦ rw (same) (rw (rest) (ground (arith, same)))
      | inr other ↦ rw (other) (rw (rest) (ground (arith, other)))
    ]

-- Whether the timer of a key is in a list.
abbrev pub among : Key → List Timer → Bool
among k [] = false
among k (t ∷ ts) = same_key k (key t) || among k ts

pub has_key-erase_keys :
    (k : Key) (ts : List Timer) (ks : List Key)
    → has_key k ks ≡ false
    → has_key k (erase_keys ts ks) ≡ false
unfolding erase_keys
has_key-erase_keys k [] ks h = h
has_key-erase_keys k (t ∷ ts) ks h =
    let rest : has_key k (erase_key (key t) ks) ≡ false =
      rw (has_key-erase_key k (key t) ks, h) (ground arith) in
    has_key-erase_keys k ts (erase_key (key t) ks) rest

pub among-erase_keys :
    (k : Key) (ts : List Timer) (ks : List Key)
    → among k ts ≡ true
    → has_key k (erase_keys ts ks) ≡ false
unfolding erase_keys
among-erase_keys k [] ks h = absurd (cc)
among-erase_keys k (t ∷ ts) ks h = elim (Bool-cases (same_key k (key t))) [
  | inl same ↦
      let gone : has_key k (erase_key (key t) ks) ≡ false =
        rw (has_key-erase_key k (key t) ks, same) refl in
      has_key-erase_keys k ts (erase_key (key t) ks) gone
  | inr other ↦ among-erase_keys k ts (erase_key (key t) ks) (ground (arith, h, other))
]

other_key :
    (k l : Key) (ks : List Key) → has_key k ks ≡ true → has_key l ks ≡ false → same_key k l ≡ false
other_key k l ks h n = elim (Bool-cases (same_key k l)) [
  | inl same ↦
      let clash : true ≡ false = sym h ∙ ap (λ m. has_key m ks) (same_key_eq k l same) ∙ n in
      absurd (cc)
  | inr other ↦ other
]

-- What `save_again` leaves.
save_again-absent :
    (time : ℕ) (t : Timer) (k : Key) (p : TimerPool)
    → has_key k p.active_timers ≡ false
    → (has_key k p.canceling_timers ≡ true) ⊎ (same_key k (key t) ≡ false)
    → let r = save_again time t p in
      (has_key k r.active_timers ≡ false) × (r.canceling_timers ≡ p.canceling_timers)
unfolding save_again save
save_again-absent time t k p h c =
    elim (Bool-cases (repeat t && not (has_key (key t) p.canceling_timers))) [
      | inl again ↦
          let free : has_key (key t) p.canceling_timers ≡ false = ground (arith, again) in
          let other : same_key k (key t) ≡ false = elim c [
            | inl canceled ↦ other_key k (key t) p.canceling_timers canceled free
            | inr other ↦ other
          ] in
          simp (again) (rw (has_key-insert_key k (key t) p.active_timers, other) h, refl)
      | inr done ↦ simp (done) (h, refl)
    ]

pub update_all-absent :
    (time : ℕ) (ts : List Timer) (k : Key) (p : TimerPool)
    → has_key k p.active_timers ≡ false
    → (has_key k p.canceling_timers ≡ true) ⊎ (among k ts ≡ false)
    → has_key k (update_all time ts p).active_timers ≡ false
unfolding update_all
update_all-absent time [] k p h c = h
update_all-absent time (t ∷ ts) k p h (inl c) =
    let one = save_again-absent time t k p h (inl c) in
    update_all-absent time ts k (save_again time t p) one.0 (inl (ap (has_key k) one.1 ∙ c))
update_all-absent time (t ∷ ts) k p h (inr n) =
    let one = save_again-absent time t k p h (inr (ground (arith, n))) in
    update_all-absent time ts k (save_again time t p) one.0 (inr (ground (arith, n)))
