-- ===== src/Timers/Among.antt =====
-- The keys of the entries of `timers_` in src/TimerPool.cc, as timers come and go.
use annety.Prelude.{
  ℕ, ◌≡◌, refl, ap, ◌∙◌, ◌⊎◌, inl, inr, true, false, List, [], ◌∷◌, All, ◌==◌, Bool-cases, arith,
}
use annety.Timers.{
  Timer, Key, key, same_key, before, insert_timer, erase_timer, erase_key, erase_keys, is_due,
  due_timers, later_timers, has_key,
}
use annety.Timers.Keys.{among, same_key_eq, has_key-erase_key}

-- The entries have one key each.
abbrev pub AreDistinct : List Timer → Type 0
AreDistinct [] = Unit {0}
AreDistinct (t ∷ ts) = All (λ u. same_key (key t) (key u) ≡ false) ts × AreDistinct ts

pub among-insert_timer :
    (k : Key) (t : Timer) (ts : List Timer)
    → among k ts ≡ false
    → same_key k (key t) ≡ false
    → among k (insert_timer t ts) ≡ false
unfolding insert_timer
among-insert_timer k t [] h n = ground (arith, n)
among-insert_timer k t (u ∷ us) h n = elim (Bool-cases (before t u)) [
  | inl first ↦ simp (first) (ground (arith, h, n))
  | inr later ↦ elim (Bool-cases (before u t)) [
    | inl after ↦
        let rest = among-insert_timer k t us (ground (arith, h)) n in
        simp (later, after) (ground (arith, h, rest))
    | inr same ↦ simp (later, same) h
  ]
]

pub among-erase_timer :
    (k : Key) (a : ℕ) (ts : List Timer) → among k ts ≡ false → among k (erase_timer a ts) ≡ false
unfolding erase_timer
among-erase_timer k a [] h = refl
among-erase_timer k a (t ∷ ts) h =
    let rest = among-erase_timer k a ts (ground (arith, h)) in
    elim (Bool-cases (t.address == a)) [
      | inl gone ↦ simp (gone) rest
      | inr kept ↦ simp (kept) (ground (arith, h, rest))
    ]

pub erased_own : (k : Key) (ts : List Timer) → among k (erase_timer k.0 ts) ≡ false
unfolding erase_timer
erased_own k [] = refl
erased_own k (t ∷ ts) =
    let rest = erased_own k ts in
    elim (Bool-cases (t.address == k.0)) [
      | inl gone ↦ simp (gone) rest
      | inr kept ↦ simp (kept) (ground (arith, kept, rest))
    ]

pub among-later_timers :
    (k : Key) (time : ℕ) (ts : List Timer)
    → among k ts ≡ false
    → among k (later_timers time ts) ≡ false
unfolding later_timers
among-later_timers k time [] h = refl
among-later_timers k time (t ∷ ts) h = elim (Bool-cases (is_due time t)) [
  | inl due ↦ simp (due) (among-later_timers k time ts (ground (arith, h)))
  | inr later ↦ simp (later) h
]

pub among_other :
    (k : Key) (ts : List Timer) → All (λ u. same_key k (key u) ≡ false) ts → among k ts ≡ false
among_other k [] h = refl
among_other k (t ∷ ts) h = ground (arith, h.0, among_other k ts h.1)

pub due_or_later :
    (k : Key) (time : ℕ) (ts : List Timer)
    → AreDistinct ts
    → (among k (due_timers time ts) ≡ false) ⊎ (among k (later_timers time ts) ≡ false)
unfolding due_timers later_timers
due_or_later k time [] d = inl refl
due_or_later k time (t ∷ ts) d = elim (Bool-cases (is_due time t)) [
  | inl due ↦ elim (Bool-cases (same_key k (key t))) [
    | inl same ↦
        let others : among k ts ≡ false =
          ap (λ l. among l ts) (same_key_eq k (key t) same) ∙ among_other (key t) ts d.0 in
        simp (due) (inr (among-later_timers k time ts others))
    | inr other ↦ simp (due, other) (due_or_later k time ts d.1)
  ]
  | inr later ↦ simp (later) (inl refl)
]

-- A key that is not among the erased ones stays.
pub kept_keys :
    (k : Key) (ts : List Timer) (ks : List Key)
    → among k ts ≡ false
    → has_key k ks ≡ true
    → has_key k (erase_keys ts ks) ≡ true
unfolding erase_keys
kept_keys k [] ks n h = h
kept_keys k (t ∷ ts) ks n h =
    let other : same_key k (key t) ≡ false = ground (arith, n) in
    let one : has_key k (erase_key (key t) ks) ≡ true =
      rw (has_key-erase_key k (key t) ks, other) h in
    kept_keys k ts (erase_key (key t) ks) (ground (arith, n)) one

pub among-due_timers :
    (k : Key) (time : ℕ) (ts : List Timer)
    → among k ts ≡ false
    → among k (due_timers time ts) ≡ false
unfolding due_timers
among-due_timers k time [] h = refl
among-due_timers k time (t ∷ ts) h = elim (Bool-cases (is_due time t)) [
  | inl due ↦
      let rest = among-due_timers k time ts (ground (arith, h)) in
      simp (due) (ground (arith, h, rest))
  | inr later ↦ simp (later) refl
]
