-- ===== src/Timers/Sorted.antt =====
-- The order of `timers_` in src/TimerPool.cc.
use annety.Prelude.{ℕ, ◌≤◌, ◌≡◌, refl, inl, inr, true, List, [], ◌∷◌, All, ◌==◌, Bool-cases, arith}
use annety.Timers.{Timer, before, insert_timer, erase_timer, is_due, later_timers}

abbrev pub IsSorted : List Timer → Type 0
IsSorted [] = Unit {0}
IsSorted (t ∷ ts) = All (λ u. before t u ≡ true) ts × IsSorted ts

pub before_trans : (t u v : Timer) → before t u ≡ true → before u v ≡ true → before t v ≡ true
before_trans t u v h k = ground (arith, h, k)

pub All-insert_timer :
    (P : Timer → Type 0) (t : Timer) (ts : List Timer) → P t → All P ts → All P (insert_timer t ts)
unfolding insert_timer
All-insert_timer P t [] p h = (p, tt)
All-insert_timer P t (u ∷ us) p h = elim (Bool-cases (before t u)) [
  | inl first ↦ simp (first) (p, h)
  | inr later ↦ elim (Bool-cases (before u t)) [
    | inl after ↦ simp (later, after) (h.0, All-insert_timer P t us p h.1)
    | inr same ↦ simp (later, same) h
  ]
]

pub All-erase_timer :
    (P : Timer → Type 0) (a : ℕ) (ts : List Timer) → All P ts → All P (erase_timer a ts)
unfolding erase_timer
All-erase_timer P a [] h = tt
All-erase_timer P a (t ∷ ts) h = elim (Bool-cases (t.address == a)) [
  | inl gone ↦ simp (gone) (All-erase_timer P a ts h.1)
  | inr kept ↦ simp (kept) (h.0, All-erase_timer P a ts h.1)
]

pub All-later_timers :
    (P : Timer → Type 0) (time : ℕ) (ts : List Timer) → All P ts → All P (later_timers time ts)
unfolding later_timers
All-later_timers P time [] h = tt
All-later_timers P time (t ∷ ts) h = elim (Bool-cases (is_due time t)) [
  | inl due ↦ simp (due) (All-later_timers P time ts h.1)
  | inr later ↦ simp (later) h
]

pub All-before :
    (t u : Timer) (ts : List Timer)
    → before t u ≡ true
    → All (λ v. before u v ≡ true) ts
    → All (λ v. before t v ≡ true) ts
All-before t u [] h k = tt
All-before t u (v ∷ vs) h k = (before_trans t u v h k.0, All-before t u vs h k.1)

pub insert_timer-IsSorted :
    (t : Timer) (ts : List Timer) → IsSorted ts → IsSorted (insert_timer t ts)
unfolding insert_timer
insert_timer-IsSorted t [] h = (tt, tt)
insert_timer-IsSorted t (u ∷ us) h = elim (Bool-cases (before t u)) [
  | inl first ↦ simp (first) ((refl, All-before t u us first h.0), h)
  | inr later ↦ elim (Bool-cases (before u t)) [
    | inl after ↦
        simp (later, after)
          (All-insert_timer (λ v. before u v ≡ true) t us after h.0, insert_timer-IsSorted t us h.1)
    | inr same ↦ simp (later, same) h
  ]
]

pub erase_timer-IsSorted :
    (address : ℕ) (ts : List Timer) → IsSorted ts → IsSorted (erase_timer address ts)
unfolding erase_timer
erase_timer-IsSorted address [] h = tt
erase_timer-IsSorted address (t ∷ ts) h = elim (Bool-cases (t.address == address)) [
  | inl gone ↦ simp (gone) (erase_timer-IsSorted address ts h.1)
  | inr kept ↦
      simp (kept) (
        All-erase_timer (λ v. before t v ≡ true) address ts h.0,
        erase_timer-IsSorted address ts h.1,
      )
]

pub later_timers-IsSorted :
    (time : ℕ) (ts : List Timer) → IsSorted ts → IsSorted (later_timers time ts)
unfolding later_timers
later_timers-IsSorted time [] h = tt
later_timers-IsSorted time (t ∷ ts) h = elim (Bool-cases (is_due time t)) [
  | inl due ↦ simp (due) (later_timers-IsSorted time ts h.1)
  | inr later ↦ simp (later) h
]

-- The first of a sorted list is the earliest.
pub All-earliest :
    (t : Timer) (ts : List Timer)
    → All (λ u. before t u ≡ true) ts
    → All (λ u. t.expired ≤ u.expired) ts
All-earliest t [] h = tt
All-earliest t (u ∷ us) h = (ground (arith, h.0), All-earliest t us h.1)
