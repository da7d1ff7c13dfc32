-- ===== src/Sync/Latch/Release.antt =====
-- Who waits on the latch of src/CountDownLatch.cc, and who is let go.
use annety.Prelude.{
  ℕ, ◌-◌, ◌<◌, ◌≡◌, refl, ◌⊎◌, inl, inr, true, false, List, [], ◌∷◌, arith, Bool-cases, ltb, lt→ltb,
}
use annety.Prelude.Int.{ℤ, pos, ◌-ℤ◌}
use annety.Sync.Latch.{
  CountDownLatch, make, is_positive, is_zero, broadcast, count_down, wait, resume, wake, Step,
  counts_down, waits, resumes, wakes, step, steps,
}

-- Threads are let go only at the bottom, and none sleeps there.
pub data Gated (l : CountDownLatch) : Type 0 where
  closed : is_positive l.count ≡ true → l.released ≡ 0 → Gated l
  opened : is_positive l.count ≡ false → l.waiting ≡ 0 → Gated l

wait-Gated : (l : CountDownLatch) → Gated l → Gated (wait l)
unfolding wait
wait-Gated l (closed up none_) = simp (up) (closed up none_)
wait-Gated l (opened down none_) = simp (down) (opened down none_)

woken-Gated : (n : ℕ) (l : CountDownLatch) → Gated l → Gated (record l { woken = n })
woken-Gated n l (closed up none_) = closed up none_
woken-Gated n l (opened down none_) = opened down none_

pred-positive :
    (z : ℤ) → is_positive z ≡ true → is_zero (z -ℤ pos 1) ≡ false → is_positive (z -ℤ pos 1) ≡ true
unfolding ◌-ℤ◌
pred-positive z h e = ground arith

pred-zero : (z : ℤ) → is_zero z ≡ true → is_positive z ≡ false
pred-zero z h = ground arith

pred-down : (z : ℤ) → is_positive z ≡ false → is_positive (z -ℤ pos 1) ≡ false
unfolding ◌-ℤ◌
pred-down z h = ground arith

count_down-Gated : (l : CountDownLatch) → Gated l → Gated (count_down l)
unfolding count_down broadcast
count_down-Gated l h = elim (Bool-cases (is_zero (l.count -ℤ pos 1))) [
  | inl zero_ ↦ simp (zero_) (opened (pred-zero (l.count -ℤ pos 1) zero_) refl)
  | inr more ↦ simp (more) (elim h [
    | closed up none_ ↦ closed (pred-positive l.count up more) none_
    | opened down none_ ↦ opened (pred-down l.count down) none_
  ])
]

resume-Gated : (l : CountDownLatch) → Gated l → Gated (resume l)
unfolding resume
resume-Gated l h = elim (Bool-cases (ltb 0 l.woken)) [
  | inl some_ ↦ simp (some_) (wait-Gated _ (woken-Gated (l.woken - 1) l h))
  | inr none_ ↦ simp (none_) h
]

wake-Gated : (l : CountDownLatch) → Gated l → Gated (wake l)
unfolding wake
wake-Gated l h = elim (Bool-cases (ltb 0 l.waiting)) [
  | inr none_ ↦ simp (none_) h
  | inl some_ ↦ simp (some_) (elim h [
    | closed up none_ ↦ closed up none_
    | opened down none_ ↦ absurd (ground (arith, some_, none_))
  ])
]

step-Gated : (l : CountDownLatch) (s : Step) → Gated l → Gated (step l s)
unfolding step
step-Gated l counts_down h = count_down-Gated l h
step-Gated l waits h = wait-Gated l h
step-Gated l resumes h = resume-Gated l h
step-Gated l wakes h = wake-Gated l h

steps-Gated : (l : CountDownLatch) (ss : List Step) → Gated l → Gated (steps l ss)
unfolding steps
steps-Gated l [] h = h
steps-Gated l (s ∷ ss) h = steps-Gated (step l s) ss (step-Gated l s h)

-- However the threads run over a latch that starts at a positive count: while the count is positive
-- no call of `wait` has returned, and once it is not, no thread sleeps.
pub steps-released :
    (n : ℕ) (ss : List Step)
    → 0 < n
    → let l = steps (make n) ss in
      ((is_positive l.count ≡ true) × (l.released ≡ 0))
      ⊎ ((is_positive l.count ≡ false) × (l.waiting ≡ 0))
unfolding make
steps-released n ss h =
    gate (steps (make n) ss) (steps-Gated (make n) ss (closed (lt→ltb 0 n h) refl))
  where
    gate :
        (l : CountDownLatch)
        → Gated l
        → ((is_positive l.count ≡ true) × (l.released ≡ 0))
          ⊎ ((is_positive l.count ≡ false) × (l.waiting ≡ 0))
    gate l (closed up none_) = inl (up, none_)
    gate l (opened down none_) = inr (down, none_)
