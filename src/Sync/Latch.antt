-- ===== src/Sync/Latch.antt =====
-- src/CountDownLatch.cc: a counter that threads wait for. `released` counts the calls of `wait`
-- that have returned. A thread that waits with a time wakes when it is over, and tests the counter
-- again, as one does that wakes without a signal.
pub mod Release
pub mod Tests
use annety.Prelude.{ℕ, ◌+◌, ◌-◌, Bool, true, false, List, [], ◌∷◌, ltb, ◌==◌, if◌then◌else◌}
use annety.Prelude.Int.{ℤ, pos, negsuc, ◌-ℤ◌}

pub record CountDownLatch : Type 0 where
  pub count : ℤ
  pub waiting : ℕ
  pub woken : ℕ
  pub released : ℕ

-- `CountDownLatch(count)`, whose CHECK wants a positive count.
unfoldable pub make : ℕ → CountDownLatch
make count = record { count = pos count; waiting = 0; woken = 0; released = 0 }

abbrev pub is_positive : ℤ → Bool
is_positive (pos n) = ltb 0 n
is_positive (negsuc n) = false

abbrev pub is_zero : ℤ → Bool
is_zero (pos n) = n == 0
is_zero (negsuc n) = false

pub broadcast : CountDownLatch → CountDownLatch
broadcast l = record l { waiting = 0; woken = l.woken + l.waiting }

pub count_down : CountDownLatch → CountDownLatch
unfolding broadcast
count_down l =
    let left = l.count -ℤ pos 1 in
    if is_zero left then broadcast (record l { count = left }) else record l { count = left }

-- One turn of the loop of `wait`, with a time or without.
pub wait : CountDownLatch → CountDownLatch
wait l =
    if is_positive l.count
    then record l { waiting = l.waiting + 1 }
    else record l { released = l.released + 1 }

pub resume : CountDownLatch → CountDownLatch
unfolding wait
resume l = if ltb 0 l.woken then wait (record l { woken = l.woken - 1 }) else l

pub wake : CountDownLatch → CountDownLatch
wake l = if ltb 0 l.waiting then record l { waiting = l.waiting - 1; woken = l.woken + 1 } else l

pub data Step : Type 0 where
  counts_down waits resumes wakes : Step

pub step : CountDownLatch → Step → CountDownLatch
unfolding count_down wait resume wake
step l counts_down = count_down l
step l waits = wait l
step l resumes = resume l
step l wakes = wake l

pub steps : CountDownLatch → List Step → CountDownLatch
unfolding step
steps l [] = l
steps l (s ∷ ss) = steps (step l s) ss
