-- ===== src/Sync/Queue/Tests.antt =====
-- Short runs of include/synchronization/BlockingQueue.h.
use annety.Prelude.{ℕ, ◌≡◌, refl, ◌⊎◌, List, [], ◌∷◌, ◌++◌, arith, length, some}
use annety.Sync.Queue.{
  make, Step, pushes, pops, resumes_push, resumes_pop, steps, step, push, pop, pop_front,
  resume_push, resume_pop, signal_empty, signal_full, full_with_locked,
}
use annety.Sync.Queue.Order.{steps-fifo}
use annety.Sync.Queue.Wakeup.{Served, steps-Served, steps-no_deadlock}

-- A consumer waits, is woken by a push, and a third producer has to wait in turn.
abbrev turns : List (Step ℕ)
turns = pops 0 ∷ pushes 5 ∷ pushes 6 ∷ pushes 7 ∷ resumes_pop 0 ∷ resumes_push 0 ∷ []

turns_test :
    ((steps (make (some 2)) turns).popped ≡ 5 ∷ [])
    × ((steps (make (some 2)) turns).pushed ≡ 5 ∷ 6 ∷ 7 ∷ [])
unfolding steps step make push pop pop_front resume_push resume_pop signal_empty signal_full
    full_with_locked
turns_test = (refl, refl)

steps-fifo_example :
    (steps (make (some 2)) turns).popped ++ (steps (make (some 2)) turns).next.queue
    ≡ (steps (make (some 2)) turns).pushed
steps-fifo_example = steps-fifo (some 2) turns

steps-Served_example : Served 2 (steps (make (some 2)) turns).next
steps-Served_example = steps-Served 2 turns

-- A consumer sleeps on the empty queue.
abbrev one_pop : List (Step ℕ)
one_pop = pops 0 ∷ []

asleep :
    ((steps (make (some 2)) one_pop).next.woken_consumers ≡ 0)
    × (length (steps (make (some 2)) one_pop).next.woken_producers ≡ 0)
unfolding steps step make pop pop_front
asleep = (refl, refl)

steps-no_deadlock_example :
    ((steps (make (some 2)) one_pop).next.waiting_consumers ≡ 0)
    ⊎ (length (steps (make (some 2)) one_pop).next.waiting_producers ≡ 0)
steps-no_deadlock_example = steps-no_deadlock 2 one_pop (omega arith) asleep.0 asleep.1
