-- ===== src/Sync/Queue.antt =====
-- include/synchronization/BlockingQueue.h: both traits. What a thread does between taking the lock
-- and giving it up, in `wait` or at the end, is one step. A producer that waits carries its
-- element. A signalled thread is woken, and tests its condition again when it gets the lock; a
-- thread may wake without a signal too, and which one a signal wakes, or which gets the lock, is
-- any: `i` says.
pub mod Order
pub mod Wakeup
pub mod Tests
use annety.Prelude.{
  ℕ, zero, suc, ◌+◌, ◌-◌, Bool, true, false, List, [], ◌∷◌, ◌++◌, leb, ltb, ◌==◌, if◌then◌else◌,
  length, take, drop, Option, none, some,
}

-- `max_size` is `none` for UnBoundedBlockingTrait, whose `push` never waits.
pub record BlockingQueue (T : Type 0) : Type 0 where
  pub queue : List T
  pub max_size : Option ℕ
  pub waiting_producers : List T
  pub woken_producers : List T
  pub waiting_consumers : ℕ
  pub woken_consumers : ℕ

-- The state, and the element that went in or came out.
pub record Stepped (T : Type 0) : Type 0 where
  pub next : BlockingQueue T
  pub pushed : List T
  pub popped : List T

module _ {T : Type 0} where
  pub make : Option ℕ → BlockingQueue T
  make max_size = record {
    queue = [];
    max_size = max_size;
    waiting_producers = [];
    woken_producers = [];
    waiting_consumers = 0;
    woken_consumers = 0;
  }

  pub empty_with_locked : BlockingQueue T → Bool
  empty_with_locked q = length q.queue == 0

  pub full_with_locked : BlockingQueue T → Bool
  full_with_locked q = elim q.max_size [ none ↦ false | some m ↦ leb m (length q.queue) ]

  -- `empty_cv_.signal()`.
  pub signal_empty : BlockingQueue T → BlockingQueue T
  signal_empty q =
      if ltb 0 q.waiting_consumers
      then record q {
        waiting_consumers = q.waiting_consumers - 1;
        woken_consumers = q.woken_consumers + 1;
      }
      else q

  abbrev pub without : ℕ → List T → List T
  without i xs = take i xs ++ drop (suc i) xs

  abbrev pub at_index : ℕ → List T → List T
  at_index i xs = take 1 (drop i xs)

  -- A signal wakes a thread whenever one waits.
  abbrev pub choose : ℕ → List T → ℕ
  choose i xs = if ltb i (length xs) then i else 0

  -- `full_cv_.signal()`, which wakes the waiting producer `i`.
  pub signal_full : ℕ → BlockingQueue T → BlockingQueue T
  signal_full i q = record q {
    waiting_producers = without (choose i q.waiting_producers) q.waiting_producers;
    woken_producers =
        q.woken_producers ++ at_index (choose i q.waiting_producers) q.waiting_producers;
  }

  abbrev pub waits_full : T → BlockingQueue T → Stepped T
  waits_full x q = record {
    next = record q { waiting_producers = q.waiting_producers ++ (x ∷ []) };
    pushed = [];
    popped = [];
  }

  -- One turn of the loop of `push`, and what follows it when the queue is not full.
  pub push : T → BlockingQueue T → Stepped T
  unfolding signal_empty full_with_locked
  push x q = if full_with_locked q then waits_full x q else record {
    next = signal_empty (record q { queue = q.queue ++ (x ∷ []) });
    pushed = x ∷ [];
    popped = [];
  }

  pub pop_front : ℕ → List T → BlockingQueue T → Stepped T
  unfolding signal_full
  pop_front i [] q = record {
    next = record q { waiting_consumers = q.waiting_consumers + 1 };
    pushed = [];
    popped = [];
  }
  pop_front i (x ∷ xs) q = record {
    next = signal_full i (record q { queue = xs });
    pushed = [];
    popped = x ∷ [];
  }

  -- One turn of the loop of `pop`, and what follows it when the queue is not empty.
  pub pop : ℕ → BlockingQueue T → Stepped T
  unfolding pop_front
  pop i q = pop_front i q.queue q

  -- The woken producer that has the element `x` again gets the lock.
  pub resume_push : ℕ → List T → BlockingQueue T → Stepped T
  unfolding push
  resume_push i [] q = record { next = q; pushed = []; popped = [] }
  resume_push i (x ∷ xs) q = push x (record q { woken_producers = without i q.woken_producers })

  pub resume_pop : ℕ → BlockingQueue T → Stepped T
  unfolding pop
  resume_pop i q =
      if ltb 0 q.woken_consumers
      then pop i (record q { woken_consumers = q.woken_consumers - 1 })
      else record { next = q; pushed = []; popped = [] }

-- The steps of the threads: a call of `push` or `pop`, a woken thread that goes on, and a thread
-- that wakes without a signal.
pub data Step (T : Type 0) : Type 0 where
  pushes : T → Step T
  pops : ℕ → Step T
  resumes_push : ℕ → Step T
  resumes_pop : ℕ → Step T
  producer_wakes : ℕ → Step T
  consumer_wakes : Step T

module _ {T : Type 0} where
  pub step : BlockingQueue T → Step T → Stepped T
  unfolding push pop resume_push resume_pop signal_empty signal_full
  step q (pushes x) = push x q
  step q (pops i) = pop i q
  step q (resumes_push i) = resume_push i (at_index i q.woken_producers) q
  step q (resumes_pop i) = resume_pop i q
  step q (producer_wakes i) = record { next = signal_full i q; pushed = []; popped = [] }
  step q consumer_wakes = record { next = signal_empty q; pushed = []; popped = [] }

  pub steps : BlockingQueue T → List (Step T) → Stepped T
  unfolding step
  steps q [] = record { next = q; pushed = []; popped = [] }
  steps q (s ∷ ss) =
      let one = step q s in
      let rest = steps one.next ss in
      record {
        next = rest.next;
        pushed = one.pushed ++ rest.pushed;
        popped = one.popped ++ rest.popped;
      }
