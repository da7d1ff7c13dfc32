-- ===== src/ThreadPool.antt =====
-- include/threading/ThreadPool.h and src/ThreadPool.cc: what a thread does between taking the lock
-- and giving it up is one step. A task is a number, and `none` the empty callback
-- that makes a worker leave. Workers are counted by where they are; a producer that waits for room
-- has its callback and how often it has still to add it. A thread may wake without a signal.
-- `stop` and `joinall` are two steps each: what comes before the join of the workers, and what
-- comes after it, which waits until all of them have left. What callbacks do, exceptions and a
-- second `start` are left out.
pub mod Order
pub mod Stuck
pub mod Tests
use annety.Prelude.{
  ℕ, zero, suc, ◌+◌, ◌-◌, Bool, true, false, ◌&&◌, ◌||◌, List, [], ◌∷◌, ◌++◌, leb, ltb, ◌==◌,
  if◌then◌else◌, length, Option, none, some,
}

abbrev pub Task : Type 0
Task = Option ℕ

-- `ready` workers are about to take the lock; `asleep` ones wait on `empty_cv_`; `left` ones have
-- broken off their loop; `threads` is the length of `threads_`. `stopping` says that a `stop` waits
-- for the workers, `aborted` that a CHECK stopped the program. `added`, `taken` and `discarded` list
-- what went through the queue and what `stop` cleared from it, `direct` what `run_task` called
-- itself.
pub record ThreadPool : Type 0 where
  pub thread_main_cbs : List Task
  pub max_task_size : ℕ
  pub running : Bool
  pub stopping : Bool
  pub aborted : Bool
  pub threads : ℕ
  pub ready : ℕ
  pub asleep : ℕ
  pub left : ℕ
  pub waiting : List (Task × ℕ)
  pub woken : List (Task × ℕ)
  pub added : List Task
  pub taken : List Task
  pub discarded : List Task
  pub direct : List ℕ

-- `start()`: every thread is on its way into `loop`.
pub start : ℕ → ℕ → ThreadPool
start num_threads max_task_size = record {
  thread_main_cbs = [];
  max_task_size = max_task_size;
  running = true;
  stopping = false;
  aborted = false;
  threads = num_threads;
  ready = num_threads;
  asleep = 0;
  left = 0;
  waiting = [];
  woken = [];
  added = [];
  taken = [];
  discarded = [];
  direct = [];
}

abbrev pub full : ThreadPool → Bool
full p = ltb 0 p.max_task_size && leb p.max_task_size (length p.thread_main_cbs)

-- `empty_cv_.signal()` and its `broadcast()`.
pub signal_empty : ThreadPool → ThreadPool
signal_empty p =
    if ltb 0 p.asleep then record p { asleep = p.asleep - 1; ready = suc p.ready } else p

pub broadcast_empty : ThreadPool → ThreadPool
broadcast_empty p = record p { asleep = 0; ready = p.ready + p.asleep }

-- `full_cv_.signal()`; which producer it wakes does not matter here.
pub wake_producer : List (Task × ℕ) → ThreadPool → ThreadPool
wake_producer [] p = p
wake_producer (w ∷ ws) p = record p { waiting = ws; woken = p.woken ++ (w ∷ []) }

pub signal_full : ThreadPool → ThreadPool
unfolding wake_producer
signal_full p = wake_producer p.waiting p

abbrev pub push_back : Task → ThreadPool → ThreadPool
push_back cb p = record p {
  thread_main_cbs = p.thread_main_cbs ++ (cb ∷ []);
  added = p.added ++ (cb ∷ []);
}

abbrev pub wait_full : Task → ℕ → ThreadPool → ThreadPool
wait_full cb n p = record p { waiting = p.waiting ++ ((cb, n) ∷ []) }

-- The loop of `run_task` in a pool with threads, for the `repeat_count` that is left.
pub run_task : Task → ℕ → ThreadPool → ThreadPool
unfolding signal_empty
run_task cb zero p = signal_empty p
run_task cb (suc n) p =
    let rest = run_task cb n (push_back cb p) in if full p then wait_full cb (suc n) p else rest

-- The loop of `run_task` in a pool without threads.
pub run_here : Task → ℕ → ThreadPool → ThreadPool
run_here none repeat_count p = p
run_here (some f) zero p = p
run_here (some f) (suc n) p = run_here (some f) n (record p { direct = p.direct ++ (f ∷ []) })

-- A call of `run_task`.
pub begin_task : Task → ℕ → ThreadPool → ThreadPool
unfolding run_here run_task
begin_task cb repeat_count p =
    if p.threads == 0 then run_here cb repeat_count p else run_task cb repeat_count p

pub resume : List (Task × ℕ) → ThreadPool → ThreadPool
unfolding run_task
resume [] p = p
resume (w ∷ ws) p = run_task w.0 w.1 (record p { woken = ws })

-- The end of a turn of `loop`, with the task that was taken.
pub run_taken : Task → ThreadPool → ThreadPool
unfolding signal_empty
run_taken none p = signal_empty (record p { left = suc p.left })
run_taken (some f) p = record p { ready = suc p.ready }

pub take_front : List Task → ThreadPool → ThreadPool
unfolding signal_full run_taken
take_front [] p = record p { asleep = suc p.asleep }
take_front (cb ∷ cbs) p =
    let popped = record p { thread_main_cbs = cbs; taken = p.taken ++ (cb ∷ []) } in
    run_taken cb (if ltb 0 p.max_task_size then signal_full popped else popped)

-- A worker that gets the lock in `loop`.
pub turn : ℕ → ThreadPool → ThreadPool
unfolding take_front
turn zero p = p
turn (suc ready) p =
    let here = record p { ready = ready } in
    if p.running then take_front p.thread_main_cbs here else record here { left = suc p.left }

-- `stop()` until it joins the workers, and from there on.
pub stop : ThreadPool → ThreadPool
unfolding broadcast_empty
stop p = broadcast_empty (record p { running = false; stopping = true })

abbrev pub all_left : ThreadPool → Bool
all_left p = (p.ready == 0) && (p.asleep == 0)

pub stop_joined : ThreadPool → ThreadPool
stop_joined p =
    if p.stopping && all_left p
    then record p {
      stopping = false;
      threads = 0;
      thread_main_cbs = [];
      discarded = p.discarded ++ p.thread_main_cbs;
    }
    else p

-- `joinall()` after its `run_task` of one empty callback for each thread.
pub joinall_joined : ThreadPool → ThreadPool
joinall_joined p =
    if all_left p
    then record p {
      threads = 0;
      running = false;
      aborted = p.aborted || ltb 0 (length p.thread_main_cbs);
    }
    else p

-- A call of `run_task`, a producer or a worker that has the lock, `stop`, the ends of `stop` and of
-- `joinall`, and threads that wake without a signal.
pub data Step : Type 0 where
  runs_task : Task → ℕ → Step
  resumes turns stops stop_joins joinall_joins producer_wakes worker_wakes : Step

pub step : ThreadPool → Step → ThreadPool
unfolding begin_task resume turn stop stop_joined joinall_joined signal_full signal_empty
step p (runs_task cb repeat_count) = begin_task cb repeat_count p
step p resumes = resume p.woken p
step p turns = turn p.ready p
step p stops = stop p
step p stop_joins = stop_joined p
step p joinall_joins = joinall_joined p
step p producer_wakes = signal_full p
step p worker_wakes = signal_empty p

pub steps : ThreadPool → List Step → ThreadPool
unfolding step
steps p [] = p
steps p (s ∷ ss) = steps (step p s) ss
