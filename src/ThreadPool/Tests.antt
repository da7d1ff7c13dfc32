-- ===== src/ThreadPool/Tests.antt =====
-- Runs of src/ThreadPool.cc.
use annety.Prelude.{ℕ, ◌≡◌, ◌≤◌, refl, List, [], ◌∷◌, ◌++◌, some, ◌⊎◌, length, arith}
use annety.ThreadPool.{
  ThreadPool, Step, runs_task, resumes, turns, stops, stop_joins, start, run_task, steps,
}
use annety.ThreadPool.Order.{steps-tasks}
use annety.ThreadPool.Stuck.{IsStuck, run_task_deadlock}

abbrev most : ℕ
most = 2

-- Two workers fall asleep.
abbrev asleep : ThreadPool
asleep = steps (start 2 most) (turns ∷ turns ∷ [])

-- Two tasks, one of them twice, and a third that a `stop` discards.
abbrev run : List Step
run =
    turns
    ∷ turns
    ∷ runs_task (some 7) 2
    ∷ turns
    ∷ runs_task (some 8) 1
    ∷ turns
    ∷ turns
    ∷ runs_task (some 9) 1
    ∷ stops
    ∷ turns
    ∷ turns
    ∷ stop_joins
    ∷ runs_task (some 4) 2
    ∷ []

steps-tasks_example :
    let p = steps (start 2 most) run in
    (p.taken ++ (p.discarded ++ p.thread_main_cbs) ≡ p.added)
    × ((p.discarded ≡ []) ⊎ ((p.ready ≡ 0) × (p.asleep ≡ 0)))
    × ((most ≡ 0) ⊎ (length p.thread_main_cbs ≤ most))
steps-tasks_example = steps-tasks 2 most run

taken_test : (steps (start 2 most) run).taken ≡ some 7 ∷ some 7 ∷ some 8 ∷ []
unfolding steps start
taken_test = refl

discarded_test : (steps (start 2 most) run).discarded ≡ some 9 ∷ []
unfolding steps start
discarded_test = refl

-- Without threads `run_task` calls at once.
direct_test : (steps (start 2 most) run).direct ≡ 4 ∷ 4 ∷ []
unfolding steps start
direct_test = refl

run_task_deadlock_example :
    IsStuck (run_task (some 7) 3 asleep)
    × (steps (run_task (some 7) 3 asleep) (turns ∷ resumes ∷ []) ≡ run_task (some 7) 3 asleep)
unfolding steps start
run_task_deadlock_example =
    run_task_deadlock (some 7) 3 asleep (turns ∷ resumes ∷ []) refl refl (omega arith) (omega arith)
      (omega arith) (tt, (tt, tt))
