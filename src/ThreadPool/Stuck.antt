-- ===== src/ThreadPool/Stuck.antt =====
-- `run_task` of src/ThreadPool.cc signals the workers only after it has added all its tasks.
use annety.Prelude.{
  ℕ, zero, suc, ◌+◌, ◌≤◌, ◌<◌, ◌≡◌, refl, ap, ◌∙◌, true, false, List, [], ◌∷◌, All, if_case, length,
  length-append, arith,
}
use annety.ThreadPool.{
  Task, ThreadPool, Step, runs_task, resumes, turns, stops, stop_joins, joinall_joins,
  producer_wakes, worker_wakes, full, push_back, run_task, resume, turn, step, steps,
}

-- No worker and no producer can run, and the queue is full.
pub record IsStuck (p : ThreadPool) : Type 0 where
  pub ready : p.ready ≡ 0
  pub woken : p.woken ≡ []
  pub waits : 0 < length p.waiting
  pub filled : length p.thread_main_cbs ≡ p.max_task_size

run_task-Stuck :
    (cb : Task) (n : ℕ) (p : ThreadPool)
    → p.ready ≡ 0
    → p.woken ≡ []
    → 0 < p.max_task_size
    → length p.thread_main_cbs ≤ p.max_task_size
    → p.max_task_size < length p.thread_main_cbs + n
    → IsStuck (run_task cb n p)
unfolding run_task
run_task-Stuck cb zero p r w b l h = absurd (omega (arith, l, h))
run_task-Stuck cb (suc n) p r w b l h =
    let longer = length-append p.thread_main_cbs (cb ∷ []) in
    let added = length-append p.waiting ((cb, suc n) ∷ []) in
    if_case IsStuck (full p) _ _
      (λ e. record {
        ready = r;
        woken = w;
        waits = omega (arith, added);
        filled = ground (arith, e, l);
      })
      (λ e.
        run_task-Stuck cb n (push_back cb p) r w b (ground (arith, e, b, longer))
          (omega (arith, h, longer)))

-- A step of a thread that has a signal, a lock to take, or nothing to wait for.
abbrev pub IsRun : Step → Type 0
IsRun (runs_task cb n) = true ≡ false
IsRun resumes = Unit {0}
IsRun turns = Unit {0}
IsRun stops = true ≡ false
IsRun stop_joins = true ≡ false
IsRun joinall_joins = true ≡ false
IsRun producer_wakes = true ≡ false
IsRun worker_wakes = true ≡ false

stuck_stays : (ss : List Step) (p : ThreadPool) → All IsRun ss → IsStuck p → steps p ss ≡ p
unfolding steps step turn resume
stuck_stays [] p q h = refl
stuck_stays (runs_task cb n ∷ ss) p q h = absurd (cc)
stuck_stays (resumes ∷ ss) p q h =
    ap (λ r. steps r ss) (ap (λ w. resume w p) h.woken) ∙ stuck_stays ss p q.1 h
stuck_stays (turns ∷ ss) p q h =
    ap (λ r. steps r ss) (ap (λ k. turn k p) h.ready) ∙ stuck_stays ss p q.1 h
stuck_stays (stops ∷ ss) p q h = absurd (cc)
stuck_stays (stop_joins ∷ ss) p q h = absurd (cc)
stuck_stays (joinall_joins ∷ ss) p q h = absurd (cc)
stuck_stays (producer_wakes ∷ ss) p q h = absurd (cc)
stuck_stays (worker_wakes ∷ ss) p q h = absurd (cc)

-- Where a maximum is set, all workers are asleep and no producer is under way, a `run_task` that
-- repeats its callback more often than there is room stops with the queue full, itself waiting and
-- no worker woken; and this stays so for ever, unless a thread wakes without a signal, another
-- call comes, or one that joins the workers ends.
pub run_task_deadlock :
    (cb : Task) (n : ℕ) (p : ThreadPool) (ss : List Step)
    → p.ready ≡ 0
    → p.woken ≡ []
    → 0 < p.max_task_size
    → length p.thread_main_cbs ≤ p.max_task_size
    → p.max_task_size < length p.thread_main_cbs + n
    → All IsRun ss
    → IsStuck (run_task cb n p) × (steps (run_task cb n p) ss ≡ run_task cb n p)
run_task_deadlock cb n p ss r w b l h q =
    let stuck = run_task-Stuck cb n p r w b l h in (stuck, stuck_stays ss (run_task cb n p) q stuck)
