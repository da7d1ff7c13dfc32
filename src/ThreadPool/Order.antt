-- ===== src/ThreadPool/Order.antt =====
-- The queue of src/ThreadPool.cc: its order and its bound.
use annety.Prelude.{
  ℕ, zero, suc, ◌≤◌, ◌≡◌, refl, sym, ap, ◌∙◌, false, ◌&&◌, append-nil, List, [], ◌∷◌, ◌++◌,
  append_assoc, leb, ltb, ◌==◌, if_case, length, length-append, none, some, ◌⊎◌, inl, inr, arith,
  Bool-cases,
}
use annety.ThreadPool.{
  Task, ThreadPool, Step, runs_task, resumes, turns, stops, stop_joins, joinall_joins,
  producer_wakes, worker_wakes, start, full, signal_empty, broadcast_empty, wake_producer,
  signal_full, push_back, run_task, resume, run_taken, take_front, turn, run_here, begin_task, stop,
  all_left, stop_joined, joinall_joined, step, steps,
}

-- What was taken, what was discarded and what is in the queue is what was added; tasks are discarded
-- only by a `stop` whose workers have left; and a bounded queue is within its bound.
pub record IsKept (m : ℕ) (p : ThreadPool) : Type 0 where
  pub order : p.taken ++ (p.discarded ++ p.thread_main_cbs) ≡ p.added
  pub gone : (p.discarded ≡ []) ⊎ ((p.ready ≡ 0) × (p.asleep ≡ 0))
  pub limit : p.max_task_size ≡ m
  pub bound : (m ≡ 0) ⊎ (length p.thread_main_cbs ≤ m)

module _ (m : ℕ) where
  signal_empty-Kept : (p : ThreadPool) → IsKept m p → IsKept m (signal_empty p)
  unfolding signal_empty
  signal_empty-Kept p h =
      if_case (IsKept m) (ltb 0 p.asleep) _ _
        (λ e. record {
          order = h.order;
          gone = elim h.gone [
            | inl none_ ↦ inl none_
            | inr all ↦ absurd (ground (arith, e, all.1))
          ];
          limit = h.limit;
          bound = h.bound;
        })
        (λ e. h)

  wake_producer-Kept :
      (ws : List (Task × ℕ)) (p : ThreadPool) → IsKept m p → IsKept m (wake_producer ws p)
  unfolding wake_producer
  wake_producer-Kept [] p h = h
  wake_producer-Kept (w ∷ ws) p h = record {
    order = h.order;
    gone = h.gone;
    limit = h.limit;
    bound = h.bound;
  }

  push_back-Kept :
      (cb : Task) (p : ThreadPool) → full p ≡ false → IsKept m p → IsKept m (push_back cb p)
  push_back-Kept cb p e h =
      let longer = length-append p.thread_main_cbs (cb ∷ []) in
      let room : (ltb 0 m && leb m (length p.thread_main_cbs)) ≡ false =
        ap (λ k. ltb 0 k && leb k (length p.thread_main_cbs)) (sym h.limit) ∙ e in
      record {
        order =
            ap (◌++◌ p.taken) (sym (append_assoc p.discarded p.thread_main_cbs (cb ∷ [])))
            ∙ sym (append_assoc p.taken (p.discarded ++ p.thread_main_cbs) (cb ∷ []))
            ∙ ap (λ t. t ++ (cb ∷ [])) h.order;
        gone = h.gone;
        limit = h.limit;
        bound = elim (Bool-cases (ltb 0 m)) [
          | inl bounded ↦ inr (ground (arith, room, bounded, longer))
          | inr free ↦ inl (ground (arith, free))
        ];
      }

  run_task-Kept : (cb : Task) (n : ℕ) (p : ThreadPool) → IsKept m p → IsKept m (run_task cb n p)
  unfolding run_task
  run_task-Kept cb zero p h = signal_empty-Kept p h
  run_task-Kept cb (suc n) p h =
      if_case (IsKept m) (full p) _ _
        (λ e. record { order = h.order; gone = h.gone; limit = h.limit; bound = h.bound })
        (λ e. run_task-Kept cb n (push_back cb p) (push_back-Kept cb p e h))

  run_here-Kept : (cb : Task) (n : ℕ) (p : ThreadPool) → IsKept m p → IsKept m (run_here cb n p)
  unfolding run_here
  run_here-Kept none n p h = h
  run_here-Kept (some f) zero p h = h
  run_here-Kept (some f) (suc n) p h =
      run_here-Kept (some f) n (record p { direct = p.direct ++ (f ∷ []) })
        (record { order = h.order; gone = h.gone; limit = h.limit; bound = h.bound })

  begin_task-Kept : (cb : Task) (n : ℕ) (p : ThreadPool) → IsKept m p → IsKept m (begin_task cb n p)
  unfolding begin_task
  begin_task-Kept cb n p h =
      if_case (IsKept m) (p.threads == 0) _ _ (λ e. run_here-Kept cb n p h)
        (λ e. run_task-Kept cb n p h)

  resume-Kept : (ws : List (Task × ℕ)) (p : ThreadPool) → IsKept m p → IsKept m (resume ws p)
  unfolding resume
  resume-Kept [] p h = h
  resume-Kept (w ∷ ws) p h =
      run_task-Kept w.0 w.1 (record p { woken = ws })
        (record { order = h.order; gone = h.gone; limit = h.limit; bound = h.bound })

  -- A worker that has the lock shows that nothing has been discarded.
  abbrev Working : ThreadPool → Type 0
  Working p = (p.discarded ≡ []) × IsKept m p

  run_taken-Kept : (cb : Task) (p : ThreadPool) → Working p → IsKept m (run_taken cb p)
  unfolding run_taken
  run_taken-Kept none p h =
      signal_empty-Kept (record p { left = suc p.left })
        (record { order = h.1.order; gone = inl h.0; limit = h.1.limit; bound = h.1.bound })
  run_taken-Kept (some f) p h = record {
    order = h.1.order;
    gone = inl h.0;
    limit = h.1.limit;
    bound = h.1.bound;
  }

  signal_full-Working :
      (ws : List (Task × ℕ)) (p : ThreadPool) → Working p → Working (wake_producer ws p)
  unfolding wake_producer
  signal_full-Working [] p h = h
  signal_full-Working (w ∷ ws) p h = (h.0, wake_producer-Kept (w ∷ ws) p h.1)

  take_front-Kept :
      (cbs : List Task) (p : ThreadPool)
      → p.thread_main_cbs ≡ cbs
      → Working p
      → IsKept m (take_front cbs p)
  unfolding take_front signal_full
  take_front-Kept [] p e h = record {
    order = h.1.order;
    gone = inl h.0;
    limit = h.1.limit;
    bound = h.1.bound;
  }
  take_front-Kept (cb ∷ cbs) p e h =
      let popped = record p { thread_main_cbs = cbs; taken = p.taken ++ (cb ∷ []) } in
      let kept : IsKept m popped = record {
        order =
            append_assoc p.taken (cb ∷ []) (p.discarded ++ cbs)
            ∙ ap (λ d. p.taken ++ (cb ∷ (d ++ cbs))) h.0
            ∙ ap (λ d. p.taken ++ (d ++ (cb ∷ cbs))) (sym h.0)
            ∙ ap (λ t. p.taken ++ (p.discarded ++ t)) (sym e)
            ∙ h.1.order;
        gone = inl h.0;
        limit = h.1.limit;
        bound = elim h.1.bound [ inl z ↦ inl z | inr l ↦ inr (omega (arith, ap length e, l)) ];
      } in
      run_taken-Kept cb _ (
        if_case Working (ltb 0 p.max_task_size) _ _
          (λ x. signal_full-Working p.waiting popped (h.0, kept)) (λ x. (h.0, kept)))

  turn-Kept : (n : ℕ) (p : ThreadPool) → p.ready ≡ n → IsKept m p → IsKept m (turn n p)
  unfolding turn
  turn-Kept zero p r h = h
  turn-Kept (suc n) p r h =
      let here = record p { ready = n } in
      let clear : p.discarded ≡ [] = elim h.gone [
        | inl none_ ↦ none_
        | inr all ↦ absurd (omega (arith, r, all.0))
      ] in
      let kept : IsKept m here = record {
        order = h.order;
        gone = inl clear;
        limit = h.limit;
        bound = h.bound;
      } in
      if_case (IsKept m) p.running _ _
        (λ e. take_front-Kept p.thread_main_cbs here refl (clear, kept))
        (λ e. record { order = h.order; gone = inl clear; limit = h.limit; bound = h.bound })

  stop-Kept : (p : ThreadPool) → IsKept m p → IsKept m (stop p)
  unfolding stop broadcast_empty
  stop-Kept p h = record {
    order = h.order;
    gone = elim h.gone [
      | inl none_ ↦ inl none_
      | inr all ↦ inr (omega (arith, all.0, all.1), refl)
    ];
    limit = h.limit;
    bound = h.bound;
  }

  joinall_joined-Kept : (p : ThreadPool) → IsKept m p → IsKept m (joinall_joined p)
  unfolding joinall_joined
  joinall_joined-Kept p h =
      if_case (IsKept m) (all_left p) _ _
        (λ e. record { order = h.order; gone = h.gone; limit = h.limit; bound = h.bound }) (λ e. h)

  stop_joined-Kept : (p : ThreadPool) → IsKept m p → IsKept m (stop_joined p)
  unfolding stop_joined
  stop_joined-Kept p h =
      if_case (IsKept m) (p.stopping && all_left p) _ _
        (λ e. record {
          order = ap (◌++◌ p.taken) (append-nil (p.discarded ++ p.thread_main_cbs)) ∙ h.order;
          gone = inr (ground (arith, e), ground (arith, e));
          limit = h.limit;
          bound = inr (omega arith);
        })
        (λ e. h)

  step-Kept : (p : ThreadPool) (s : Step) → IsKept m p → IsKept m (step p s)
  unfolding step signal_full
  step-Kept p (runs_task cb n) h = begin_task-Kept cb n p h
  step-Kept p resumes h = resume-Kept p.woken p h
  step-Kept p turns h = turn-Kept p.ready p refl h
  step-Kept p stops h = stop-Kept p h
  step-Kept p stop_joins h = stop_joined-Kept p h
  step-Kept p joinall_joins h = joinall_joined-Kept p h
  step-Kept p producer_wakes h = wake_producer-Kept p.waiting p h
  step-Kept p worker_wakes h = signal_empty-Kept p h

  run-Kept : (ss : List Step) (p : ThreadPool) → IsKept m p → IsKept m (steps p ss)
  unfolding steps
  run-Kept [] p h = h
  run-Kept (s ∷ ss) p h = run-Kept ss (step p s) (step-Kept p s h)

start-Kept : (n m : ℕ) → IsKept m (start n m)
unfolding start
start-Kept n m = record { order = refl; gone = inl refl; limit = refl; bound = inr (omega arith) }

-- However producers, workers, `stop` and `joinall` run: the tasks that workers have taken, then
-- those that `stop` has discarded, then those in the queue are the tasks added, in their order; a
-- task has been discarded only when no worker is left to take one; and where a maximum is set the
-- queue never holds more.
pub steps-tasks :
    (n m : ℕ) (ss : List Step)
    → let p = steps (start n m) ss in
      (p.taken ++ (p.discarded ++ p.thread_main_cbs) ≡ p.added)
      × ((p.discarded ≡ []) ⊎ ((p.ready ≡ 0) × (p.asleep ≡ 0)))
      × ((m ≡ 0) ⊎ (length p.thread_main_cbs ≤ m))
steps-tasks n m ss =
    let h = run-Kept m ss (start n m) (start-Kept n m) in (h.order, h.gone, h.bound)
