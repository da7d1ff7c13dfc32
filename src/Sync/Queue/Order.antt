-- ===== src/Sync/Queue/Order.antt =====
-- The order and the bound of include/synchronization/BlockingQueue.h.
use annety.Prelude.{
  ℕ, ◌-◌, ◌≤◌, ◌<◌, ◌≡◌, refl, sym, ap, ◌∙◌, inl, inr, Bool, false, List, [], ◌∷◌, ◌++◌, arith,
  length, Bool-cases, ltb, leb, not_leb→lt, length-append, append_assoc, append-nil, Option, some,
  none,
}
use annety.Sync.Queue.{
  BlockingQueue, Stepped, make, full_with_locked, signal_empty, signal_full, push, pop_front, pop,
  resume_push, resume_pop, Step, pushes, pops, resumes_push, resumes_pop, producer_wakes,
  consumer_wakes, at_index, step, steps,
}

-- The queue after a step, and the limit, which never changes.
record Kept {T : Type 0} (q : BlockingQueue T) (s : Stepped T) : Type 0 where
  order : s.popped ++ s.next.queue ≡ q.queue ++ s.pushed
  limit : s.next.max_size ≡ q.max_size
  bound : (m : ℕ) → q.max_size ≡ some m → length q.queue ≤ m → length s.next.queue ≤ m

module _ {T : Type 0} where
  idle : (q : BlockingQueue T) → Kept q (record { next = q; pushed = []; popped = [] })
  idle q = record { order = sym (append-nil q.queue); limit = refl; bound = λ m h le. le }

  signal_empty-queue :
      (q : BlockingQueue T)
      → ((signal_empty q).queue ≡ q.queue) × ((signal_empty q).max_size ≡ q.max_size)
  unfolding signal_empty
  signal_empty-queue q = elim (Bool-cases (ltb 0 q.waiting_consumers)) [
    | inl some_ ↦ simp (some_) (refl, refl)
    | inr none_ ↦ simp (none_) (refl, refl)
  ]

  room :
      (q : BlockingQueue T) (m : ℕ)
      → full_with_locked q ≡ false
      → q.max_size ≡ some m
      → length q.queue < m
  unfolding full_with_locked
  room q m free is = not_leb→lt m (length q.queue) (
      sym (ap (λ o. elim o as (λ _. Bool) [ none ↦ false | some m ↦ leb m (length q.queue) ]) is)
      ∙ free)

  push-Kept : (x : T) (q : BlockingQueue T) → Kept q (push x q)
  unfolding push
  push-Kept x q = elim (Bool-cases (full_with_locked q)) [
    | inl full ↦
        simp (full)
          (record { order = sym (append-nil q.queue); limit = refl; bound = λ m h le. le })
    | inr free ↦
        let after = signal_empty-queue (record q { queue = q.queue ++ (x ∷ []) }) in
        simp (free) (record {
          order = after.0;
          limit = after.1;
          bound = λ m h le.
              omega (arith, ap length after.0, length-append q.queue (x ∷ []), room q m free h);
        })
  ]

  pop_front-Kept :
      (i : ℕ) (xs : List T) (q : BlockingQueue T) → q.queue ≡ xs → Kept q (pop_front i xs q)
  unfolding pop_front signal_full
  pop_front-Kept i [] q h = record {
    order = sym (append-nil q.queue);
    limit = refl;
    bound = λ m e le. le;
  }
  pop_front-Kept i (x ∷ xs) q h = record {
    order = sym h ∙ sym (append-nil q.queue);
    limit = refl;
    bound = λ m e le. omega (arith, ap length h);
  }

  resume_push-Kept : (i : ℕ) (xs : List T) (q : BlockingQueue T) → Kept q (resume_push i xs q)
  unfolding resume_push
  resume_push-Kept i [] q = idle q
  resume_push-Kept i (x ∷ xs) q =
      let k = push-Kept x (record q { woken_producers = _ }) in
      record { order = k.order; limit = k.limit; bound = k.bound }

  resume_pop-Kept : (i : ℕ) (q : BlockingQueue T) → Kept q (resume_pop i q)
  unfolding resume_pop pop
  resume_pop-Kept i q = elim (Bool-cases (ltb 0 q.woken_consumers)) [
    | inl some_ ↦
        let k =
          pop_front-Kept i q.queue (record q { woken_consumers = q.woken_consumers - 1 }) refl in
        simp (some_) (record { order = k.order; limit = k.limit; bound = k.bound })
    | inr none_ ↦ simp (none_) (idle q)
  ]

  step-Kept : (q : BlockingQueue T) (s : Step T) → Kept q (step q s)
  unfolding step pop signal_full
  step-Kept q (pushes x) = push-Kept x q
  step-Kept q (pops i) = pop_front-Kept i q.queue q refl
  step-Kept q (resumes_push i) = resume_push-Kept i (at_index i q.woken_producers) q
  step-Kept q (resumes_pop i) = resume_pop-Kept i q
  step-Kept q (producer_wakes i) = record {
    order = sym (append-nil q.queue);
    limit = refl;
    bound = λ m e le. le;
  }
  step-Kept q consumer_wakes =
      let after = signal_empty-queue q in
      record {
        order = after.0 ∙ sym (append-nil q.queue);
        limit = after.1;
        bound = λ m e le. omega (arith, ap length after.0);
      }

  steps-Kept : (q : BlockingQueue T) (ss : List (Step T)) → Kept q (steps q ss)
  unfolding steps
  steps-Kept q [] = idle q
  steps-Kept q (s ∷ ss) =
      let one = step-Kept q s in
      let rest = steps-Kept (step q s).next ss in
      let a = step q s in
      let b = steps a.next ss in
      record {
        order =
            append_assoc a.popped b.popped b.next.queue
            ∙ ap (◌++◌ a.popped) rest.order
            ∙ sym (append_assoc a.popped a.next.queue b.pushed)
            ∙ ap (λ l. l ++ b.pushed) one.order
            ∙ append_assoc q.queue a.pushed b.pushed;
        limit = rest.limit ∙ one.limit;
        bound = λ m e le. rest.bound m (one.limit ∙ e) (one.bound m e le);
      }

  -- However the threads run, what came out of a new queue followed by what is in it is what went
  -- in, in that order.
  pub steps-fifo :
      (max_size : Option ℕ) (ss : List (Step T))
      → let r = steps (make max_size) ss in r.popped ++ r.next.queue ≡ r.pushed
  unfolding make
  steps-fifo max_size ss = (steps-Kept (make max_size) ss).order

  -- However the threads run, a new bounded queue never holds more than its limit.
  pub steps-bounded :
      (m : ℕ) (ss : List (Step T)) → length (steps (make (some m)) ss).next.queue ≤ m
  unfolding make
  steps-bounded m ss = (steps-Kept (make (some m)) ss).bound m refl (omega arith)
