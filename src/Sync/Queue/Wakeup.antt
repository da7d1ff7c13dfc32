-- ===== src/Sync/Queue/Wakeup.antt =====
-- No wakeup of include/synchronization/BlockingQueue.h is lost.
use annety.Prelude.{
  ℕ, suc, ◌+◌, ◌-◌, ◌≤◌, ◌<◌, ◌≡◌, refl, sym, ap, ◌∙◌, ◌⊎◌, inl, inr, Bool, false, List, [], ◌∷◌,
  ◌++◌, arith, length, take, drop, Bool-cases, ltb, leb, ltb→lt, leb→le, length-append, length-take,
  length-drop, some, none,
}
use annety.Sync.Queue.{
  BlockingQueue, make, full_with_locked, signal_empty, signal_full, push, pop_front, pop,
  resume_push, resume_pop, Step, pushes, pops, resumes_push, resumes_pop, producer_wakes,
  consumer_wakes, without, at_index, choose, step, steps,
}

-- Whenever a consumer waits, every element in the queue has a woken consumer coming for it;
-- whenever a producer waits in a bounded queue, every free place has a woken producer coming.
pub record Served {T : Type 0} (m : ℕ) (q : BlockingQueue T) : Type 0 where
  pub limit : q.max_size ≡ some m
  pub consumers : (q.waiting_consumers ≡ 0) ⊎ (length q.queue ≤ q.woken_consumers)
  pub producers : (length q.waiting_producers ≡ 0) ⊎ (m ≤ length q.queue + length q.woken_producers)

module _ {T : Type 0} where
  length-without :
      (i : ℕ) (xs : List T) → length (without i xs) + length (at_index i xs) ≡ length xs
  length-without i xs = ground (
    arith,
    length-append (take i xs) (drop (suc i) xs),
    length-take i xs,
    length-drop (suc i) xs,
    length-take 1 (drop i xs),
    length-drop i xs,
  )

  length-chosen : (i : ℕ) (xs : List T) → 0 < length xs → length (at_index (choose i xs) xs) ≡ 1
  length-chosen i xs h =
      ground (arith, length-take 1 (drop (choose i xs) xs), length-drop (choose i xs) xs)

  -- A free place that no producer is coming for yet, `d` at most.
  abbrev Owed : ℕ → ℕ → BlockingQueue T → Type 0
  Owed m d q =
      (length q.waiting_producers ≡ 0) ⊎ (m ≤ length q.queue + length q.woken_producers + d)

  signal_full-Owed :
      (m i : ℕ) (q : BlockingQueue T) → Owed m 1 q → let r = signal_full i q in Owed m 0 r
  unfolding signal_full
  signal_full-Owed m i q (inl none_) =
      inl (omega (arith, length-without (choose i q.waiting_producers) q.waiting_producers))
  signal_full-Owed m i q (inr le) = elim (Bool-cases (ltb 0 (length q.waiting_producers))) [
    | inr none_ ↦
        inl
          (ground (arith, none_, length-without (choose i q.waiting_producers) q.waiting_producers))
    | inl some_ ↦ inr (
        omega (
          arith,
          length-chosen i q.waiting_producers (ltb→lt _ _ some_),
          length-append q.woken_producers
              (at_index (choose i q.waiting_producers) q.waiting_producers),
        ))
  ]

  weaken : (m : ℕ) (q : BlockingQueue T) → Served m q → Owed m 1 q
  weaken m q h = elim h.producers [ inl none_ ↦ inl none_ | inr le ↦ inr (omega arith) ]

  exactly :
      (m : ℕ) (q : BlockingQueue T)
      → Owed m 0 q
      → (length q.waiting_producers ≡ 0) ⊎ (m ≤ length q.queue + length q.woken_producers)
  exactly m q (inl none_) = inl none_
  exactly m q (inr le) = inr (omega arith)

  full_with_locked-le :
      (m : ℕ) (q : BlockingQueue T)
      → q.max_size ≡ some m
      → full_with_locked q ≡ leb m (length q.queue)
  unfolding full_with_locked
  full_with_locked-le m q is =
      ap (λ o. elim o as (λ x. Bool) [ none ↦ false | some k ↦ leb k (length q.queue) ]) is

  signal_empty-Served :
      (m d : ℕ) (q : BlockingQueue T)
      → q.max_size ≡ some m
      → (q.waiting_consumers ≡ 0) ⊎ (length q.queue ≤ q.woken_consumers + 1)
      → (length q.waiting_producers ≡ 0) ⊎ (m ≤ length q.queue + length q.woken_producers)
      → Served m (signal_empty q)
  unfolding signal_empty
  signal_empty-Served m d q is c p = elim (Bool-cases (ltb 0 q.waiting_consumers)) [
    | inl some_ ↦ simp (some_) (record {
      limit = is;
      consumers = elim c [ inl none_ ↦ absurd (ground (arith, some_, none_)) | inr le ↦ inr le ];
      producers = p;
    })
    | inr none_ ↦
        simp (none_) (record { limit = is; consumers = inl (ground (arith, none_)); producers = p })
  ]

  push-Served :
      (m : ℕ) (x : T) (q : BlockingQueue T)
      → q.max_size ≡ some m
      → (q.waiting_consumers ≡ 0) ⊎ (length q.queue ≤ q.woken_consumers)
      → Owed m 1 q
      → Served m (push x q).next
  unfolding push
  push-Served m x q is c p = elim (Bool-cases (full_with_locked q)) [
    | inl full ↦
        let over : m ≤ length q.queue = leb→le _ _ (sym (full_with_locked-le m q is) ∙ full) in
        simp (full) (record { limit = is; consumers = c; producers = inr (omega (arith, over)) })
    | inr free ↦
        let more : length (q.queue ++ (x ∷ [])) ≡ length q.queue + 1 =
          length-append q.queue (x ∷ []) in
        simp (free) (
          signal_empty-Served m 0 (record q { queue = q.queue ++ (x ∷ []) }) is
            (elim c [ inl none_ ↦ inl none_ | inr le ↦ inr (omega (arith, more)) ])
            (elim p [ inl none_ ↦ inl none_ | inr le ↦ inr (omega (arith, more)) ]))
  ]

  pop_front-Served :
      (m i : ℕ) (xs : List T) (q : BlockingQueue T)
      → q.queue ≡ xs
      → q.max_size ≡ some m
      → (q.waiting_consumers ≡ 0) ⊎ (length q.queue ≤ q.woken_consumers + 1)
      → (length q.waiting_producers ≡ 0) ⊎ (m ≤ length q.queue + length q.woken_producers)
      → Served m (pop_front i xs q).next
  unfolding pop_front
  pop_front-Served m i [] q e is c p = record {
    limit = is;
    consumers = inr (omega (arith, ap length e));
    producers = p;
  }
  pop_front-Served m i (x ∷ xs) q e is c p =
      let taken : BlockingQueue T = record q { queue = xs } in
      let few : length q.queue ≡ suc (length xs) = ap length e in
      let owed : Owed m 1 taken = elim p [
        | inl none_ ↦ inl none_
        | inr le ↦ inr (omega (arith, few))
      ] in
      unfold signal_full in
      record {
        limit = is;
        consumers = elim c [ inl none_ ↦ inl none_ | inr le ↦ inr (omega (arith, few)) ];
        producers = exactly m (signal_full i taken) (signal_full-Owed m i taken owed);
      }

  resume_push-Served :
      (m i : ℕ) (xs : List T) (q : BlockingQueue T)
      → length (without i q.woken_producers) + length xs ≡ length q.woken_producers
      → length xs ≤ 1
      → Served m q
      → Served m (resume_push i xs q).next
  unfolding resume_push
  resume_push-Served m i [] q e le h = h
  resume_push-Served m i (x ∷ xs) q e le h =
      push-Served m x (record q { woken_producers = without i q.woken_producers }) h.limit
        h.consumers (elim h.producers [ inl none_ ↦ inl none_ | inr enough ↦ inr (omega arith) ])

  resume_pop-Served : (m i : ℕ) (q : BlockingQueue T) → Served m q → Served m (resume_pop i q).next
  unfolding resume_pop pop
  resume_pop-Served m i q h = elim (Bool-cases (ltb 0 q.woken_consumers)) [
    | inr none_ ↦ simp (none_) h
    | inl some_ ↦
        let positive : 0 < q.woken_consumers = ltb→lt _ _ some_ in
        simp (some_) (
          pop_front-Served m i q.queue (record q { woken_consumers = q.woken_consumers - 1 }) refl
            h.limit
            (elim h.consumers [ inl none_ ↦ inl none_ | inr le ↦ inr (omega (arith, positive)) ])
            h.producers)
  ]

  step-Served : (m : ℕ) (q : BlockingQueue T) (s : Step T) → Served m q → Served m (step q s).next
  unfolding step pop
  step-Served m q (pushes x) h = push-Served m x q h.limit h.consumers (weaken m q h)
  step-Served m q (pops i) h =
      pop_front-Served m i q.queue q refl h.limit
        (elim h.consumers [ inl none_ ↦ inl none_ | inr le ↦ inr (omega arith) ]) h.producers
  step-Served m q (resumes_push i) h =
      resume_push-Served m i (at_index i q.woken_producers) q (length-without i q.woken_producers)
        (ground (arith, length-take 1 (drop i q.woken_producers))) h
  step-Served m q (resumes_pop i) h = resume_pop-Served m i q h
  step-Served m q (producer_wakes i) h =
      unfold signal_full in
      record {
        limit = h.limit;
        consumers = h.consumers;
        producers = exactly m (signal_full i q) (signal_full-Owed m i q (weaken m q h));
      }
  step-Served m q consumer_wakes h =
      signal_empty-Served m 0 q h.limit
        (elim h.consumers [ inl none_ ↦ inl none_ | inr le ↦ inr (omega arith) ]) h.producers

  all_steps :
      (m : ℕ) (q : BlockingQueue T) (ss : List (Step T)) → Served m q → Served m (steps q ss).next
  unfolding steps
  all_steps m q [] h = h
  all_steps m q (s ∷ ss) h = all_steps m (step q s).next ss (step-Served m q s h)

  -- However the threads run over a new queue of limit `m`: whenever a consumer waits, every
  -- element in the queue has a woken consumer coming for it; and whenever a producer waits, every
  -- free place has a woken producer coming for it. So no signal is lost.
  pub steps-Served : (m : ℕ) (ss : List (Step T)) → Served m (steps (make (some m)) ss).next
  unfolding make
  steps-Served m ss =
      all_steps m (make (some m)) ss
        (record { limit = refl; consumers = inl refl; producers = inl refl })

  -- However the threads run over a new queue with a positive limit: when no thread is on its way
  -- back from a wait, consumers and producers are not both waiting.
  pub steps-no_deadlock :
      (m : ℕ) (ss : List (Step T))
      → let q = (steps (make (some m)) ss).next in
        0 < m
        → q.woken_consumers ≡ 0
        → length q.woken_producers ≡ 0
        → (q.waiting_consumers ≡ 0) ⊎ (length q.waiting_producers ≡ 0)
  steps-no_deadlock m ss positive c p =
      let h = steps-Served m ss in
      elim h.consumers [
        | inl none_ ↦ inl none_
        | inr le ↦ elim h.producers [ inl none_ ↦ inr none_ | inr full ↦ absurd (omega arith) ]
      ]
