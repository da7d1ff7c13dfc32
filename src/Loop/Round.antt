-- ===== src/Loop/Round.antt =====
-- One round of src/EventLoop.cc makes every call that was in the queue when `poll` returned.
use annety.Prelude.{
  ℕ, ◌≡◌, refl, sym, ap, ◌∙◌, subst, true, List, [], ◌∷◌, ◌++◌, map, append_assoc, append-nil,
  Bool-cases, inl, inr, length, arith,
}
use annety.Loop.{
  handling, calling, EventLoop, Act, queues, runs, quits, advances, push_back, act, acts, advance,
  step, steps, queue_in_own_loop, run_in_own_loop, quit, wakeup, swap_functors,
}
use annety.Loop.Kept.{acts_phase}

-- The calls that acts of the own thread queue, one call's and all calls'.
abbrev pub queued_in : List Act → List ℕ
queued_in [] = []
queued_in (queues f ∷ cs) = f ∷ queued_in cs
queued_in (runs f ∷ cs) = queued_in cs
queued_in (quits ∷ cs) = queued_in cs

abbrev pub queued_by : List (List Act) → List ℕ
queued_by [] = []
queued_by (cs ∷ css) = queued_in cs ++ queued_by css

queued_first : (a : Act) (cs : List Act) → queued_in (a ∷ []) ++ queued_in cs ≡ queued_in (a ∷ cs)
queued_first (queues f) cs = refl
queued_first (runs f) cs = refl
queued_first quits cs = refl

module _ {S : Type 0} (write read : S → S) where
  act_called : (a : Act) (l : EventLoop S) → (act write read true a l).called ≡ l.called
  unfolding act queue_in_own_loop run_in_own_loop quit push_back wakeup
  act_called (queues f) l = elim (Bool-cases l.calling_wakeup_functors) [
    | inl calls ↦ simp (calls) refl
    | inr no_call ↦ simp (no_call) refl
  ]
  act_called (runs f) l = refl
  act_called quits l = refl

  acts_called : (cs : List Act) (l : EventLoop S) → (acts write read cs l).called ≡ l.called
  unfolding acts
  acts_called [] l = refl
  acts_called (a ∷ cs) l = acts_called cs (act write read true a l) ∙ act_called a l

  one_called :
      (f : ℕ) (fs : List ℕ) (cs : List Act) (l : EventLoop S)
      → l.phase ≡ calling (f ∷ fs)
      → let r = step write read l (advances cs) in
        (r.called ≡ l.called ++ (f ∷ [])) × (r.phase ≡ calling fs)
  unfolding step advance
  one_called f fs cs l e = rw (e) (acts_called cs _, acts_phase write read cs _)

  -- What the acts queue is put behind the queue.
  act_functors :
      (a : Act) (l : EventLoop S)
      → (act write read true a l).wakeup_functors ≡ l.wakeup_functors ++ queued_in (a ∷ [])
  unfolding act queue_in_own_loop run_in_own_loop quit push_back wakeup
  act_functors (queues f) l = elim (Bool-cases l.calling_wakeup_functors) [
    | inl calls ↦ simp (calls) refl
    | inr no_call ↦ simp (no_call) refl
  ]
  act_functors (runs f) l = sym (append-nil l.wakeup_functors)
  act_functors quits l = sym (append-nil l.wakeup_functors)

  acts_functors :
      (cs : List Act) (l : EventLoop S)
      → (acts write read cs l).wakeup_functors ≡ l.wakeup_functors ++ queued_in cs
  unfolding acts
  acts_functors [] l = sym (append-nil l.wakeup_functors)
  acts_functors (a ∷ cs) l =
      acts_functors cs (act write read true a l)
      ∙ ap (λ q. q ++ queued_in cs) (act_functors a l)
      ∙ append_assoc l.wakeup_functors (queued_in (a ∷ [])) (queued_in cs)
      ∙ ap (◌++◌ l.wakeup_functors) (queued_first a cs)

  one_functors :
      (f : ℕ) (fs : List ℕ) (cs : List Act) (l : EventLoop S)
      → l.phase ≡ calling (f ∷ fs)
      → (step write read l (advances cs)).wakeup_functors ≡ l.wakeup_functors ++ queued_in cs
  unfolding step advance
  one_functors f fs cs l e = rw (e) (acts_functors cs _)

  calls :
      (fs : List ℕ) (css : List (List Act)) (l : EventLoop S)
      → length css ≡ length fs
      → l.phase ≡ calling fs
      → let r = steps write read l (map advances css) in
        (r.called ≡ l.called ++ fs)
        × (r.wakeup_functors ≡ l.wakeup_functors ++ queued_by css)
        × (r.phase ≡ calling [])
  unfolding steps
  calls [] [] l n e = (sym (append-nil l.called), sym (append-nil l.wakeup_functors), e)
  calls [] (cs ∷ css) l n e = absurd (omega (arith, n))
  calls (f ∷ fs) [] l n e = absurd (omega (arith, n))
  calls (f ∷ fs) (cs ∷ css) l n e =
      let one = one_called f fs cs l e in
      let rest = calls fs css (step write read l (advances cs)) (omega (arith, n)) one.1 in
      (
        rest.0 ∙ ap (λ c. c ++ fs) one.0 ∙ append_assoc l.called (f ∷ []) fs,
        rest.1
            ∙ ap (λ q. q ++ queued_by css) (one_functors f fs cs l e)
            ∙ append_assoc l.wakeup_functors (queued_in cs) (queued_by css),
        rest.2,
      )

  queue_taken :
      (cs : List Act) (l : EventLoop S)
      → l.phase ≡ handling
      → step write read l (advances cs) ≡ swap_functors write read l
  unfolding step advance
  queue_taken cs l e = rw (e) refl

  -- When `poll` has returned, the own thread's next steps, one and one more for each call in the
  -- queue, make all of these calls and no other, whatever each of them does with the loop, and
  -- what stands in the queue after them is what the calls themselves have queued, in that order.
  pub round_called :
      (css : List (List Act)) (l : EventLoop S)
      → l.phase ≡ handling
      → length css ≡ length l.wakeup_functors
      → let r = steps write read l (advances [] ∷ map advances css) in
        (r.called ≡ l.called ++ l.wakeup_functors)
        × (r.wakeup_functors ≡ queued_by css)
        × (r.phase ≡ calling [])
  unfolding steps swap_functors
  round_called css l e n =
      subst
        (λ m.
          let r = steps write read m (map advances css) in
          (r.called ≡ l.called ++ l.wakeup_functors)
          × (r.wakeup_functors ≡ queued_by css)
          × (r.phase ≡ calling []))
        (sym (queue_taken [] l e)) (calls l.wakeup_functors css (swap_functors write read l) n refl)
