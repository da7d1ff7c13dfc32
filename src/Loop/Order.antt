-- ===== src/Loop/Order.antt =====
-- The calls handed to src/EventLoop.cc run once each, in their order.
use annety.Prelude.{
  ℕ, zero, suc, ◌≡◌, refl, sym, ap, ◌∙◌, Bool, true, false, List, [], ◌∷◌, ◌++◌, append_assoc,
  append-nil, Bool-cases, inl, inr,
}
use annety.Loop.{
  Phase, before, top, polling, handling, ended, calling, EventLoop, make, Act, queues, runs, quits,
  Step, other, wakes, sets_up, handles, reads, advances, push_back, act, acts, advance, set_up,
  handle, read_in, wake_pending, step, steps, queue_in_own_loop, run_in_own_loop, quit, handle_read,
  wakeup, swap_functors,
}

-- The calls taken from the queue that are still to be made.
abbrev pub to_call : Phase → List ℕ
to_call before = []
to_call top = []
to_call polling = []
to_call handling = []
to_call (calling fs) = fs
to_call ended = []

-- Those made, in the hand of the loop and in the queue are those queued.
abbrev pub Orders : List ℕ → List ℕ → List ℕ → List ℕ → Type 0
Orders called hand pending queued = (called ++ hand) ++ pending ≡ queued

pushed : (c h p q : List ℕ) (f : ℕ) → Orders c h p q → Orders c h (p ++ (f ∷ [])) (q ++ (f ∷ []))
pushed c h p q f e = sym (append_assoc (c ++ h) p (f ∷ [])) ∙ ap (λ l. l ++ (f ∷ [])) e

swapped : (c p q : List ℕ) → Orders c [] p q → Orders c p [] q
swapped c p q e = append-nil (c ++ p) ∙ ap (λ l. l ++ p) (sym (append-nil c)) ∙ e

made : (c fs p q : List ℕ) (f : ℕ) → Orders c (f ∷ fs) p q → Orders (c ++ (f ∷ [])) fs p q
made c fs p q f e = ap (λ l. l ++ p) (append_assoc c (f ∷ []) fs) ∙ e

abbrev pub InOrder : {S : Type 0} → EventLoop S → Type 0
InOrder l = Orders l.called (to_call l.phase) l.wakeup_functors l.queued

module _ {S : Type 0} (write read : S → S) where
  queue_in_own_loop-InOrder :
      (own : Bool) (f : ℕ) (l : EventLoop S)
      → InOrder l
      → InOrder (queue_in_own_loop write read own f l)
  unfolding queue_in_own_loop push_back wakeup
  queue_in_own_loop-InOrder true f l h = elim (Bool-cases l.calling_wakeup_functors) [
    | inl calls ↦ simp (calls) (pushed l.called (to_call l.phase) l.wakeup_functors l.queued f h)
    | inr no_call ↦
        simp (no_call) (pushed l.called (to_call l.phase) l.wakeup_functors l.queued f h)
  ]
  queue_in_own_loop-InOrder false f l h =
      pushed l.called (to_call l.phase) l.wakeup_functors l.queued f h

  act-InOrder :
      (own : Bool) (a : Act) (l : EventLoop S) → InOrder l → InOrder (act write read own a l)
  unfolding act quit run_in_own_loop
  act-InOrder own (queues f) l h = queue_in_own_loop-InOrder own f l h
  act-InOrder true (runs f) l h = h
  act-InOrder false (runs f) l h = queue_in_own_loop-InOrder false f l h
  act-InOrder true quits l h = h
  act-InOrder false quits l h = h

  acts-InOrder : (cs : List Act) (l : EventLoop S) → InOrder l → InOrder (acts write read cs l)
  unfolding acts
  acts-InOrder [] l h = h
  acts-InOrder (a ∷ cs) l h = acts-InOrder cs (act write read true a l) (act-InOrder true a l h)

  -- In a phase `p` that the loop is in.
  abbrev In : Phase → EventLoop S → Type 0
  In p l = Orders l.called (to_call p) l.wakeup_functors l.queued

  advance-InOrder :
      (p : Phase) (cs : List Act) (l : EventLoop S)
      → l.phase ≡ p
      → In p l
      → InOrder (advance write read p cs l)
  unfolding advance swap_functors
  advance-InOrder before cs l e h = h
  advance-InOrder top cs l e h = elim (Bool-cases l.quit_) [
    | inl stop ↦ simp (stop) h
    | inr go_on ↦ simp (go_on) h
  ]
  advance-InOrder polling cs l e h = h
  advance-InOrder handling cs l e h = swapped l.called l.wakeup_functors l.queued h
  advance-InOrder (calling []) cs l e h = h
  advance-InOrder (calling (f ∷ fs)) cs l e h =
      acts-InOrder cs _ (made l.called fs l.wakeup_functors l.queued f h)
  advance-InOrder ended cs l e h = rw (e) h

  set_up-InOrder :
      (p : Phase) (a : Act) (l : EventLoop S) → InOrder l → InOrder (set_up write read p a l)
  unfolding set_up
  set_up-InOrder before a l h = act-InOrder true a l h
  set_up-InOrder top a l h = h
  set_up-InOrder polling a l h = h
  set_up-InOrder handling a l h = h
  set_up-InOrder (calling fs) a l h = h
  set_up-InOrder ended a l h = h

  handle-InOrder :
      (p : Phase) (a : Act) (l : EventLoop S) → InOrder l → InOrder (handle write read p a l)
  unfolding handle
  handle-InOrder before a l h = h
  handle-InOrder top a l h = h
  handle-InOrder polling a l h = h
  handle-InOrder handling a l h = act-InOrder true a l h
  handle-InOrder (calling fs) a l h = h
  handle-InOrder ended a l h = h

  read_in-InOrder : (p : Phase) (l : EventLoop S) → InOrder l → InOrder (read_in write read p l)
  unfolding read_in handle_read
  read_in-InOrder before l h = h
  read_in-InOrder top l h = h
  read_in-InOrder polling l h = h
  read_in-InOrder handling l h = h
  read_in-InOrder (calling fs) l h = h
  read_in-InOrder ended l h = h

  wake_pending-InOrder :
      (n : ℕ) (l : EventLoop S) → InOrder l → InOrder (wake_pending write read n l)
  unfolding wake_pending wakeup
  wake_pending-InOrder zero l h = h
  wake_pending-InOrder (suc n) l h = h

  step-InOrder : (l : EventLoop S) (s : Step) → InOrder l → InOrder (step write read l s)
  unfolding step
  step-InOrder l (other a) h = act-InOrder false a l h
  step-InOrder l wakes h = wake_pending-InOrder l.posting l h
  step-InOrder l (sets_up a) h = set_up-InOrder l.phase a l h
  step-InOrder l (handles a) h = handle-InOrder l.phase a l h
  step-InOrder l reads h = read_in-InOrder l.phase l h
  step-InOrder l (advances cs) h = advance-InOrder l.phase cs l refl h

  run-InOrder : (ss : List Step) (l : EventLoop S) → InOrder l → InOrder (steps write read l ss)
  unfolding steps
  run-InOrder [] l h = h
  run-InOrder (s ∷ ss) l h = run-InOrder ss (step write read l s) (step-InOrder l s h)

  -- However the loop's thread and the others take their steps, the calls made so far, then those
  -- taken from the queue, then those in the queue are, in this order, all calls that were ever
  -- queued: each is made once, and in the order of the queue.
  pub steps-InOrder : (s : S) (ss : List Step) → InOrder (steps write read (make s) ss)
  unfolding make
  steps-InOrder s ss = run-InOrder ss (make s) refl
