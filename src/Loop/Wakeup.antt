-- ===== src/Loop/Wakeup.antt =====
-- No wakeup of src/EventLoop.cc is lost: the loop does not sleep in `poll` over a call or over
-- `quit_`.
use annety.Prelude.{
  ℕ, zero, suc, ◌<◌, ◌≡◌, refl, sym, subst, Bool, true, false, List, [], ◌∷◌, ◌++◌, All, Bool-cases,
  ◌⊎◌, inl, inr, arith,
}
use annety.Loop.{
  Phase, before, top, polling, handling, ended, calling, EventLoop, make, Act, queues, runs, quits,
  Step, other, wakes, sets_up, handles, reads, advances, push_back, act, acts, advance, set_up,
  handle, read_in, wake_pending, step, steps, queue_in_own_loop, run_in_own_loop, quit, handle_read,
  wakeup, swap_functors,
}
use annety.Loop.Kept.{act_phase, acts_phase}

-- Before `loop` the own thread queues nothing, which would not wake the loop.
abbrev pub IsQuiet : Step → Type 0
IsQuiet (sets_up (queues f)) = true ≡ false
IsQuiet (sets_up (runs f)) = Unit {0}
IsQuiet (sets_up quits) = Unit {0}
IsQuiet (other a) = Unit {0}
IsQuiet wakes = Unit {0}
IsQuiet (handles a) = Unit {0}
IsQuiet reads = Unit {0}
IsQuiet (advances cs) = Unit {0}

-- The eventfd: a write makes it readable.
module _ {S : Type 0} (write read : S → S) (readable : S → Bool)
    (written : (s : S) → readable (write s) ≡ true) where
  -- `poll` will return for the eventfd, or another thread is about to write to it.
  abbrev pub Awake : EventLoop S → Type 0
  Awake l = (readable l.wakeup_socket ≡ true) ⊎ (0 < l.posting)

  -- No call is in the queue, or the loop will wake.
  abbrev pub Served : EventLoop S → Type 0
  Served l = (l.wakeup_functors ≡ []) ⊎ Awake l

  abbrev pub Stops : EventLoop S → Type 0
  Stops l = (l.quit_ ≡ false) ⊎ Awake l

  abbrev Woken : Phase → EventLoop S → Type 0
  Woken before l = Served l
  Woken top l = Served l
  Woken polling l = Served l × Stops l
  Woken handling l = Unit {0}
  Woken (calling fs) l = Served l
  Woken ended l = Unit {0}

  -- `calling_wakeup_functors_` while calls are made.
  abbrev Flag : Phase → Bool → Type 0
  Flag before b = Unit {0}
  Flag top b = Unit {0}
  Flag polling b = Unit {0}
  Flag handling b = Unit {0}
  Flag (calling fs) b = b ≡ true
  Flag ended b = Unit {0}

  abbrev At : Phase → EventLoop S → Type 0
  At p l = Flag p l.calling_wakeup_functors × Woken p l

  abbrev Good : EventLoop S → Type 0
  Good l = At l.phase l

  Awake-Woken : (p : Phase) (l : EventLoop S) → Awake l → Woken p l
  Awake-Woken before l h = inr h
  Awake-Woken top l h = inr h
  Awake-Woken polling l h = (inr h, inr h)
  Awake-Woken handling l h = tt
  Awake-Woken (calling fs) l h = inr h
  Awake-Woken ended l h = tt

  other-At : (p : Phase) (a : Act) (l : EventLoop S) → At p l → At p (act write read false a l)
  unfolding act queue_in_own_loop run_in_own_loop quit push_back
  other-At p (queues f) l h = (h.0, Awake-Woken p _ (inr (omega arith)))
  other-At p (runs f) l h = (h.0, Awake-Woken p _ (inr (omega arith)))
  other-At p quits l h = (h.0, Awake-Woken p _ (inr (omega arith)))

  other_phase : (a : Act) (l : EventLoop S) → (act write read false a l).phase ≡ l.phase
  unfolding act queue_in_own_loop run_in_own_loop quit push_back
  other_phase (queues f) l = refl
  other_phase (runs f) l = refl
  other_phase quits l = refl

  own-Calling :
      (fs : List ℕ) (a : Act) (l : EventLoop S)
      → At (calling fs) l
      → At (calling fs) (act write read true a l)
  unfolding act queue_in_own_loop run_in_own_loop quit push_back wakeup
  own-Calling fs (queues f) l h = simp (h.0) (refl, inr (inl (written l.wakeup_socket)))
  own-Calling fs (runs f) l h = h
  own-Calling fs quits l h = h

  acts-Calling :
      (fs : List ℕ) (cs : List Act) (l : EventLoop S)
      → At (calling fs) l
      → At (calling fs) (acts write read cs l)
  unfolding acts
  acts-Calling fs [] l h = h
  acts-Calling fs (a ∷ cs) l h = acts-Calling fs cs (act write read true a l) (own-Calling fs a l h)

  -- Handlers may do anything, for the queue is emptied after them.
  in_handling : (a : Act) (l : EventLoop S) → l.phase ≡ handling → Good (act write read true a l)
  in_handling a l e = rw (act_phase write read a l, e) (tt, tt)

  advance-Good :
      (p : Phase) (cs : List Act) (l : EventLoop S)
      → l.phase ≡ p
      → At p l
      → Good (advance write read p cs l)
  unfolding advance swap_functors
  advance-Good before cs l e h = h
  advance-Good top cs l e h = elim (Bool-cases l.quit_) [
    | inl stop ↦ simp (stop) (tt, tt)
    | inr go_on ↦ simp (go_on) (tt, (h.1, inl refl))
  ]
  advance-Good polling cs l e h = (tt, tt)
  advance-Good handling cs l e h = (refl, inl refl)
  advance-Good (calling []) cs l e h = (tt, h.1)
  advance-Good (calling (f ∷ fs)) cs l e h =
      let next = record l { phase = calling fs; called = l.called ++ (f ∷ []) } in
      subst (λ p. At p (acts write read cs next)) (sym (acts_phase write read cs next))
        (acts-Calling fs cs next h)
  advance-Good ended cs l e h = rw (e) (tt, tt)

  set_up-Good :
      (p : Phase) (a : Act) (l : EventLoop S)
      → IsQuiet (sets_up a)
      → l.phase ≡ p
      → Good l
      → Good (set_up write read p a l)
  unfolding set_up act run_in_own_loop quit
  set_up-Good before (queues f) l q e h = absurd (cc)
  set_up-Good before (runs f) l q e h = rw (e) (tt, (subst (λ p. At p l) e h).1)
  set_up-Good before quits l q e h = rw (e) (tt, (subst (λ p. At p l) e h).1)
  set_up-Good top a l q e h = h
  set_up-Good polling a l q e h = h
  set_up-Good handling a l q e h = h
  set_up-Good (calling fs) a l q e h = h
  set_up-Good ended a l q e h = h

  handle-Good :
      (p : Phase) (a : Act) (l : EventLoop S)
      → l.phase ≡ p
      → Good l
      → Good (handle write read p a l)
  unfolding handle
  handle-Good before a l e h = h
  handle-Good top a l e h = h
  handle-Good polling a l e h = h
  handle-Good handling a l e h = in_handling a l e
  handle-Good (calling fs) a l e h = h
  handle-Good ended a l e h = h

  read_in-Good :
      (p : Phase) (l : EventLoop S) → l.phase ≡ p → Good l → Good (read_in write read p l)
  unfolding read_in handle_read
  read_in-Good before l e h = h
  read_in-Good top l e h = h
  read_in-Good polling l e h = h
  read_in-Good handling l e h = rw (e) (tt, tt)
  read_in-Good (calling fs) l e h = h
  read_in-Good ended l e h = h

  wake_pending-Good : (n : ℕ) (l : EventLoop S) → Good l → Good (wake_pending write read n l)
  unfolding wake_pending wakeup
  wake_pending-Good zero l h = h
  wake_pending-Good (suc n) l h = (h.0, Awake-Woken l.phase _ (inl (written l.wakeup_socket)))

  step-Good : (l : EventLoop S) (s : Step) → IsQuiet s → Good l → Good (step write read l s)
  unfolding step
  step-Good l (other a) q h =
      subst (λ p. At p (act write read false a l)) (sym (other_phase a l)) (other-At l.phase a l h)
  step-Good l wakes q h = wake_pending-Good l.posting l h
  step-Good l (sets_up a) q h = set_up-Good l.phase a l q refl h
  step-Good l (handles a) q h = handle-Good l.phase a l refl h
  step-Good l reads q h = read_in-Good l.phase l refl h
  step-Good l (advances cs) q h = advance-Good l.phase cs l refl h

  run-Good :
      (ss : List Step) (l : EventLoop S) → All IsQuiet ss → Good l → Good (steps write read l ss)
  unfolding steps
  run-Good [] l q h = h
  run-Good (s ∷ ss) l q h = run-Good ss (step write read l s) q.1 (step-Good l s q.0 h)

  make-Good : (s : S) → Good (make s)
  unfolding make
  make-Good s = (tt, inl refl)

  -- Where a write makes the eventfd readable and the loop's own thread queues nothing before
  -- `loop`: whenever the loop is in `poll` while a call is in its queue, or after `quit`, the
  -- eventfd is readable or another thread is about to write to it, however the threads run.
  pub steps-Woken :
      (s : S) (ss : List Step)
      → All IsQuiet ss
      → (steps write read (make s) ss).phase ≡ polling
      → Served (steps write read (make s) ss) × Stops (steps write read (make s) ss)
  steps-Woken s ss q e =
      let l = steps write read (make s) ss in
      (subst (λ p. At p l) e (run-Good ss (make s) q (make-Good s))).1
