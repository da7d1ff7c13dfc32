-- ===== src/Loop/Kept.antt =====
-- What a call does to src/EventLoop.cc leaves the loop where it is.
use annety.Prelude.{◌≡◌, refl, ◌∙◌, true, List, [], ◌∷◌, Bool-cases, inl, inr}
use annety.Loop.{
  EventLoop, Act, queues, runs, quits, push_back, act, acts, queue_in_own_loop, run_in_own_loop,
  quit, wakeup,
}

module _ {S : Type 0} (write read : S → S) where
  pub act_phase : (a : Act) (l : EventLoop S) → (act write read true a l).phase ≡ l.phase
  unfolding act queue_in_own_loop run_in_own_loop quit push_back wakeup
  act_phase (queues f) l = elim (Bool-cases l.calling_wakeup_functors) [
    | inl calls ↦ simp (calls) refl
    | inr no_call ↦ simp (no_call) refl
  ]
  act_phase (runs f) l = refl
  act_phase quits l = refl

  pub acts_phase : (cs : List Act) (l : EventLoop S) → (acts write read cs l).phase ≡ l.phase
  unfolding acts
  acts_phase [] l = refl
  acts_phase (a ∷ cs) l = acts_phase cs (act write read true a l) ∙ act_phase a l
