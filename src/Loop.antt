-- ===== src/Loop.antt =====
-- include/EventLoop.h and src/EventLoop.cc: the calls that threads hand to a loop and how the loop
-- is woken for them. A call is a number. The loop's own thread and the others take steps in any
-- order; what another thread does without the lock, its `wakeup`, is a step of its own. The
-- eventfd is a parameter: its state, and what writing and reading make of it. Log output and the
-- checks of the calling thread are left out.
pub mod Kept
pub mod Order
pub mod Wakeup
pub mod Round
pub mod Tests
use annety.Prelude.{ℕ, zero, suc, ◌+◌, ◌-◌, Bool, true, false, List, [], ◌∷◌, ◌++◌, if◌then◌else◌}

-- Where the own thread is: before `loop`, at the test of `quit_`, in `poll`, among the handlers of
-- the active channels, in `do_calling_wakeup_functors` with the calls that it has still to make,
-- or behind the loop.
pub data Phase : Type 0 where
  before top polling handling ended : Phase
  calling : List ℕ → Phase

-- `posting` counts the other threads that have pushed or set `quit_` and not called `wakeup` yet.
-- `queued` and `called` list what the queue has taken and what it has made of it, `direct` what
-- ran at once.
pub record EventLoop (S : Type 0) : Type 0 where
  pub phase : Phase
  pub wakeup_functors : List ℕ
  pub calling_wakeup_functors : Bool
  pub wakeup_socket : S
  pub quit_ : Bool
  pub posting : ℕ
  pub queued : List ℕ
  pub called : List ℕ
  pub direct : List ℕ

-- `EventLoop()`.
pub make : {S : Type 0} → S → EventLoop S
make s = record {
  phase = before;
  wakeup_functors = [];
  calling_wakeup_functors = false;
  wakeup_socket = s;
  quit_ = false;
  posting = 0;
  queued = [];
  called = [];
  direct = [];
}

-- What a thread does with the loop.
pub data Act : Type 0 where
  queues runs : ℕ → Act
  quits : Act

-- A step of another thread, its pending `wakeup`, the own thread before `loop`, in a handler of a
-- channel, in `handle_read` of the eventfd, and on its way, where a call does some acts.
pub data Step : Type 0 where
  other : Act → Step
  wakes : Step
  sets_up : Act → Step
  handles : Act → Step
  reads : Step
  advances : List Act → Step

pub push_back : {S : Type 0} → ℕ → EventLoop S → EventLoop S
push_back f l = record l {
  wakeup_functors = l.wakeup_functors ++ (f ∷ []);
  queued = l.queued ++ (f ∷ []);
}

module _ {S : Type 0} (write read : S → S) where
  pub wakeup : EventLoop S → EventLoop S
  wakeup l = record l { wakeup_socket = write l.wakeup_socket }

  pub handle_read : EventLoop S → EventLoop S
  handle_read l = record l { wakeup_socket = read l.wakeup_socket }

  -- Whether the thread is the loop's own decides whether it wakes it; another one does so in a
  -- later step.
  pub queue_in_own_loop : Bool → ℕ → EventLoop S → EventLoop S
  unfolding push_back wakeup
  queue_in_own_loop is_in_own_loop f l =
      let pushed = push_back f l in
      if is_in_own_loop
      then (if l.calling_wakeup_functors then wakeup pushed else pushed)
      else record pushed { posting = suc l.posting }

  pub run_in_own_loop : Bool → ℕ → EventLoop S → EventLoop S
  unfolding queue_in_own_loop
  run_in_own_loop is_in_own_loop f l =
      if is_in_own_loop
      then record l { direct = l.direct ++ (f ∷ []) }
      else queue_in_own_loop false f l

  pub quit : Bool → EventLoop S → EventLoop S
  quit is_in_own_loop l =
      if is_in_own_loop
      then record l { quit_ = true }
      else record l { quit_ = true; posting = suc l.posting }

  pub act : Bool → Act → EventLoop S → EventLoop S
  unfolding queue_in_own_loop run_in_own_loop quit
  act own (queues f) l = queue_in_own_loop own f l
  act own (runs f) l = run_in_own_loop own f l
  act own quits l = quit own l

  pub acts : List Act → EventLoop S → EventLoop S
  unfolding act
  acts [] l = l
  acts (a ∷ cs) l = acts cs (act true a l)

  -- The first half of `do_calling_wakeup_functors`.
  pub swap_functors : EventLoop S → EventLoop S
  swap_functors l = record l {
    phase = calling l.wakeup_functors;
    calling_wakeup_functors = true;
    wakeup_functors = [];
  }

  -- The way of the own thread through `loop` and `do_calling_wakeup_functors`; a call does `cs`.
  pub advance : Phase → List Act → EventLoop S → EventLoop S
  unfolding swap_functors acts
  advance before cs l = record l { phase = top }
  advance top cs l = if l.quit_ then record l { phase = ended } else record l { phase = polling }
  advance polling cs l = record l { phase = handling }
  advance handling cs l = swap_functors l
  advance (calling []) cs l = record l { phase = top; calling_wakeup_functors = false }
  advance (calling (f ∷ fs)) cs l =
      acts cs (record l { phase = calling fs; called = l.called ++ (f ∷ []) })
  advance ended cs l = l

  pub set_up : Phase → Act → EventLoop S → EventLoop S
  unfolding act
  set_up before a l = act true a l
  set_up top a l = l
  set_up polling a l = l
  set_up handling a l = l
  set_up (calling fs) a l = l
  set_up ended a l = l

  pub handle : Phase → Act → EventLoop S → EventLoop S
  unfolding act
  handle before a l = l
  handle top a l = l
  handle polling a l = l
  handle handling a l = act true a l
  handle (calling fs) a l = l
  handle ended a l = l

  pub read_in : Phase → EventLoop S → EventLoop S
  unfolding handle_read
  read_in before l = l
  read_in top l = l
  read_in polling l = l
  read_in handling l = handle_read l
  read_in (calling fs) l = l
  read_in ended l = l

  pub wake_pending : ℕ → EventLoop S → EventLoop S
  unfolding wakeup
  wake_pending zero l = l
  wake_pending (suc n) l = wakeup (record l { posting = n })

  pub step : EventLoop S → Step → EventLoop S
  unfolding act advance set_up handle read_in wake_pending
  step l (other a) = act false a l
  step l wakes = wake_pending l.posting l
  step l (sets_up a) = set_up l.phase a l
  step l (handles a) = handle l.phase a l
  step l reads = read_in l.phase l
  step l (advances cs) = advance l.phase cs l

  pub steps : EventLoop S → List Step → EventLoop S
  unfolding step
  steps l [] = l
  steps l (s ∷ ss) = steps (step l s) ss
