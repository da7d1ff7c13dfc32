-- ===== src/Timers.antt =====
-- src/TimerPool.h, src/TimerPool.cc, src/Timer.h, src/Timer.cc and the part of src/TimerFD.cc that
-- sets the time, as built on Linux. Times are microseconds. A timer that stands in `timers_` has
-- the time of its entry, since only `restart` changes it, so an entry is its timer. The clock and
-- what `timerfd_settime` answers are parameters; `aborted` says that a PCHECK stopped the program.
pub mod Sorted
pub mod Armed
pub mod Ready
pub mod Due
pub mod Keys
pub mod Among
pub mod Paired
pub mod Cancelling
pub mod Cancelled
pub mod Tests
use annety.Prelude.{
  ℕ, zero, suc, ◌+◌, ◌-◌, ◌^◌, Bool, true, false, not, ◌&&◌, ◌||◌, List, [], ◌∷◌, ◌++◌, Option,
  none, some, ltb, leb, ◌==◌, if◌then◌else◌,
}
use annety.Prelude.Int.{ℤ, pos, negsuc, ◌+ℤ◌, ◌-ℤ◌}

-- `sequence` tells apart timers that stand at one address in turn; `interval` is 0 for a timer that
-- does not repeat.
pub record Timer : Type 0 where
  pub address : ℕ
  pub sequence : ℕ
  pub expired : ℕ
  pub interval : ℕ

-- `ActiveTimer`, and what a TimerId has.
abbrev pub Key : Type 0
Key = ℕ × ℕ

abbrev pub key : Timer → Key
key t = (t.address, t.sequence)

abbrev pub same_key : Key → Key → Bool
same_key k l = (k.0 == l.0) && (k.1 == l.1)

-- `armed` is the time at which the kernel makes the descriptor readable: the clock when it was set,
-- and the delta that `timerfd_settime` took then.
pub record TimerPool : Type 0 where
  pub timers : List Timer
  pub active_timers : List Key
  pub canceling_timers : List Key
  pub calling_expired_timers : Bool
  pub armed : Option ℤ
  pub aborted : Bool

-- `TimerPool(loop)`.
pub make : TimerPool
make = record {
  timers = [];
  active_timers = [];
  canceling_timers = [];
  calling_expired_timers = false;
  armed = none;
  aborted = false;
}

abbrev pub repeat : Timer → Bool
repeat t = not (t.interval == 0)

-- The order of `timers_`: by time, then by address.
abbrev pub before : Timer → Timer → Bool
before t u = ltb t.expired u.expired || (t.expired == u.expired) && ltb t.address u.address

-- `timers_.insert`: an entry with the same time and address stays.
pub insert_timer : Timer → List Timer → List Timer
insert_timer t [] = t ∷ []
insert_timer t (u ∷ us) =
    let rest = insert_timer t us in
    if before t u then t ∷ u ∷ us else (if before u t then u ∷ rest else u ∷ us)

-- The sets of keys are only searched, so their order is left open.
abbrev pub has_key : Key → List Key → Bool
has_key k [] = false
has_key k (l ∷ ls) = same_key k l || has_key k ls

pub insert_key : Key → List Key → List Key
insert_key k ls = if has_key k ls then ls else k ∷ ls

pub erase_key : Key → List Key → List Key
erase_key k [] = []
erase_key k (l ∷ ls) = let rest = erase_key k ls in if same_key k l then rest else l ∷ rest

-- `timers_.erase` of the entry of a timer, which its address and time name.
pub erase_timer : ℕ → List Timer → List Timer
erase_timer address [] = []
erase_timer address (t ∷ ts) =
    let rest = erase_timer address ts in if t.address == address then rest else t ∷ rest

-- Whether the time of the earliest timer changes, and the pool with the timer in both sets.
abbrev pub earliest_changed : Timer → List Timer → Bool
earliest_changed t [] = true
earliest_changed t (u ∷ us) = ltb t.expired u.expired

pub save : Timer → TimerPool → TimerPool
unfolding insert_timer insert_key
save t p = record p {
  timers = insert_timer t p.timers;
  active_timers = insert_key (key t) p.active_timers;
}

pub erase_canceled : Key → TimerPool → TimerPool
unfolding erase_timer erase_key insert_key
erase_canceled k p =
    if has_key k p.active_timers
    then record p { timers = erase_timer k.0 p.timers; active_timers = erase_key k p.active_timers }
    else (if p.calling_expired_timers
        then record p { canceling_timers = insert_key k p.canceling_timers }
        else p)

-- The entries before `lower_bound` of the sentry, which has the time and the largest address.
abbrev pub uintptr_max : ℕ
uintptr_max = 2 ^ 64 - 1

abbrev pub is_due : ℕ → Timer → Bool
is_due time t = ltb t.expired time || (t.expired == time) && ltb t.address uintptr_max

pub due_timers : ℕ → List Timer → List Timer
due_timers time [] = []
due_timers time (t ∷ ts) = let rest = due_timers time ts in if is_due time t then t ∷ rest else []

pub later_timers : ℕ → List Timer → List Timer
later_timers time [] = []
later_timers time (t ∷ ts) =
    let rest = later_timers time ts in if is_due time t then rest else t ∷ ts

pub erase_keys : List Timer → List Key → List Key
unfolding erase_key
erase_keys [] ks = ks
erase_keys (t ∷ ts) ks = erase_keys ts (erase_key (key t) ks)

-- The expired timers, and the pool without them.
pub fill_expired_timers : ℕ → TimerPool → List Timer × TimerPool
unfolding due_timers later_timers erase_keys
fill_expired_timers time p =
    let expired = due_timers time p.timers in
    (
      expired,
      record p {
        timers = later_timers time p.timers;
        active_timers = erase_keys expired p.active_timers;
      },
    )

-- `restart`, behind its check that the timer repeats.
abbrev pub restart : ℕ → Timer → Timer
restart time t = record t { expired = time + t.interval }

-- One round of `update`.
pub save_again : ℕ → Timer → TimerPool → TimerPool
unfolding save
save_again time t p =
    if repeat t && not (has_key (key t) p.canceling_timers) then save (restart time t) p else p

pub update_all : ℕ → List Timer → TimerPool → TimerPool
unfolding save_again
update_all time [] p = p
update_all time (t ∷ ts) p = update_all time ts (save_again time t p)

-- What a callback does with the pool, in the loop's own thread, each at the time of its clock.
pub data Call : Type 0 where
  adds : ℕ → Timer → Call
  cancels : ℕ → Key → Call

-- What happens to a pool: a call in its loop, or its descriptor becomes readable, with what the
-- callbacks then do, the time at which they begin and the one at which they end.
pub data Step : Type 0 where
  calls_in_loop : Call → Step
  reads : (Timer → List Call) → ℕ → ℕ → Step

module _ (timerfd_settime : ℤ → Bool) where
  -- `reset_timerfd`, whose result -1 stops the program in `TimerFD::reset`.
  pub reset_timerfd : ℤ → Bool
  reset_timerfd (pos zero) = false
  reset_timerfd (pos (suc n)) = timerfd_settime (pos (suc n))
  reset_timerfd (negsuc n) = timerfd_settime (negsuc n)

  -- `TimerPool::reset` at the time `now`; a time of 0 is not valid.
  pub reset : ℕ → ℕ → TimerPool → TimerPool
  unfolding reset_timerfd
  reset now expired p =
      if expired == 0
      then p
      else (let delta = pos expired -ℤ pos now in
          if reset_timerfd delta
          then record p { armed = some (pos now +ℤ delta) }
          else record p { aborted = true })

  pub add_timer_in_own_loop : ℕ → Timer → TimerPool → TimerPool
  unfolding save reset
  add_timer_in_own_loop now t p =
      if earliest_changed t p.timers then reset now t.expired (save t p) else save t p

  -- The end of `cancel_timer_in_own_loop` and of `update`.
  pub reset_first : ℕ → List Timer → TimerPool → TimerPool
  unfolding reset
  reset_first now [] p = p
  reset_first now (t ∷ ts) p = reset now t.expired p

  pub cancel_timer_in_own_loop : ℕ → Key → TimerPool → TimerPool
  unfolding erase_canceled reset_first
  cancel_timer_in_own_loop now k p =
      let erased = erase_canceled k p in reset_first now erased.timers erased

  pub update : ℕ → ℕ → List Timer → TimerPool → TimerPool
  unfolding update_all reset_first
  update now time ts p = let done = update_all time ts p in reset_first now done.timers done

  pub call : Call → TimerPool → TimerPool
  unfolding add_timer_in_own_loop cancel_timer_in_own_loop
  call (adds now t) p = add_timer_in_own_loop now t p
  call (cancels now k) p = cancel_timer_in_own_loop now k p

  pub calls : List Call → TimerPool → TimerPool
  unfolding call
  calls [] p = p
  calls (c ∷ cs) p = calls cs (call c p)

  -- The callbacks of the expired timers, one after the other.
  pub run_all : (Timer → List Call) → List Timer → TimerPool → TimerPool
  unfolding calls
  run_all cb [] p = p
  run_all cb (t ∷ ts) p = run_all cb ts (calls (cb t) p)

  -- `handle_read` at the time `curr`, when the timer's descriptor could be read, which disarms it;
  -- `now` is the clock after the callbacks.
  pub handle_read : (Timer → List Call) → ℕ → ℕ → TimerPool → TimerPool
  unfolding fill_expired_timers run_all update
  handle_read cb curr now p =
      let (expired, rest) = fill_expired_timers curr (record p { armed = none }) in
      let ran =
        run_all cb expired (record rest { calling_expired_timers = true; canceling_timers = [] }) in
      update now curr expired (record ran { calling_expired_timers = false })

  pub step : TimerPool → Step → TimerPool
  unfolding call handle_read
  step p (calls_in_loop c) = call c p
  step p (reads cb curr now) = handle_read cb curr now p

  pub steps : TimerPool → List Step → TimerPool
  unfolding step
  steps p [] = p
  steps p (s ∷ ss) = steps (step p s) ss
