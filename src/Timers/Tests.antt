-- ===== src/Timers/Tests.antt =====
-- Runs of the timers of src/TimerPool.cc.
use annety.Prelude.{
  ◌≡◌, refl, Bool, true, false, not, inl, inr, Bool-cases, List, [], ◌∷◌, All, some, ◌==◌,
  if◌then◌else◌, arith,
}
use annety.Prelude.Int.{ℤ, pos, negsuc, ◌+ℤ◌, ◌-ℤ◌}
use annety.Timers.{
  Timer, TimerPool, make, has_key, fill_expired_timers, due_timers, add_timer_in_own_loop, Call,
  adds, cancels, Step, calls_in_loop, reads, steps, handle_read,
}
use annety.Timers.Ready.{steps-Ready, IsValid}
use annety.Timers.Armed.{Ready}
use annety.Timers.Due.{fill_expired_timers-splits, filter, expires, add_timer_in_own_loop-late}
use annety.Timers.Keys.{among}
use annety.Timers.Cancelled.{handle_read-Cancelled}
use annety.Timers.Cancelling.{Spares}

-- A `timerfd_settime` that refuses negative times only.
abbrev settime : ℤ → Bool
settime (pos n) = true
settime (negsuc n) = false

abbrev heartbeat : Timer
heartbeat = record { address = 64; sequence = 1; expired = 100; interval = 50 }

abbrev retry : Timer
retry = record { address = 96; sequence = 2; expired = 120; interval = 0 }

abbrev idle : Timer
idle = record { address = 128; sequence = 3; expired = 500; interval = 0 }

-- The retry's callback cancels the heartbeat, the others' do nothing.
abbrev callbacks : Timer → List Call
callbacks t = if t.address == 96 then cancels 123 (64, 1) ∷ [] else []

abbrev pool : TimerPool
pool = record {
  timers = heartbeat ∷ retry ∷ idle ∷ [];
  active_timers = (64, 1) ∷ (96, 2) ∷ (128, 3) ∷ [];
  canceling_timers = [];
  calling_expired_timers = false;
  armed = some (pos 100);
  aborted = false;
}

callbacks-Spares : (t : Timer) → All (Spares (64, 1)) (callbacks t)
callbacks-Spares t = elim (Bool-cases (t.address == 96)) [
  | inl cancelling ↦ simp (cancelling) (tt, tt)
  | inr other ↦ simp (other) tt
]

abbrev run : List Step
run =
    calls_in_loop (adds 10 idle)
    ∷ calls_in_loop (adds 10 retry)
    ∷ calls_in_loop (adds 10 heartbeat)
    ∷ reads callbacks 122 125
    ∷ []

callbacks-IsValid : (t : Timer) → All IsValid (callbacks t)
callbacks-IsValid t = elim (Bool-cases (t.address == 96)) [
  | inl cancelling ↦ simp (cancelling) (tt, tt)
  | inr other ↦ simp (other) tt
]

steps-Ready_example : Ready (steps settime make run)
steps-Ready_example =
    steps-Ready settime run (omega arith, (omega arith, (omega arith, (callbacks-IsValid, tt))))

armed_test : (steps settime make run).armed ≡ some (pos 500)
unfolding steps make ◌+ℤ◌ ◌-ℤ◌
armed_test = refl

fill_expired_timers-splits_example :
    let (expired, rest) = fill_expired_timers 122 pool in
    (expired ≡ filter (expires 122) pool.timers)
    × (rest.timers ≡ filter (λ t. not (expires 122 t)) pool.timers)
fill_expired_timers-splits_example =
    fill_expired_timers-splits 122 pool ((refl, (refl, tt)), ((refl, tt), (tt, tt)))
      (omega arith, (omega arith, (omega arith, tt)))

due_test : due_timers 122 pool.timers ≡ heartbeat ∷ retry ∷ []
unfolding due_timers
due_test = refl

add_timer_in_own_loop-late_example :
    (add_timer_in_own_loop settime 130 heartbeat make).aborted ≡ true
unfolding make
add_timer_in_own_loop-late_example =
    add_timer_in_own_loop-late settime 130 heartbeat make (λ n. refl) refl (omega arith)
      (omega arith)

handle_read-Cancelled_example :
    let r = handle_read settime callbacks 122 125 pool in
    (has_key (64, 1) r.active_timers ≡ false) × (among (64, 1) r.timers ≡ false)
unfolding due_timers
handle_read-Cancelled_example =
    handle_read-Cancelled settime (64, 1) callbacks 122 125 pool
      ((refl, (refl, tt)), ((refl, tt), (tt, tt))) (refl, (refl, (refl, tt))) callbacks-Spares refl
