-- ===== src/Connector/Stopped.antt =====
-- After `stop` of src/Connector.cc no callback is called.
use annety.Prelude.{
  ◌++◌, ℕ, ◌≡◌, refl, ap, Bool, true, false, not, if_case, if_true, if_false, List, [], ◌∷◌, All,
  Option, none, some,
}
use annety.Connector.{
  Connector, Task, start_task, stop_task, retry_task, reset_task, cancel_task, Told, disable,
  is_connecting, is_in_connect, is_some, remove_and_reset_channel, reset_channel, in_connect,
  retry_in_own_loop, do_connect, start_in_own_loop, stop_in_own_loop, cancel, run_task,
  run_in_own_loop, start, cancel_retry, stop, retry, handle_write, handle_error, Step, starts,
  restarts, stops, retries, runs_task, fires, writable, fails, next_task, waits, fire, step, steps,
  erase_timer,
}

-- Not connecting, not to connect, and with these calls made.
pub record IsSilent (told : List Told) (c : Connector) : Type 0 where
  pub off : c.connect_ ≡ false
  pub idle : is_connecting c.state ≡ false
  pub same : c.told ≡ told

-- Any step but a call that asks for a connection.
abbrev pub IsOff : Step → Type 0
IsOff (starts own errno) = true ≡ false
IsOff (restarts own errno) = true ≡ false
IsOff (stops own) = Unit {0}
IsOff (retries own) = true ≡ false
IsOff (runs_task errno) = Unit {0}
IsOff (fires n errno) = Unit {0}
IsOff (writable err) = Unit {0}
IsOff (fails err) = Unit {0}

module _ (told : List Told) where
  retry_in_own_loop-Silent : (c : Connector) → IsSilent told c → IsSilent told (retry_in_own_loop c)
  unfolding retry_in_own_loop
  retry_in_own_loop-Silent c h =
      if_false (IsSilent told) c.connect_ _ _ h.off
        (record { off = h.off; idle = refl; same = h.same })

  start_in_own_loop-Silent :
      (errno : ℕ) (c : Connector) → IsSilent told c → IsSilent told (start_in_own_loop errno c)
  unfolding start_in_own_loop
  start_in_own_loop-Silent errno c h = if_false (IsSilent told) c.connect_ _ _ h.off h

  run_task-Silent :
      (errno : ℕ) (t : Task) (c : Connector) → IsSilent told c → IsSilent told (run_task errno t c)
  unfolding run_task stop_in_own_loop remove_and_reset_channel reset_channel cancel
  run_task-Silent errno start_task c h = start_in_own_loop-Silent errno c h
  run_task-Silent errno stop_task c h = record { off = h.off; idle = refl; same = h.same }
  run_task-Silent errno retry_task c h = retry_in_own_loop-Silent c h
  run_task-Silent errno reset_task c h = record { off = h.off; idle = h.idle; same = h.same }
  run_task-Silent errno (cancel_task n) c h = record { off = h.off; idle = h.idle; same = h.same }

  next_task-Silent :
      (errno : ℕ) (ts : List Task) (c : Connector)
      → IsSilent told c
      → IsSilent told (next_task errno ts c)
  unfolding next_task
  next_task-Silent errno [] c h = h
  next_task-Silent errno (t ∷ ts) c h =
      run_task-Silent errno t (record c { tasks = ts })
        (record { off = h.off; idle = h.idle; same = h.same })

  pub step-Silent :
      (c : Connector) (s : Step) → IsOff s → IsSilent told c → IsSilent told (step c s)
  unfolding step start stop retry next_task fire handle_write handle_error
  step-Silent c (starts own errno) q h = absurd (cc)
  step-Silent c (restarts own errno) q h = absurd (cc)
  step-Silent c (stops own) q h = if_false (IsSilent told) c.connect_ _ _ h.off h
  step-Silent c (retries own) q h = absurd (cc)
  step-Silent c (runs_task errno) q h = next_task-Silent errno c.tasks c h
  step-Silent c (fires n errno) q h =
      let rest = record c { timers = erase_timer n c.timers } in
      if_case (IsSilent told) (waits n c.timers) _ _
        (λ e.
          start_in_own_loop-Silent errno rest
            (record { off = h.off; idle = h.idle; same = h.same }))
        (λ e. h)
  step-Silent c (writable err) q h =
      if_true (IsSilent told) (not (is_connecting c.state)) _ _ (ap not h.idle) h
  step-Silent c (fails err) q h =
      if_true (IsSilent told) (not (is_connecting c.state)) _ _ (ap not h.idle) h

  run-Silent :
      (ss : List Step) (c : Connector) → All IsOff ss → IsSilent told c → IsSilent told (steps c ss)
  unfolding steps
  run-Silent [] c q h = h
  run-Silent (s ∷ ss) c q h = run-Silent ss (step c s) q.1 (step-Silent c s q.0 h)

stop_in_own_loop-Silent :
    (c : Connector) → c.connect_ ≡ false → IsSilent c.told (run_in_own_loop true 0 stop_task c)
unfolding run_in_own_loop run_task stop_in_own_loop remove_and_reset_channel
stop_in_own_loop-Silent c h = record { off = h; idle = refl; same = refl }

cancel_retry-Silent :
    (told : List Told) (id : Option ℕ) (c : Connector)
    → IsSilent told c
    → IsSilent told (cancel_retry id true c)
unfolding run_in_own_loop
cancel_retry-Silent told none c h = h
cancel_retry-Silent told (some n) c h = run_task-Silent told 0 (cancel_task n) c h

pub stop-Silent : (c : Connector) → c.connect_ ≡ true → IsSilent c.told (stop true c)
unfolding stop
stop-Silent c h =
    let off = record c { connect_ = false } in
    if_true (IsSilent c.told) c.connect_ _ _ h (
      cancel_retry-Silent c.told c.time_id (run_in_own_loop true 0 stop_task off)
        (stop_in_own_loop-Silent off refl))

-- After the loop's own thread has stopped a connector that was started, no callback is called any
-- more, whatever tasks, timers and events were still on their way, until a thread calls `start`,
-- `retry` or `restart` again.
pub stop_silences :
    (c : Connector) (ss : List Step)
    → c.connect_ ≡ true
    → All IsOff ss
    → (steps (stop true c) ss).told ≡ c.told
stop_silences c ss h q = (run-Silent c.told ss (stop true c) q (stop-Silent c h)).same

-- The channel of an attempt outlasts `stop`.
stopped_channel :
    (c : Connector) (b : Bool)
    → c.connect_channel ≡ some b
    → (run_in_own_loop true 0 stop_task c).connect_channel ≡ some false
unfolding run_in_own_loop run_task stop_in_own_loop remove_and_reset_channel
stopped_channel c b k = ap disable k

cancel_retry_channel :
    (id : Option ℕ) (c : Connector)
    → c.connect_channel ≡ some false
    → (cancel_retry id true c).connect_channel ≡ some false
unfolding run_in_own_loop run_task cancel
cancel_retry_channel none c k = k
cancel_retry_channel (some n) c k = k

stop_channel :
    (c : Connector) (b : Bool)
    → c.connect_ ≡ true
    → c.connect_channel ≡ some b
    → (stop true c).connect_channel ≡ some false
unfolding stop
stop_channel c b h k =
    if_true (λ (d : Connector). d.connect_channel ≡ some false) c.connect_ _ _ h
      (cancel_retry_channel c.time_id _ (stopped_channel (record c { connect_ = false }) b k))

start_aborts :
    (c : Connector) (b : Bool) (errno : ℕ)
    → c.connect_ ≡ false
    → c.connect_channel ≡ some b
    → is_in_connect errno ≡ true
    → (start true errno c).aborted ≡ true
unfolding start run_in_own_loop run_task start_in_own_loop do_connect in_connect
start_aborts c b errno h k e =
    if_false (λ (d : Connector). d.aborted ≡ true) c.connect_ _ _ h
      (if_true (λ (d : Connector). d.aborted ≡ true) (is_in_connect errno) _ _ e
        (if_true (λ (d : Connector). d.aborted ≡ true) (is_some c.connect_channel) _ _
          (ap is_some k) refl))

-- Where the loop's own thread stops an attempt that is going on and starts the next one at once,
-- and `connect` begins it, the CHECK of `in_connect` stops the program, for the old channel is
-- still there.
pub start-stop :
    (c : Connector) (b : Bool) (errno : ℕ)
    → c.connect_ ≡ true
    → c.connect_channel ≡ some b
    → is_in_connect errno ≡ true
    → (start true errno (stop true c)).aborted ≡ true
start-stop c b errno h k e =
    start_aborts (stop true c) false errno (stop-Silent c h).off (stop_channel c b h k) e

-- A started connector takes no notice of `start`.
pub start_running :
    (own : Bool) (errno : ℕ) (c : Connector) → c.connect_ ≡ true → start own errno c ≡ c
unfolding start
start_running own errno c h = if_true (λ (d : Connector). d ≡ c) c.connect_ _ _ h refl

-- `retry` sets the connector to connect, and a timer for it.
pub retry_again :
    (c : Connector)
    → ((retry true c).connect_ ≡ true)
      × ((retry true c).delays ≡ c.delays ++ (c.retry_delay_ms ∷ []))
unfolding retry run_in_own_loop run_task retry_in_own_loop
retry_again c = (refl, refl)
