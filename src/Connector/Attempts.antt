-- ===== src/Connector/Attempts.antt =====
-- Each attempt of src/Connector.cc has one outcome at most.
use annety.Prelude.{
  ℕ, ◌+◌, ◌≤◌, ◌≡◌, refl, Bool, true, false, not, ◌||◌, if_case, List, [], ◌∷◌, ◌++◌, Option, none,
  some, ◌==◌, length, length-append, arith,
}
use annety.Connector.{
  Connector, State, disconnected, connecting, connected, Task, start_task, stop_task, retry_task,
  reset_task, cancel_task, Told, new_connect, error_connect, make, init_retry_delay_ms,
  is_connecting, is_in_connect, is_retry, is_some, remove_and_reset_channel, reset_channel,
  in_connect, retry_in_own_loop, do_connect, start_in_own_loop, stop_in_own_loop, cancel, run_task,
  run_in_own_loop, start, cancel_retry, stop, retry, restart, handle_write, handle_error, Step,
  starts, restarts, stops, retries, runs_task, fires, writable, fails, next_task, waits, fire, step,
  steps, erase_timer,
}

-- An attempt that has no outcome yet.
abbrev pub pending : State → ℕ
pending disconnected = 0
pending connecting = 1
pending connected = 0

abbrev IsCounted : Connector → Type 0
IsCounted c = length c.told + pending c.state ≤ c.attempts

fewer : (s : State) (told attempts : ℕ) → told + pending s ≤ attempts → told + 0 ≤ attempts
fewer s told attempts h = omega (arith, h)

in_attempt : (s : State) → is_connecting s ≡ true → pending s ≡ 1
in_attempt disconnected e = absurd (cc)
in_attempt connecting e = refl
in_attempt connected e = absurd (cc)

make-Counted : IsCounted make
unfolding make
make-Counted = omega arith

retry_in_own_loop-Counted : (c : Connector) → IsCounted c → IsCounted (retry_in_own_loop c)
unfolding retry_in_own_loop
retry_in_own_loop-Counted c h =
    if_case IsCounted c.connect_ _ _ (λ e. fewer c.state (length c.told) c.attempts h)
      (λ e. fewer c.state (length c.told) c.attempts h)

in_connect-Counted : (c : Connector) → IsCounted c → IsCounted (in_connect c)
unfolding in_connect
in_connect-Counted c h =
    let begun = fewer c.state (length c.told) c.attempts h in
    if_case IsCounted (not c.connect_socket || is_some c.connect_channel) _ _ (λ e. h)
      (λ e. omega (arith, begun))

do_connect-Counted : (errno : ℕ) (c : Connector) → IsCounted c → IsCounted (do_connect errno c)
unfolding do_connect
do_connect-Counted errno c h =
    let opened = record c { connect_socket = true } in
    if_case IsCounted (is_in_connect errno) _ _ (λ e. in_connect-Counted opened h)
      (λ e.
        if_case IsCounted (is_retry errno) _ _ (λ e. retry_in_own_loop-Counted opened h) (λ e. h))

start_in_own_loop-Counted :
    (errno : ℕ) (c : Connector) → IsCounted c → IsCounted (start_in_own_loop errno c)
unfolding start_in_own_loop
start_in_own_loop-Counted errno c h =
    if_case IsCounted c.connect_ _ _ (λ e. do_connect-Counted errno c h) (λ e. h)

run_task-Counted :
    (errno : ℕ) (t : Task) (c : Connector) → IsCounted c → IsCounted (run_task errno t c)
unfolding run_task stop_in_own_loop remove_and_reset_channel reset_channel cancel
run_task-Counted errno start_task c h = start_in_own_loop-Counted errno c h
run_task-Counted errno stop_task c h = fewer c.state (length c.told) c.attempts h
run_task-Counted errno retry_task c h = retry_in_own_loop-Counted c h
run_task-Counted errno reset_task c h = h
run_task-Counted errno (cancel_task n) c h = h

run_in_own_loop-Counted :
    (own : Bool) (errno : ℕ) (t : Task) (c : Connector)
    → IsCounted c
    → IsCounted (run_in_own_loop own errno t c)
unfolding run_in_own_loop
run_in_own_loop-Counted true errno t c h = run_task-Counted errno t c h
run_in_own_loop-Counted false errno t c h = h

cancel_retry-Counted :
    (id : Option ℕ) (own : Bool) (c : Connector) → IsCounted c → IsCounted (cancel_retry id own c)
cancel_retry-Counted none own c h = h
cancel_retry-Counted (some n) own c h = run_in_own_loop-Counted own 0 (cancel_task n) c h

next_task-Counted :
    (errno : ℕ) (ts : List Task) (c : Connector) → IsCounted c → IsCounted (next_task errno ts c)
unfolding next_task
next_task-Counted errno [] c h = h
next_task-Counted errno (t ∷ ts) c h = run_task-Counted errno t (record c { tasks = ts }) h

fire-Counted : (n errno : ℕ) (c : Connector) → IsCounted c → IsCounted (fire n errno c)
unfolding fire
fire-Counted n errno c h =
    let rest = record c { timers = erase_timer n c.timers } in
    if_case IsCounted (waits n c.timers) _ _ (λ e. start_in_own_loop-Counted errno rest h) (λ e. h)

more :
    (t : Told) (c : Connector)
    → is_connecting c.state ≡ true
    → IsCounted c
    → length (c.told ++ (t ∷ [])) + 0 ≤ c.attempts
more t c e h =
    let one = in_attempt c.state e in
    let longer = length-append c.told (t ∷ []) in omega (arith, h, one, longer)

handle_write-Counted : (err : ℕ) (c : Connector) → IsCounted c → IsCounted (handle_write err c)
unfolding handle_write remove_and_reset_channel
handle_write-Counted err c h =
    let none_more = fewer c.state (length c.told) c.attempts h in
    if_case IsCounted (not (is_connecting c.state)) _ _ (λ e. h)
      (λ e.
        let busy : is_connecting c.state ≡ true = ground (arith, e) in
        if_case IsCounted (not c.connect_socket) _ _ (λ e. h)
          (λ e.
            if_case IsCounted (err == 0) _ _
              (λ e.
                if_case (λ (told : List Told). length told + 0 ≤ c.attempts) c.connect_ _ _
                  (λ e. more new_connect c busy h) (λ e. none_more))
              (λ e. more error_connect c busy h)))

handle_error-Counted : (err : ℕ) (c : Connector) → IsCounted c → IsCounted (handle_error err c)
unfolding handle_error remove_and_reset_channel
handle_error-Counted err c h =
    let none_more = fewer c.state (length c.told) c.attempts h in
    if_case IsCounted (not (is_connecting c.state)) _ _ (λ e. h)
      (λ e.
        let busy : is_connecting c.state ≡ true = ground (arith, e) in
        if_case IsCounted (not c.connect_socket) _ _ (λ e. h)
          (λ e.
            if_case (λ (told : List Told). length told + 0 ≤ c.attempts) (err == 0) _ _
              (λ e. none_more) (λ e. more error_connect c busy h)))

step-Counted : (c : Connector) (s : Step) → IsCounted c → IsCounted (step c s)
unfolding step start stop retry restart
step-Counted c (starts own errno) h =
    if_case IsCounted c.connect_ _ _ (λ e. h)
      (λ e. run_in_own_loop-Counted own errno start_task (record c { connect_ = true }) h)
step-Counted c (restarts own errno) h =
    run_in_own_loop-Counted own errno start_task
      (record c { retry_delay_ms = init_retry_delay_ms; state = disconnected; connect_ = true })
      (fewer c.state (length c.told) c.attempts h)
step-Counted c (stops own) h =
    let off = record c { connect_ = false } in
    if_case IsCounted c.connect_ _ _
      (λ e.
        cancel_retry-Counted c.time_id own (run_in_own_loop own 0 stop_task off)
          (run_in_own_loop-Counted own 0 stop_task off h))
      (λ e. h)
step-Counted c (retries own) h =
    run_in_own_loop-Counted own 0 retry_task (record c { connect_ = true }) h
step-Counted c (runs_task errno) h = next_task-Counted errno c.tasks c h
step-Counted c (fires n errno) h = fire-Counted n errno c h
step-Counted c (writable err) h = handle_write-Counted err c h
step-Counted c (fails err) h = handle_error-Counted err c h

run-Counted : (ss : List Step) (c : Connector) → IsCounted c → IsCounted (steps c ss)
unfolding steps
run-Counted [] c h = h
run-Counted (s ∷ ss) c h = run-Counted ss (step c s) (step-Counted c s h)

-- Whatever the threads call and the system answers, the callbacks, of success and of failure
-- together, are called at most once for each attempt that was begun, and an attempt still going on
-- has called none.
pub steps-attempts :
    (ss : List Step) → let c = steps make ss in length c.told + pending c.state ≤ c.attempts
steps-attempts ss = run-Counted ss make make-Counted
