-- ===== src/Connector/Backoff.antt =====
-- The delays between the attempts of src/Connector.cc.
use annety.Prelude.{
  ℕ, zero, suc, ◌*◌, ◌^◌, ◌≡◌, refl, sym, ap, ◌∙◌, min, Bool, true, false, not, ◌||◌, if_case, List,
  [], ◌∷◌, ◌++◌, All, Option, none, some, ◌==◌, length, length-append, arith,
}
use annety.Connector.{
  Connector, Task, start_task, stop_task, retry_task, reset_task, cancel_task, make,
  init_retry_delay_ms, max_retry_delay_ms, is_connecting, is_in_connect, is_retry, is_some,
  remove_and_reset_channel, reset_channel, in_connect, retry_in_own_loop, do_connect,
  start_in_own_loop, stop_in_own_loop, cancel, run_task, run_in_own_loop, start, cancel_retry, stop,
  retry, handle_write, handle_error, Step, starts, restarts, stops, retries, runs_task, fires,
  writable, fails, next_task, waits, fire, step, steps, erase_timer,
}

-- The delay before the retry number `n`, and the delays of the first `n` retries.
abbrev pub delay_at : ℕ → ℕ
delay_at n = min (init_retry_delay_ms * 2 ^ n) max_retry_delay_ms

abbrev pub backoff : ℕ → List ℕ
backoff zero = []
backoff (suc n) = backoff n ++ (delay_at n ∷ [])

delay_at_doubled : (n : ℕ) → min (delay_at n * 2) max_retry_delay_ms ≡ delay_at (suc n)
delay_at_doubled n = omega arith

abbrev Backed : List ℕ → ℕ → Type 0
Backed delays delay = (delays ≡ backoff (length delays)) × (delay ≡ delay_at (length delays))

abbrev IsBacked : Connector → Type 0
IsBacked c = Backed c.delays c.retry_delay_ms

delays_extended :
    (ds : List ℕ) (d : ℕ) → Backed ds d → Backed (ds ++ (d ∷ [])) (min (d * 2) max_retry_delay_ms)
delays_extended ds d h =
    let more : length (ds ++ (d ∷ [])) ≡ suc (length ds) =
      length-append ds (d ∷ []) ∙ omega arith in
    (
      ap (λ e. e ++ (d ∷ [])) h.0
          ∙ ap (λ e. backoff (length ds) ++ (e ∷ [])) h.1
          ∙ ap backoff (sym more),
      ap (λ e. min (e * 2) max_retry_delay_ms) h.1
          ∙ delay_at_doubled (length ds)
          ∙ ap delay_at (sym more),
    )

make-Backed : IsBacked make
unfolding make
make-Backed = (refl, refl)

retry_in_own_loop-Backed : (c : Connector) → IsBacked c → IsBacked (retry_in_own_loop c)
unfolding retry_in_own_loop
retry_in_own_loop-Backed c h =
    if_case IsBacked c.connect_ _ _ (λ e. delays_extended c.delays c.retry_delay_ms h) (λ e. h)

in_connect-Backed : (c : Connector) → IsBacked c → IsBacked (in_connect c)
unfolding in_connect
in_connect-Backed c h =
    if_case IsBacked (not c.connect_socket || is_some c.connect_channel) _ _ (λ e. h) (λ e. h)

do_connect-Backed : (errno : ℕ) (c : Connector) → IsBacked c → IsBacked (do_connect errno c)
unfolding do_connect
do_connect-Backed errno c h =
    let opened = record c { connect_socket = true } in
    if_case IsBacked (is_in_connect errno) _ _ (λ e. in_connect-Backed opened h)
      (λ e. if_case IsBacked (is_retry errno) _ _ (λ e. retry_in_own_loop-Backed opened h) (λ e. h))

start_in_own_loop-Backed :
    (errno : ℕ) (c : Connector) → IsBacked c → IsBacked (start_in_own_loop errno c)
unfolding start_in_own_loop
start_in_own_loop-Backed errno c h =
    if_case IsBacked c.connect_ _ _ (λ e. do_connect-Backed errno c h) (λ e. h)

run_task-Backed :
    (errno : ℕ) (t : Task) (c : Connector) → IsBacked c → IsBacked (run_task errno t c)
unfolding run_task stop_in_own_loop remove_and_reset_channel reset_channel cancel
run_task-Backed errno start_task c h = start_in_own_loop-Backed errno c h
run_task-Backed errno stop_task c h = h
run_task-Backed errno retry_task c h = retry_in_own_loop-Backed c h
run_task-Backed errno reset_task c h = h
run_task-Backed errno (cancel_task n) c h = h

run_in_own_loop-Backed :
    (own : Bool) (errno : ℕ) (t : Task) (c : Connector)
    → IsBacked c
    → IsBacked (run_in_own_loop own errno t c)
unfolding run_in_own_loop
run_in_own_loop-Backed true errno t c h = run_task-Backed errno t c h
run_in_own_loop-Backed false errno t c h = h

cancel_retry-Backed :
    (id : Option ℕ) (own : Bool) (c : Connector) → IsBacked c → IsBacked (cancel_retry id own c)
cancel_retry-Backed none own c h = h
cancel_retry-Backed (some n) own c h = run_in_own_loop-Backed own 0 (cancel_task n) c h

next_task-Backed :
    (errno : ℕ) (ts : List Task) (c : Connector) → IsBacked c → IsBacked (next_task errno ts c)
unfolding next_task
next_task-Backed errno [] c h = h
next_task-Backed errno (t ∷ ts) c h = run_task-Backed errno t (record c { tasks = ts }) h

fire-Backed : (n errno : ℕ) (c : Connector) → IsBacked c → IsBacked (fire n errno c)
unfolding fire
fire-Backed n errno c h =
    let rest = record c { timers = erase_timer n c.timers } in
    if_case IsBacked (waits n c.timers) _ _ (λ e. start_in_own_loop-Backed errno rest h) (λ e. h)

handle_write-Backed : (err : ℕ) (c : Connector) → IsBacked c → IsBacked (handle_write err c)
unfolding handle_write remove_and_reset_channel
handle_write-Backed err c h =
    if_case IsBacked (not (is_connecting c.state)) _ _ (λ e. h)
      (λ e.
        if_case IsBacked (not c.connect_socket) _ _ (λ e. h)
          (λ e. if_case IsBacked (err == 0) _ _ (λ e. h) (λ e. h)))

handle_error-Backed : (err : ℕ) (c : Connector) → IsBacked c → IsBacked (handle_error err c)
unfolding handle_error remove_and_reset_channel
handle_error-Backed err c h =
    if_case IsBacked (not (is_connecting c.state)) _ _ (λ e. h)
      (λ e. if_case IsBacked (not c.connect_socket) _ _ (λ e. h) (λ e. h))

-- Any call but `restart`, which begins the delays again.
abbrev pub IsSteady : Step → Type 0
IsSteady (starts own errno) = Unit {0}
IsSteady (restarts own errno) = true ≡ false
IsSteady (stops own) = Unit {0}
IsSteady (retries own) = Unit {0}
IsSteady (runs_task errno) = Unit {0}
IsSteady (fires n errno) = Unit {0}
IsSteady (writable err) = Unit {0}
IsSteady (fails err) = Unit {0}

step-Backed : (c : Connector) (s : Step) → IsSteady s → IsBacked c → IsBacked (step c s)
unfolding step start stop retry
step-Backed c (starts own errno) q h =
    if_case IsBacked c.connect_ _ _ (λ e. h)
      (λ e. run_in_own_loop-Backed own errno start_task (record c { connect_ = true }) h)
step-Backed c (restarts own errno) q h = absurd (cc)
step-Backed c (stops own) q h =
    let off = record c { connect_ = false } in
    if_case IsBacked c.connect_ _ _
      (λ e.
        cancel_retry-Backed c.time_id own (run_in_own_loop own 0 stop_task off)
          (run_in_own_loop-Backed own 0 stop_task off h))
      (λ e. h)
step-Backed c (retries own) q h =
    run_in_own_loop-Backed own 0 retry_task (record c { connect_ = true }) h
step-Backed c (runs_task errno) q h = next_task-Backed errno c.tasks c h
step-Backed c (fires n errno) q h = fire-Backed n errno c h
step-Backed c (writable err) q h = handle_write-Backed err c h
step-Backed c (fails err) q h = handle_error-Backed err c h

run-Backed : (ss : List Step) (c : Connector) → All IsSteady ss → IsBacked c → IsBacked (steps c ss)
unfolding steps
run-Backed [] c q h = h
run-Backed (s ∷ ss) c q h = run-Backed ss (step c s) q.1 (step-Backed c s q.0 h)

-- Without a `restart`, whatever the threads call and the system answers, the delays of the retries
-- are 500 ms, doubled each time, and 30 s from where that is exceeded.
pub steps-backoff :
    (ss : List Step)
    → All IsSteady ss
    → let c = steps make ss in
      (c.delays ≡ backoff (length c.delays)) × (c.retry_delay_ms ≡ delay_at (length c.delays))
steps-backoff ss q = run-Backed ss make q make-Backed
