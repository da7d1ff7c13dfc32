-- ===== src/Connector.antt =====
-- src/Connector.h and src/Connector.cc: the attempts of a client to connect. `errno` after
-- `connect` and the error of the socket are arguments of the steps that ask for them. Calls that
-- another thread makes are queued in the loop. Both callbacks are set, as TcpClient does; `told`
-- lists their calls. `aborted` says that a CHECK stopped the program; the DCHECKs are left out.
pub mod Backoff
pub mod Attempts
pub mod Stopped
pub mod Tests
use annety.Prelude.{
  ℕ, zero, suc, ◌+◌, ◌*◌, min, Bool, true, false, not, ◌&&◌, ◌||◌, List, [], ◌∷◌, ◌++◌, Option,
  none, some, ◌==◌, if◌then◌else◌, length,
}

pub data State : Type 0 where
  disconnected connecting connected : State

-- What the loop has still to run for the connector.
pub data Task : Type 0 where
  start_task stop_task retry_task reset_task : Task
  cancel_task : ℕ → Task

pub data Told : Type 0 where
  new_connect error_connect : Told

-- `connect_channel` says whether the channel asks for events; `timers` are the retries that wait
-- for their time, by their number, and `delays` their delays; `attempts` counts the calls of
-- `in_connect`.
pub record Connector : Type 0 where
  pub connect_ : Bool
  pub state : State
  pub retry_delay_ms : ℕ
  pub connect_socket : Bool
  pub connect_channel : Option Bool
  pub time_id : Option ℕ
  pub timers : List ℕ
  pub delays : List ℕ
  pub tasks : List Task
  pub told : List Told
  pub attempts : ℕ
  pub aborted : Bool

abbrev pub init_retry_delay_ms : ℕ
init_retry_delay_ms = 500

abbrev pub max_retry_delay_ms : ℕ
max_retry_delay_ms = 30000

pub make : Connector
make = record {
  connect_ = false;
  state = disconnected;
  retry_delay_ms = init_retry_delay_ms;
  connect_socket = false;
  connect_channel = none;
  time_id = none;
  timers = [];
  delays = [];
  tasks = [];
  told = [];
  attempts = 0;
  aborted = false;
}

abbrev pub is_connecting : State → Bool
is_connecting disconnected = false
is_connecting connecting = true
is_connecting connected = false

-- The cases of `switch (errno)` that connect: 0, EINTR, EISCONN and EINPROGRESS.
abbrev pub is_in_connect : ℕ → Bool
is_in_connect e = e == 0 || e == 4 || e == 106 || e == 115

-- Those that try again: EAGAIN, EADDRNOTAVAIL, EADDRINUSE, ENETUNREACH and ECONNREFUSED.
abbrev pub is_retry : ℕ → Bool
is_retry e = e == 11 || e == 99 || e == 98 || e == 101 || e == 111

abbrev pub queue : Task → Connector → Connector
queue t c = record c { tasks = c.tasks ++ (t ∷ []) }

abbrev pub disable : Option Bool → Option Bool
disable none = none
disable (some b) = some false

pub remove_and_reset_channel : Connector → Connector
remove_and_reset_channel c =
    queue reset_task (record c { connect_channel = disable c.connect_channel })

pub reset_channel : Connector → Connector
reset_channel c = record c { connect_channel = none }

abbrev pub is_some : Option Bool → Bool
is_some none = false
is_some (some b) = true

-- With its two CHECKs.
pub in_connect : Connector → Connector
in_connect c =
    if not c.connect_socket || is_some c.connect_channel
    then record c { aborted = true }
    else record c { state = connecting; connect_channel = some true; attempts = suc c.attempts }

pub retry_in_own_loop : Connector → Connector
retry_in_own_loop c =
    let ready = record c { state = disconnected; connect_socket = false } in
    if c.connect_
    then record ready {
      time_id = some (length c.delays);
      timers = length c.delays ∷ c.timers;
      delays = c.delays ++ (c.retry_delay_ms ∷ []);
      retry_delay_ms = min (c.retry_delay_ms * 2) max_retry_delay_ms;
    }
    else ready

pub do_connect : ℕ → Connector → Connector
unfolding in_connect retry_in_own_loop
do_connect errno c =
    let opened = record c { connect_socket = true } in
    if is_in_connect errno
    then in_connect opened
    else (if is_retry errno
        then retry_in_own_loop opened
        else record opened { connect_socket = false })

pub start_in_own_loop : ℕ → Connector → Connector
unfolding do_connect
start_in_own_loop errno c = if c.connect_ then do_connect errno c else c

pub stop_in_own_loop : Connector → Connector
unfolding remove_and_reset_channel
stop_in_own_loop c = record (remove_and_reset_channel (record c { state = disconnected })) {
  connect_socket = false;
}

-- `EventLoop::cancel`, by the number of the timer.
pub erase_timer : ℕ → List ℕ → List ℕ
erase_timer n [] = []
erase_timer n (m ∷ ms) = let rest = erase_timer n ms in if m == n then rest else m ∷ rest

pub cancel : ℕ → Connector → Connector
unfolding erase_timer
cancel n c = record c { timers = erase_timer n c.timers }

pub run_task : ℕ → Task → Connector → Connector
unfolding start_in_own_loop stop_in_own_loop retry_in_own_loop reset_channel cancel
run_task errno start_task c = start_in_own_loop errno c
run_task errno stop_task c = stop_in_own_loop c
run_task errno retry_task c = retry_in_own_loop c
run_task errno reset_task c = reset_channel c
run_task errno (cancel_task n) c = cancel n c

-- `EventLoop::run_in_own_loop`.
pub run_in_own_loop : Bool → ℕ → Task → Connector → Connector
unfolding run_task
run_in_own_loop is_in_own_loop errno t c = if is_in_own_loop then run_task errno t c else queue t c

pub start : Bool → ℕ → Connector → Connector
unfolding run_in_own_loop
start is_in_own_loop errno c =
    if c.connect_
    then c
    else run_in_own_loop is_in_own_loop errno start_task (record c { connect_ = true })

abbrev pub cancel_retry : Option ℕ → Bool → Connector → Connector
cancel_retry none is_in_own_loop c = c
cancel_retry (some n) is_in_own_loop c = run_in_own_loop is_in_own_loop 0 (cancel_task n) c

pub stop : Bool → Connector → Connector
unfolding run_in_own_loop
stop is_in_own_loop c =
    if c.connect_
    then cancel_retry c.time_id is_in_own_loop
        (run_in_own_loop is_in_own_loop 0 stop_task (record c { connect_ = false }))
    else c

pub retry : Bool → Connector → Connector
unfolding run_in_own_loop
retry is_in_own_loop c = run_in_own_loop is_in_own_loop 0 retry_task (record c { connect_ = true })

pub restart : Bool → ℕ → Connector → Connector
unfolding run_in_own_loop
restart is_in_own_loop errno c =
    run_in_own_loop is_in_own_loop errno start_task
      (record c { retry_delay_ms = init_retry_delay_ms; state = disconnected; connect_ = true })

-- The outcome of an attempt, behind the test of the state and the CHECK of the socket.
pub handle_write : ℕ → Connector → Connector
unfolding remove_and_reset_channel
handle_write err c =
    if not (is_connecting c.state)
    then c
    else (if not c.connect_socket
        then record c { aborted = true }
        else (let reset = record (remove_and_reset_channel c) { connect_socket = false } in
            if err == 0
            then record reset {
              state = connected;
              told = if c.connect_ then c.told ++ (new_connect ∷ []) else c.told;
            }
            else record reset { state = disconnected; told = c.told ++ (error_connect ∷ []) }))

pub handle_error : ℕ → Connector → Connector
unfolding remove_and_reset_channel
handle_error err c =
    if not (is_connecting c.state)
    then c
    else (if not c.connect_socket
        then record c { aborted = true }
        else record (remove_and_reset_channel c) {
          connect_socket = false;
          state = disconnected;
          told = if err == 0 then c.told else c.told ++ (error_connect ∷ []);
        })

-- A call from the own thread or another one, the loop's next task, a retry whose time has come, and
-- the events of the channel.
pub data Step : Type 0 where
  starts restarts : Bool → ℕ → Step
  stops retries : Bool → Step
  runs_task : ℕ → Step
  fires : ℕ → ℕ → Step
  writable fails : ℕ → Step

pub next_task : ℕ → List Task → Connector → Connector
unfolding run_task
next_task errno [] c = c
next_task errno (t ∷ ts) c = run_task errno t (record c { tasks = ts })

abbrev pub waits : ℕ → List ℕ → Bool
waits n [] = false
waits n (m ∷ ms) = m == n || waits n ms

pub fire : ℕ → ℕ → Connector → Connector
unfolding start_in_own_loop erase_timer
fire n errno c =
    if waits n c.timers
    then start_in_own_loop errno (record c { timers = erase_timer n c.timers })
    else c

pub step : Connector → Step → Connector
unfolding start stop retry restart next_task fire handle_write handle_error
step c (starts own errno) = start own errno c
step c (restarts own errno) = restart own errno c
step c (stops own) = stop own c
step c (retries own) = retry own c
step c (runs_task errno) = next_task errno c.tasks c
step c (fires n errno) = fire n errno c
step c (writable err) = handle_write err c
step c (fails err) = handle_error err c

pub steps : Connector → List Step → Connector
unfolding step
steps c [] = c
steps c (s ∷ ss) = steps (step c s) ss
