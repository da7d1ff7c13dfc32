-- ===== src/Client.antt =====
-- include/TcpClient.h and src/TcpClient.cc, over the connector: the one connection of a client, by
-- its number, and when the next attempt follows. `jobs` lists what the client asks of its
-- connections. Callbacks that are copied, names and the destructor are left out; whether nobody
-- else holds the connection (`unique`) is an argument.
pub mod Stopped
pub mod Reconnect
pub mod Tests
use annety.Prelude.{
  ℕ, zero, suc, ◌+◌, Bool, true, false, ◌&&◌, List, [], ◌∷◌, ◌++◌, Option, none, some,
  if◌then◌else◌, length, drop,
}
use annety.Connector.{Connector, Told, new_connect, error_connect}
use annety.Connector

pub data Job : Type 0 where
  established destroyed shutdown force_close : ℕ → Job

-- `retries` counts the calls of `Connector::retry` that wait in the loop.
pub record TcpClient : Type 0 where
  pub connect_ : Bool
  pub retry_ : Bool
  pub connector : Connector
  pub connection : Option ℕ
  pub next_conn_id : ℕ
  pub retries : ℕ
  pub jobs : List Job

pub make : TcpClient
make = record {
  connect_ = false;
  retry_ = false;
  connector = Connector.make;
  connection = none;
  next_conn_id = 1;
  retries = 0;
  jobs = [];
}

pub connect : Bool → ℕ → TcpClient → TcpClient
connect is_in_own_loop errno c =
    if c.connect_
    then c
    else record c { connect_ = true; connector = Connector.start is_in_own_loop errno c.connector }

-- `connection_->shutdown()`, if there is a connection.
abbrev pub shut : Option ℕ → List Job
shut none = []
shut (some i) = shutdown i ∷ []

pub disconnect : TcpClient → TcpClient
disconnect c =
    if c.connect_ then record c { connect_ = false; jobs = c.jobs ++ shut c.connection } else c

pub stop : Bool → TcpClient → TcpClient
stop is_in_own_loop c =
    if c.connect_
    then record c {
      connect_ = false;
      jobs = c.jobs ++ shut c.connection;
      connector = Connector.stop is_in_own_loop c.connector;
    }
    else c

pub new_connection : TcpClient → TcpClient
new_connection c = record c {
  next_conn_id = suc c.next_conn_id;
  connection = some c.next_conn_id;
  jobs = c.jobs ++ (established c.next_conn_id ∷ []);
}

pub remove_connection : ℕ → ℕ → TcpClient → TcpClient
remove_connection errno i c =
    let removed = record c { connection = none; jobs = c.jobs ++ (destroyed i ∷ []) } in
    if c.retry_ && c.connect_
    then record removed { connector = Connector.restart true errno c.connector }
    else removed

-- The last lines of `connect_destroyed`.
abbrev pub forced : Option ℕ → Bool → List Job
forced none unique = []
forced (some i) unique = if unique then force_close i ∷ [] else []

pub connect_destroyed : Bool → TcpClient → TcpClient
connect_destroyed unique c = record c { jobs = c.jobs ++ forced c.connection unique }

pub handle_retry : Bool → TcpClient → TcpClient
unfolding connect_destroyed
handle_retry unique c =
    let closed = connect_destroyed unique c in
    if c.retry_ && c.connect_ then record closed { retries = suc c.retries } else closed

-- The callbacks that the connector calls.
pub deliver : Bool → List Told → TcpClient → TcpClient
unfolding new_connection handle_retry
deliver unique [] c = c
deliver unique (new_connect ∷ ts) c = deliver unique ts (new_connection c)
deliver unique (error_connect ∷ ts) c = deliver unique ts (handle_retry unique c)

-- A step of the connector, with what it tells the client.
pub connector_step : Bool → Connector.Step → TcpClient → TcpClient
unfolding deliver
connector_step unique s c =
    let next = Connector.step c.connector s in
    deliver unique (drop (length c.connector.told) next.told) (record c { connector = next })

pub run_retry : ℕ → TcpClient → TcpClient
run_retry zero c = c
run_retry (suc n) c = record c { retries = n; connector = Connector.retry true c.connector }

-- What happens to a client: its own calls, a task, a timer or an event of its connector, a retry
-- that waited in the loop, and the end of a connection.
pub data Step : Type 0 where
  connects : Bool → ℕ → Step
  disconnects : Step
  stops : Bool → Step
  sets_retry : Bool → Step
  runs_task : ℕ → Step
  fires : ℕ → ℕ → Step
  writable fails : ℕ → Bool → Step
  retries : Step
  finishes : ℕ → ℕ → Step

pub step : TcpClient → Step → TcpClient
unfolding connect disconnect stop connector_step run_retry remove_connection
step c (connects own errno) = connect own errno c
step c disconnects = disconnect c
step c (stops own) = stop own c
step c (sets_retry b) = record c { retry_ = b }
step c (runs_task errno) = connector_step false (Connector.runs_task errno) c
step c (fires n errno) = connector_step false (Connector.fires n errno) c
step c (writable err unique) = connector_step unique (Connector.writable err) c
step c (fails err unique) = connector_step unique (Connector.fails err) c
step c retries = run_retry c.retries c
step c (finishes errno i) = remove_connection errno i c

pub steps : TcpClient → List Step → TcpClient
unfolding step
steps c [] = c
steps c (s ∷ ss) = steps (step c s) ss
