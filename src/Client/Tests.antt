-- ===== src/Client/Tests.antt =====
-- A client of src/TcpClient.cc that has connected.
use annety.Prelude.{◌≡◌, refl, true, false, List, [], ◌∷◌, ◌++◌, none, some}
use annety.Connector.{Connector, connected, new_connect}
use annety.Client.{
  TcpClient, Step, fires, writable, retries, finishes, connect, disconnect, stop, remove_connection,
  step, steps,
}
use annety.Client.Stopped.{stop_ends, stop_retries}
use annety.Client.Reconnect.{connect-disconnect}

abbrev connector : Connector
connector = record {
  connect_ = true;
  state = connected;
  retry_delay_ms = 500;
  connect_socket = false;
  connect_channel = none;
  time_id = none;
  timers = [];
  delays = [];
  tasks = [];
  told = new_connect ∷ [];
  attempts = 1;
  aborted = false;
}

abbrev client : TcpClient
client = record {
  connect_ = true;
  retry_ = true;
  connector = connector;
  connection = some 1;
  next_conn_id = 2;
  retries = 0;
  jobs = [];
}

abbrev after_stop : List Step
after_stop = finishes 115 1 ∷ writable 0 true ∷ fires 0 115 ∷ []

stop_ends_example : (steps (stop true client) after_stop).next_conn_id ≡ 2
stop_ends_example = stop_ends client after_stop refl refl refl (tt, (tt, (tt, tt)))

abbrev failed : TcpClient
failed = record client { retries = 1; connection = none }

stop_retries_example :
    let s = stop true failed in
    let r = step s retries in
    (r.connector.connect_ ≡ true)
    × (r.connector.delays ≡ s.connector.delays ++ (s.connector.retry_delay_ms ∷ []))
stop_retries_example = stop_retries failed 0 refl refl

connect-disconnect_example :
    (connect true 115 (remove_connection 115 1 (disconnect client))).connector ≡ connector
connect-disconnect_example = connect-disconnect client true 115 115 1 refl refl
