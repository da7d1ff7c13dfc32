-- ===== src/Tcp.antt =====
-- include/TcpConnection.h and src/TcpConnection.cc: one connection in its loop. What the callbacks
-- of the user do is not part of a handler: `calls` is the log of the ones made at once, and `tasks`
-- is what the loop has queued for the connection, callbacks included. The socket is the bytes that
-- `write` took so far and whether its writing side was shut down.
pub mod Flow
pub mod Handlers
pub mod Run
pub mod States
pub mod Drain
pub mod Tests
use annety.Prelude.{
  ℕ, ◌+◌, ◌-◌, Bool, true, false, not, ◌&&◌, ◌||◌, List, [], ◌∷◌, ◌++◌, ltb, leb, ◌==◌,
  if◌then◌else◌, length, take, drop,
}
use annety.Buffer.{ByteBuffer, readable_bytes, append, has_read, to_string}
use annety.Net.{Readv, failed, got, empty, read_fd}
use annety.Channel.{
  Channel, fresh, disable_all_event, enable_read_event, disable_read_event, enable_write_event,
  disable_write_event, remove, Revents, handle_event,
}

pub data StateE : Type 0 where
  disconnected : StateE
  connecting : StateE
  connected : StateE
  disconnecting : StateE

abbrev pub is_disconnected : StateE → Bool
is_disconnected disconnected = true
is_disconnected connecting = false
is_disconnected connected = false
is_disconnected disconnecting = false

abbrev pub is_connected : StateE → Bool
is_connected disconnected = false
is_connected connecting = false
is_connected connected = true
is_connected disconnecting = false

abbrev pub is_disconnecting : StateE → Bool
is_disconnecting disconnected = false
is_disconnecting connecting = false
is_disconnecting connected = false
is_disconnecting disconnecting = true

pub data Callback : Type 0 where
  connect_cb : Callback
  close_cb : Callback
  finish_cb : Callback
  message_cb : Callback
  write_complete_cb : Callback
  high_water_mark_cb : ℕ → Callback

-- What waits in the queue of the loop.
pub data Task : Type 0 where
  send_task : List ℕ → Task
  shutdown_task : Task
  force_close_task : Task
  start_read_task : Task
  stop_read_task : Task
  callback_task : Callback → Task

pub data Errno : Type 0 where
  eagain : Errno
  ewouldblock : Errno
  epipe : Errno
  econnreset : Errno
  other : Errno

-- What `write` on the socket answers: a count, at most that of the bytes it was given, or an error.
pub data Written : Type 0 where
  wrote : ℕ → Written
  refused : Errno → Written

pub record TcpConnection : Type 0 where
  pub state : StateE
  pub reading : Bool
  pub channel : Channel
  pub input_buffer : ByteBuffer
  pub output_buffer : ByteBuffer
  pub has_write_complete_cb : Bool
  pub has_high_water_mark_cb : Bool
  pub high_water_mark : ℕ
  pub tasks : List Task
  pub delayed : ℕ
  pub calls : List Callback
  pub wire : List ℕ
  pub write_closed : Bool

-- `TcpConnection(...)`, with the callbacks that the user sets.
pub make : Bool → Bool → ℕ → TcpConnection
make write_complete high_water mark = record {
  state = connecting;
  reading = true;
  channel = fresh;
  input_buffer = empty;
  output_buffer = empty;
  has_write_complete_cb = write_complete;
  has_high_water_mark_cb = high_water;
  high_water_mark = mark;
  tasks = [];
  delayed = 0;
  calls = [];
  wire = [];
  write_closed = false;
}

abbrev pub calling : Callback → TcpConnection → TcpConnection
calling f c = record c { calls = c.calls ++ (f ∷ []) }

abbrev pub queue_in_own_loop : Task → TcpConnection → TcpConnection
queue_in_own_loop t c = record c { tasks = c.tasks ++ (t ∷ []) }

abbrev pub queue_if : Bool → Callback → TcpConnection → TcpConnection
queue_if b f c = if b then queue_in_own_loop (callback_task f) c else c

-- `EPIPE` and `ECONNRESET`: the peer has closed.
abbrev pub fault_error : Errno → Bool
fault_error eagain = false
fault_error ewouldblock = false
fault_error epipe = true
fault_error econnreset = true
fault_error other = false

abbrev pub crosses : TcpConnection → ℕ → Bool
crosses c remaining =
    let history = readable_bytes c.output_buffer in
    leb c.high_water_mark (history + remaining)
    && ltb history c.high_water_mark
    && c.has_high_water_mark_cb

abbrev pub arm_write_event : Channel → Channel
arm_write_event ch = if ch.write_event then ch else enable_write_event ch

-- `append` and `enable_write_event`.
pub append_output : List ℕ → TcpConnection → TcpConnection
append_output rest c = record c {
  output_buffer = (append c.output_buffer rest).0;
  channel = arm_write_event c.channel;
}

pub keep_remaining : List ℕ → TcpConnection → TcpConnection
unfolding append_output
keep_remaining rest c = append_output rest (
    queue_if (crosses c (length rest))
      (high_water_mark_cb (readable_bytes c.output_buffer + length rest)) c)

-- The second half of `send_in_loop`: what is left goes to the output buffer.
pub buffer_remaining : List ℕ → TcpConnection → TcpConnection
unfolding keep_remaining
buffer_remaining rest c = if ltb 0 (length rest) then keep_remaining rest c else c

-- Whether `send_in_loop` writes to the socket itself.
abbrev pub writes_directly : TcpConnection → Bool
writes_directly c = not c.channel.write_event && (readable_bytes c.output_buffer == 0)

pub write_directly : Written → List ℕ → TcpConnection → TcpConnection
unfolding buffer_remaining
write_directly (wrote n) data_ c = buffer_remaining (drop n data_) (
    queue_if ((length data_ == n) && c.has_write_complete_cb) write_complete_cb
      (record c { wire = c.wire ++ take n data_ }))
write_directly (refused errno) data_ c = if fault_error errno then c else buffer_remaining data_ c

pub send_in_loop : Written → List ℕ → TcpConnection → TcpConnection
unfolding buffer_remaining write_directly
send_in_loop w data_ c =
    if is_disconnected c.state
    then c
    else (if writes_directly c then write_directly w data_ c else buffer_remaining data_ c)

pub shutdown_in_loop : TcpConnection → TcpConnection
shutdown_in_loop c = if c.channel.write_event then c else record c { write_closed = true }

pub handle_close : TcpConnection → TcpConnection
handle_close c =
    calling finish_cb
      (calling close_cb (record c { state = disconnected; channel = disable_all_event c.channel }))

pub force_close_in_loop : TcpConnection → TcpConnection
unfolding handle_close
force_close_in_loop c =
    if is_connected c.state || is_disconnecting c.state then handle_close c else c

pub start_read_in_loop : TcpConnection → TcpConnection
start_read_in_loop c = if c.reading then c else record c {
  reading = true;
  channel = if c.channel.read_event then c.channel else enable_read_event c.channel;
}

pub stop_read_in_loop : TcpConnection → TcpConnection
stop_read_in_loop c =
    if c.reading
    then record c {
      reading = false;
      channel = if c.channel.read_event then disable_read_event c.channel else c.channel;
    }
    else c

pub run_task : Written → Task → TcpConnection → TcpConnection
unfolding send_in_loop shutdown_in_loop force_close_in_loop start_read_in_loop stop_read_in_loop
run_task w (send_task data_) c = send_in_loop w data_ c
run_task w shutdown_task c = shutdown_in_loop c
run_task w force_close_task c = force_close_in_loop c
run_task w start_read_task c = start_read_in_loop c
run_task w stop_read_task c = stop_read_in_loop c
run_task w (callback_task f) c = calling f c

-- At once in the loop's own thread, and queued from another one.
pub run_in_own_loop : Bool → Written → Task → TcpConnection → TcpConnection
unfolding run_task
run_in_own_loop own w t c = if own then run_task w t c else queue_in_own_loop t c

-- `send` in all its forms, on the bytes of the message at the call. The form that takes a pointer
-- to a buffer empties that buffer too, by `taken_as_string`.
pub send : Bool → Written → List ℕ → TcpConnection → TcpConnection
unfolding run_in_own_loop
send own w data_ c = if is_connected c.state then run_in_own_loop own w (send_task data_) c else c

pub shutdown : Bool → Written → TcpConnection → TcpConnection
unfolding run_in_own_loop
shutdown own w c =
    if is_connected c.state
    then run_in_own_loop own w shutdown_task (record c { state = disconnecting })
    else c

pub force_close : TcpConnection → TcpConnection
force_close c =
    if is_connected c.state || is_disconnecting c.state
    then queue_in_own_loop force_close_task (record c { state = disconnecting })
    else c

-- The timer that is started is one more of `delayed`.
pub force_close_with_delay : TcpConnection → TcpConnection
force_close_with_delay c =
    if is_connected c.state || is_disconnecting c.state
    then record c { state = disconnecting; delayed = c.delayed + 1 }
    else c

pub start_read : Bool → Written → TcpConnection → TcpConnection
unfolding run_in_own_loop
start_read own w c = run_in_own_loop own w start_read_task c

pub stop_read : Bool → Written → TcpConnection → TcpConnection
unfolding run_in_own_loop
stop_read own w c = run_in_own_loop own w stop_read_task c

-- Behind its DCHECK that the state is `connecting`.
pub connect_established : TcpConnection → TcpConnection
connect_established c =
    calling connect_cb (record c { state = connected; channel = enable_read_event c.channel })

pub connect_destroyed : TcpConnection → TcpConnection
connect_destroyed c =
    let closed =
      if is_connected c.state
      then calling close_cb
          (record c { state = disconnected; channel = disable_all_event c.channel })
      else c in
    record closed { channel = remove closed.channel }

-- `handle_error` only writes to the log of the program.
abbrev pub handle_error : TcpConnection → TcpConnection
handle_error c = c

pub handle_read : Readv → TcpConnection → TcpConnection
unfolding handle_close
handle_read (failed errno) c =
    handle_error (record c { input_buffer = (read_fd c.input_buffer (failed errno)).0 })
handle_read (got []) c =
    handle_close (record c { input_buffer = (read_fd c.input_buffer (got [])).0 })
handle_read (got (x ∷ xs)) c =
    calling message_cb (record c { input_buffer = (read_fd c.input_buffer (got (x ∷ xs))).0 })

-- What `handle_write` does once the output buffer is empty.
pub written_out : TcpConnection → TcpConnection
unfolding shutdown_in_loop
written_out c =
    let told =
      queue_if c.has_write_complete_cb write_complete_cb
        (record c { channel = disable_write_event c.channel }) in
    if is_disconnecting told.state then shutdown_in_loop told else told

-- `write` takes `n` of the bytes that are readable in the output buffer.
pub has_written : ℕ → TcpConnection → TcpConnection
has_written n c = record c {
  wire = c.wire ++ take n (to_string c.output_buffer);
  output_buffer = has_read c.output_buffer n;
}

pub finish_write : TcpConnection → TcpConnection
unfolding written_out
finish_write c = if readable_bytes c.output_buffer == 0 then written_out c else c

pub handle_write : Written → TcpConnection → TcpConnection
unfolding has_written finish_write
handle_write (refused errno) c = c
handle_write (wrote n) c =
    if c.channel.write_event && ltb 0 n then finish_write (has_written n c) else c

-- What can happen to a connection, each as one step of its loop: the calls of its user, `own`
-- saying whether they come from the loop's thread; the loop running the first queued task; the
-- timer of `force_close_with_delay`; the server; and the poller's report.
pub data Event : Type 0 where
  sends : Bool → Written → List ℕ → Event
  shuts : Bool → Written → Event
  forces : Event
  forces_later : Event
  expires : Event
  starts : Bool → Written → Event
  stops : Bool → Written → Event
  runs : Written → Event
  established : Event
  destroyed : Event
  reports : Revents → Readv → Written → Event

pub run_first : Written → List Task → TcpConnection → TcpConnection
unfolding run_task
run_first w [] c = c
run_first w (t ∷ ts) c = run_task w t (record c { tasks = ts })

pub step : TcpConnection → Event → TcpConnection
unfolding send shutdown force_close force_close_with_delay start_read stop_read run_first
    connect_established connect_destroyed handle_close handle_read handle_write
step c (sends own w data_) = send own w data_ c
step c (shuts own w) = shutdown own w c
step c forces = force_close c
step c forces_later = force_close_with_delay c
step c expires = if ltb 0 c.delayed then force_close (record c { delayed = c.delayed - 1 }) else c
step c (starts own w) = start_read own w c
step c (stops own w) = stop_read own w c
step c (runs w) = run_first w c.tasks c
step c established = connect_established c
step c destroyed = connect_destroyed c
step c (reports r input w) =
    handle_event handle_close handle_error (handle_read input) (handle_write w) r c

pub steps : TcpConnection → List Event → TcpConnection
unfolding step
steps c [] = c
steps c (e ∷ es) = steps (step c e) es
