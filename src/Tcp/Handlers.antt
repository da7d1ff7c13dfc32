-- ===== src/Tcp/Handlers.antt =====
-- What each handler and each queued task of src/TcpConnection.cc does to the bytes.
use annety.Prelude.{
  ℕ, ◌≡◌, refl, sym, ap, ap₂, ◌∙◌, subst, inl, inr, Bool, true, false, not, ◌&&◌, ◌||◌, List, [],
  ◌∷◌, ◌++◌, arith, length, take, drop, if◌then◌else◌, Bool-cases, ltb, ◌==◌, ==_iff, append_assoc,
  append-nil, take-append-drop,
}
use annety.Buffer.{ByteBuffer, readable_bytes, to_string}
use annety.Buffer.Refine.{Shows, has_read-Shows, shown}
use annety.Net.{Readv, got, failed}
use annety.Channel.{disable_write_event}
use annety.Tcp.{
  StateE, disconnected, connecting, connected, disconnecting, is_disconnected, is_connected,
  is_disconnecting, Task, send_task, shutdown_task, force_close_task, start_read_task,
  stop_read_task, callback_task, Callback, write_complete_cb, Written, wrote, refused,
  TcpConnection, calling, queue_if, shutdown_in_loop, handle_close, force_close_in_loop,
  start_read_in_loop, stop_read_in_loop, run_task, run_in_own_loop, handle_read, written_out,
  has_written, finish_write, handle_write,
}
use annety.Tcp.Flow.{Flows, task_taken, queue_if-Flows, no_bytes, send_in_loop-Flows}

shutdown_in_loop-Flows : (c : TcpConnection) (t : List ℕ) → Flows c t → Flows (shutdown_in_loop c) t
unfolding shutdown_in_loop
shutdown_in_loop-Flows c t h = elim (Bool-cases c.channel.write_event) [
  | inl on ↦ simp (on) h
  | inr off ↦ simp (off) (record { out = h.out; shows = h.shows; bytes = h.bytes; armed = h.armed })
]

pub handle_close-Flows : (c : TcpConnection) (t : List ℕ) → Flows c t → Flows (handle_close c) t
unfolding handle_close
handle_close-Flows c t h = record { out = h.out; shows = h.shows; bytes = h.bytes; armed = refl }

force_close_in_loop-Flows :
    (c : TcpConnection) (t : List ℕ) → Flows c t → Flows (force_close_in_loop c) t
unfolding force_close_in_loop
force_close_in_loop-Flows c t h =
    elim (Bool-cases (is_connected c.state || is_disconnecting c.state)) [
      | inl on ↦ simp (on) (handle_close-Flows c t h)
      | inr off ↦ simp (off) h
    ]

-- Asking for the read event or not leaves the write event as it is.
start_read_in_loop-Flows :
    (c : TcpConnection) (t : List ℕ) → Flows c t → Flows (start_read_in_loop c) t
unfolding start_read_in_loop
start_read_in_loop-Flows c t h = elim (Bool-cases c.reading) [
  | inl on ↦ simp (on) h
  | inr off ↦ elim (Bool-cases c.channel.read_event) [
    | inl asked ↦
        simp (off, asked)
          (record { out = h.out; shows = h.shows; bytes = h.bytes; armed = h.armed })
    | inr not_asked ↦
        simp (off, not_asked)
          (record { out = h.out; shows = h.shows; bytes = h.bytes; armed = h.armed })
  ]
]

stop_read_in_loop-Flows :
    (c : TcpConnection) (t : List ℕ) → Flows c t → Flows (stop_read_in_loop c) t
unfolding stop_read_in_loop
stop_read_in_loop-Flows c t h = elim (Bool-cases c.reading) [
  | inr off ↦ simp (off) h
  | inl on ↦ elim (Bool-cases c.channel.read_event) [
    | inl asked ↦
        simp (on, asked) (record { out = h.out; shows = h.shows; bytes = h.bytes; armed = h.armed })
    | inr not_asked ↦
        simp (on, not_asked)
          (record { out = h.out; shows = h.shows; bytes = h.bytes; armed = h.armed })
  ]
]

pub tasks-Flows :
    (ts : List Task) (c : TcpConnection) (t : List ℕ)
    → Flows c t
    → Flows (record c { tasks = ts }) t
tasks-Flows ts c t h = record { out = h.out; shows = h.shows; bytes = h.bytes; armed = h.armed }

pub calling-Flows :
    (f : Callback) (c : TcpConnection) (t : List ℕ) → Flows c t → Flows (calling f c) t
calling-Flows f c t h = record { out = h.out; shows = h.shows; bytes = h.bytes; armed = h.armed }

pub same : (c : TcpConnection) (t : List ℕ) → Flows c t → Flows c (t ++ [])
same c t h = subst (Flows c) (sym (append-nil t)) h

pub run_task-Flows :
    (w : Written) (k : Task) (ts : List Task) (c : TcpConnection) (t : List ℕ)
    → Flows c t
    → Flows (run_task w k c) (t ++ task_taken w (k ∷ ts) c)
unfolding run_task
run_task-Flows w (send_task data_) ts c t h = send_in_loop-Flows w data_ c t h
run_task-Flows w shutdown_task ts c t h = same _ t (shutdown_in_loop-Flows c t h)
run_task-Flows w force_close_task ts c t h = same _ t (force_close_in_loop-Flows c t h)
run_task-Flows w start_read_task ts c t h = same _ t (start_read_in_loop-Flows c t h)
run_task-Flows w stop_read_task ts c t h = same _ t (stop_read_in_loop-Flows c t h)
run_task-Flows w (callback_task f) ts c t h = same _ t (calling-Flows f c t h)

pub run_in_own_loop-Flows :
    (own : Bool) (w : Written) (k : Task) (c : TcpConnection) (t : List ℕ)
    → Flows c t
    → Flows (run_in_own_loop own w k c) (t ++ (if own then task_taken w (k ∷ []) c else []))
unfolding run_in_own_loop
run_in_own_loop-Flows true w k c t h = run_task-Flows w k [] c t h
run_in_own_loop-Flows false w k c t h = same _ t (tasks-Flows _ c t h)

-- A connection that is going down but not down yet: what `armed` says does not change.
pub state-Flows :
    (s : StateE) (c : TcpConnection) (t : List ℕ)
    → is_disconnected s ≡ is_disconnected c.state
    → Flows c t
    → Flows (record c { state = s }) t
state-Flows s c t e h = record {
  out = h.out;
  shows = h.shows;
  bytes = h.bytes;
  armed = h.armed ∙ ap (λ b. not b && ltb 0 (length h.out)) (sym e);
}

pub StateE-live :
    (s : StateE) → is_connected s || is_disconnecting s ≡ true → is_disconnected s ≡ false
StateE-live disconnected h = sym h
StateE-live connecting h = refl
StateE-live connected h = refl
StateE-live disconnecting h = refl

pub StateE-connected : (s : StateE) → is_connected s ≡ true → s ≡ connected
StateE-connected disconnected h = absurd (cc)
StateE-connected connecting h = absurd (cc)
StateE-connected connected h = refl
StateE-connected disconnecting h = absurd (cc)

written_out-Flows :
    (c : TcpConnection) (t : List ℕ)
    → Shows c.output_buffer []
    → c.wire ≡ t
    → Flows (written_out c) t
unfolding written_out
written_out-Flows c t shows bytes =
    let off : Flows (record c { channel = disable_write_event c.channel }) t = record {
      out = [];
      shows = shows;
      bytes = append-nil c.wire ∙ bytes;
      armed = sym (none_ (not (is_disconnected c.state)));
    } in
    let told =
      queue_if c.has_write_complete_cb write_complete_cb
        (record c { channel = disable_write_event c.channel }) in
    let kept : Flows told t = queue_if-Flows c.has_write_complete_cb write_complete_cb _ t off in
    elim (Bool-cases (is_disconnecting told.state)) [
      | inl going ↦ simp (going) (shutdown_in_loop-Flows told t kept)
      | inr staying ↦ simp (staying) kept
    ]
  where
    none_ : (b : Bool) → b && false ≡ false
    none_ true = refl
    none_ false = refl

finish_write-Flows :
    (c : TcpConnection) (q t : List ℕ)
    → Shows c.output_buffer q
    → c.wire ++ q ≡ t
    → c.channel.write_event ≡ true
    → is_disconnected c.state ≡ false
    → Flows (finish_write c) t
unfolding finish_write
finish_write-Flows c q t shows bytes on live =
    elim (Bool-cases (readable_bytes c.output_buffer == 0)) [
      | inl all_out ↦
          let none_ : q ≡ [] = no_bytes q (shown _ q shows ∙ (==_iff _ _).0 all_out) in
          simp (all_out) (
            written_out-Flows c t (subst (Shows c.output_buffer) none_ shows)
              (sym (append-nil c.wire) ∙ ap (◌++◌ c.wire) (sym none_) ∙ bytes))
      | inr more ↦
          let left : ltb 0 (length q) ≡ true = ground (arith, shown _ q shows, more) in
          simp (more) (record {
            out = q;
            shows = shows;
            bytes = bytes;
            armed = on ∙ sym (ap₂ (λ a b. not a && b) live left);
          })
    ]

live-armed : (d b : Bool) → not d && b ≡ true → d ≡ false
live-armed true b h = absurd (cc)
live-armed false b h = refl

pub handle_write-Flows :
    (w : Written) (c : TcpConnection) (t : List ℕ) → Flows c t → Flows (handle_write w c) t
unfolding handle_write has_written
handle_write-Flows (refused e) c t h = h
handle_write-Flows (wrote n) c t h = elim (Bool-cases (c.channel.write_event && ltb 0 n)) [
  | inr idle ↦ simp (idle) h
  | inl go ↦
      let on : c.channel.write_event ≡ true = and_left c.channel.write_event (ltb 0 n) go in
      let moved : (c.wire ++ take n (to_string c.output_buffer)) ++ drop n h.out ≡ t =
        append_assoc c.wire _ (drop n h.out)
        ∙ ap (λ l. c.wire ++ (take n l ++ drop n h.out)) h.shows.content
        ∙ ap (◌++◌ c.wire) (take-append-drop n h.out)
        ∙ h.bytes in
      simp (go) (
        finish_write-Flows (has_written n c) (drop n h.out) t
          (has_read-Shows c.output_buffer h.out h.shows n) moved on
          (live-armed (is_disconnected c.state) _ (sym h.armed ∙ on)))
]
  where
    and_left : (a b : Bool) → a && b ≡ true → a ≡ true
    and_left true b h = refl
    and_left false b h = h

input-Flows :
    (b : ByteBuffer) (c : TcpConnection) (t : List ℕ)
    → Flows c t
    → Flows (record c { input_buffer = b }) t
input-Flows b c t h = record { out = h.out; shows = h.shows; bytes = h.bytes; armed = h.armed }

pub handle_read-Flows :
    (r : Readv) (c : TcpConnection) (t : List ℕ) → Flows c t → Flows (handle_read r c) t
unfolding handle_read
handle_read-Flows (failed e) c t h = input-Flows _ c t h
handle_read-Flows (got []) c t h = handle_close-Flows _ t (input-Flows _ c t h)
handle_read-Flows (got (x ∷ xs)) c t h = calling-Flows _ _ t (input-Flows _ c t h)
