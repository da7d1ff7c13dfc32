-- ===== src/Tcp/States.antt =====
-- The states of src/TcpConnection.cc, and reading that is started after the close.
use annety.Prelude.{
  ℕ, ◌-◌, ◌≤◌, ◌≡◌, refl, ap, ◌∙◌, inl, inr, Bool, true, false, not, ◌&&◌, ◌||◌, List, [], ◌∷◌,
  ◌++◌, arith, if◌then◌else◌, Bool-cases, ltb, length, ◌==◌, drop, take,
}
use annety.Net.{Readv, got, failed}
use annety.Channel.{Revents, handle_event}
use annety.Tcp.{
  StateE, disconnected, connecting, connected, disconnecting, is_disconnected, is_connected,
  is_disconnecting, Callback, close_cb, finish_cb, write_complete_cb, Task, send_task,
  shutdown_task, force_close_task, start_read_task, stop_read_task, callback_task, Written, wrote,
  refused, fault_error, TcpConnection, crosses, append_output, keep_remaining, buffer_remaining,
  writes_directly, write_directly, send_in_loop, shutdown_in_loop, handle_close,
  force_close_in_loop, start_read_in_loop, stop_read_in_loop, run_task, run_in_own_loop, send,
  shutdown, force_close, force_close_with_delay, start_read, stop_read, connect_established,
  connect_destroyed, handle_error, handle_read, handle_write, Event, sends, shuts, forces,
  forces_later, expires, starts, stops, runs, established, destroyed, reports, run_first, step,
  steps,
}
use annety.Tcp.Flow.{queue_if-state}
use annety.Tcp.Run.{Obeys, AllObey}
use annety.Tcp.Drain.{handle_write_state}

-- `start_read` does not look at the state. On a connection whose reading was stopped before it was
-- closed, it asks for the read event again, although the connection is disconnected; and when the
-- channel then reports the end of the stream, the close and the finish callback run a second time.
pub start_read_reopens :
    (c : TcpConnection) (w : Written)
    → c.reading ≡ false
    → let again = step (handle_close c) (starts true w) in
      (again.state ≡ disconnected)
      × (again.channel.read_event ≡ true)
      × ((handle_read (got []) again).calls
          ≡ c.calls ++ (close_cb ∷ finish_cb ∷ close_cb ∷ finish_cb ∷ []))
unfolding step start_read run_in_own_loop run_task start_read_in_loop handle_close handle_read
start_read_reopens c w stopped = simp (stopped) (refl, refl, shift c.calls)
  where
    shift :
        (l : List Callback)
        → (((l ++ (close_cb ∷ [])) ++ (finish_cb ∷ [])) ++ (close_cb ∷ [])) ++ (finish_cb ∷ [])
          ≡ l ++ (close_cb ∷ finish_cb ∷ close_cb ∷ finish_cb ∷ [])
    shift [] = refl
    shift (f ∷ l) = ap (◌∷◌ f) (shift l)

-- The order in which a connection passes its states.
abbrev pub rank : StateE → ℕ
rank connecting = 0
rank connected = 1
rank disconnecting = 2
rank disconnected = 3

rank-top : (s : StateE) → rank s ≤ 3
rank-top disconnected = omega arith
rank-top connecting = omega arith
rank-top connected = omega arith
rank-top disconnecting = omega arith

rank-connected : (s : StateE) → is_connected s ≡ true → rank s ≤ 2
rank-connected disconnected h = absurd (cc)
rank-connected connecting h = omega arith
rank-connected connected h = omega arith
rank-connected disconnecting h = omega arith

rank-up : (s : StateE) → is_connected s || is_disconnecting s ≡ true → rank s ≤ 2
rank-up disconnected h = absurd (cc)
rank-up connecting h = omega arith
rank-up connected h = omega arith
rank-up disconnecting h = omega arith

abbrev Ahead : TcpConnection → TcpConnection → Type 0
Ahead c d = rank c.state ≤ rank d.state

equal : {s t : StateE} → t ≡ s → rank s ≤ rank t
equal e = omega (arith, ap rank e)

buffer_remaining-state :
    (rest : List ℕ) (c : TcpConnection) → (buffer_remaining rest c).state ≡ c.state
unfolding buffer_remaining keep_remaining append_output
buffer_remaining-state rest c = elim (Bool-cases (ltb 0 (length rest))) [
  | inl some_ ↦ simp (some_) (queue_if-state (crosses c (length rest)) _ c)
  | inr none_ ↦ simp (none_) refl
]

write_directly-state :
    (w : Written) (xs : List ℕ) (c : TcpConnection) → (write_directly w xs c).state ≡ c.state
unfolding write_directly
write_directly-state (wrote n) xs c =
    buffer_remaining-state (drop n xs) _
    ∙ queue_if-state ((length xs == n) && c.has_write_complete_cb) write_complete_cb
        (record c { wire = c.wire ++ take n xs })
write_directly-state (refused e) xs c = elim (Bool-cases (fault_error e)) [
  | inl bad ↦ simp (bad) refl
  | inr good ↦ simp (good) (buffer_remaining-state xs c)
]

send_in_loop-state :
    (w : Written) (xs : List ℕ) (c : TcpConnection) → (send_in_loop w xs c).state ≡ c.state
unfolding send_in_loop
send_in_loop-state w xs c = elim (Bool-cases (is_disconnected c.state)) [
  | inl gone ↦ simp (gone) refl
  | inr live ↦ elim (Bool-cases (writes_directly c)) [
    | inl direct ↦ simp (live, direct) (write_directly-state w xs c)
    | inr later ↦ simp (live, later) (buffer_remaining-state xs c)
  ]
]

shutdown_in_loop-state : (c : TcpConnection) → (shutdown_in_loop c).state ≡ c.state
unfolding shutdown_in_loop
shutdown_in_loop-state c = elim (Bool-cases c.channel.write_event) [
  | inl on ↦ simp (on) refl
  | inr off ↦ simp (off) refl
]

start_read_in_loop-state : (c : TcpConnection) → (start_read_in_loop c).state ≡ c.state
unfolding start_read_in_loop
start_read_in_loop-state c = elim (Bool-cases c.reading) [
  | inl on ↦ simp (on) refl
  | inr off ↦ simp (off) refl
]

stop_read_in_loop-state : (c : TcpConnection) → (stop_read_in_loop c).state ≡ c.state
unfolding stop_read_in_loop
stop_read_in_loop-state c = elim (Bool-cases c.reading) [
  | inl on ↦ simp (on) refl
  | inr off ↦ simp (off) refl
]

force_close_in_loop-Ahead : (c : TcpConnection) → Ahead c (force_close_in_loop c)
unfolding force_close_in_loop handle_close
force_close_in_loop-Ahead c = elim (Bool-cases (is_connected c.state || is_disconnecting c.state)) [
  | inl up ↦ simp (up) (rank-top c.state)
  | inr down ↦ simp (down) (omega arith)
]

run_task-Ahead : (w : Written) (k : Task) (c : TcpConnection) → Ahead c (run_task w k c)
unfolding run_task
run_task-Ahead w (send_task xs) c = equal (send_in_loop-state w xs c)
run_task-Ahead w shutdown_task c = equal (shutdown_in_loop-state c)
run_task-Ahead w force_close_task c = force_close_in_loop-Ahead c
run_task-Ahead w start_read_task c = equal (start_read_in_loop-state c)
run_task-Ahead w stop_read_task c = equal (stop_read_in_loop-state c)
run_task-Ahead w (callback_task f) c = omega arith

run_in_own_loop-Ahead :
    (own : Bool) (w : Written) (k : Task) (c : TcpConnection) → Ahead c (run_in_own_loop own w k c)
unfolding run_in_own_loop
run_in_own_loop-Ahead true w k c = run_task-Ahead w k c
run_in_own_loop-Ahead false w k c = omega arith

handle_read-Ahead : (r : Readv) (c : TcpConnection) → Ahead c (handle_read r c)
unfolding handle_read handle_close
handle_read-Ahead (failed e) c = omega arith
handle_read-Ahead (got []) c = rank-top c.state
handle_read-Ahead (got (x ∷ xs)) c = omega arith

when-Ahead :
    (b : Bool) (f : TcpConnection → TcpConnection) (c d : TcpConnection)
    → ((e : TcpConnection) → Ahead e (f e))
    → Ahead c d
    → Ahead c (if b then f d else d)
when-Ahead true f c d k h = omega (arith, h, k d)
when-Ahead false f c d k h = h

handle_event-Ahead :
    (r : Revents) (input : Readv) (w : Written) (c : TcpConnection)
    → Ahead c (handle_event handle_close handle_error (handle_read input) (handle_write w) r c)
unfolding handle_close
handle_event-Ahead r input w c =
    when-Ahead r.out (handle_write w) c _ (λ e. equal (handle_write_state w e))
      (when-Ahead (r.in_ || r.pri) (handle_read input) c _ (handle_read-Ahead input) (
        when-Ahead (r.err || r.nval) handle_error c _ (λ e. omega arith)
          (when-Ahead (r.hup && not r.in_) handle_close c c (λ e. rank-top e.state) (omega arith))))

force_close-Ahead : (c : TcpConnection) → Ahead c (force_close c)
unfolding force_close
force_close-Ahead c = elim (Bool-cases (is_connected c.state || is_disconnecting c.state)) [
  | inl up ↦ simp (up) (rank-up c.state up)
  | inr down ↦ simp (down) (omega arith)
]

step-Ahead : (c : TcpConnection) (e : Event) → Obeys c e → Ahead c (step c e)
unfolding step send shutdown force_close_with_delay start_read stop_read run_first
    connect_established connect_destroyed
step-Ahead c (sends own w xs) o = elim (Bool-cases (is_connected c.state)) [
  | inl up ↦ simp (up) (run_in_own_loop-Ahead own w (send_task xs) c)
  | inr down ↦ simp (down) (omega arith)
]
step-Ahead c (shuts own w) o = elim (Bool-cases (is_connected c.state)) [
  | inl up ↦ simp (up) (
      omega (
        arith,
        rank-connected c.state up,
        run_in_own_loop-Ahead own w shutdown_task (record c { state = disconnecting }),
      ))
  | inr down ↦ simp (down) (omega arith)
]
step-Ahead c forces o = force_close-Ahead c
step-Ahead c forces_later o = elim (Bool-cases (is_connected c.state || is_disconnecting c.state)) [
  | inl up ↦ simp (up) (rank-up c.state up)
  | inr down ↦ simp (down) (omega arith)
]
step-Ahead c expires o = elim (Bool-cases (ltb 0 c.delayed)) [
  | inl due ↦ simp (due) (force_close-Ahead (record c { delayed = c.delayed - 1 }))
  | inr none_ ↦ simp (none_) (omega arith)
]
step-Ahead c (starts own w) o = run_in_own_loop-Ahead own w start_read_task c
step-Ahead c (stops own w) o = run_in_own_loop-Ahead own w stop_read_task c
step-Ahead c (runs w) o = first c.tasks
  where
    first : (ts : List Task) → Ahead c (run_first w ts c)
    first [] = omega arith
    first (t ∷ ts) = run_task-Ahead w t (record c { tasks = ts })
step-Ahead c established o = omega (arith, ap rank o)
step-Ahead c destroyed o = elim (Bool-cases (is_connected c.state)) [
  | inl up ↦ simp (up) (rank-top c.state)
  | inr down ↦ simp (down) (omega arith)
]
step-Ahead c (reports r input w) o = handle_event-Ahead r input w c

-- A connection never goes back: through any run that calls `connect_established` in the state
-- `connecting` only, its state moves on in the order connecting, connected, disconnecting,
-- disconnected, or stays.
pub steps-forward :
    (c : TcpConnection) (es : List Event) → AllObey c es → rank c.state ≤ rank (steps c es).state
unfolding steps
steps-forward c [] o = omega arith
steps-forward c (e ∷ es) o = omega (arith, step-Ahead c e o.0, steps-forward (step c e) es o.1)
