-- ===== src/Tcp/Run.antt =====
-- Whole runs of src/TcpConnection.cc: any order of calls, queued tasks, timers and reports.
use annety.Prelude.{
  ℕ, ◌≡◌, refl, sym, ap, ◌∙◌, subst, inl, inr, Bool, true, false, not, ◌&&◌, ◌||◌, List, [], ◌∷◌,
  ◌++◌, length, if◌then◌else◌, Bool-cases, ltb, append_assoc,
}
use annety.Buffer.{to_string}
use annety.Net.{Readv}
use annety.Net.Ints.{empty-Shows}
use annety.Channel.{remove, fresh, handle_event, Revents}
use annety.Tcp.{
  connecting, disconnecting, is_disconnected, is_connected, is_disconnecting, Task, send_task,
  shutdown_task, force_close_task, start_read_task, stop_read_task, callback_task, Written,
  TcpConnection, make, handle_close, send, shutdown, force_close, force_close_with_delay,
  start_read, stop_read, connect_established, connect_destroyed, handle_error, handle_read,
  handle_write, Event, sends, shuts, forces, forces_later, expires, starts, stops, runs,
  established, destroyed, reports, run_first, step, steps,
}
use annety.Tcp.Flow.{Flows, taken, task_taken, step_taken, steps_taken}
use annety.Tcp.Handlers.{
  run_in_own_loop-Flows, run_task-Flows, state-Flows, tasks-Flows, same, StateE-live,
  handle_write-Flows, handle_read-Flows, handle_close-Flows,
}

send-Flows :
    (own : Bool) (w : Written) (xs : List ℕ) (c : TcpConnection) (t : List ℕ)
    → Flows c t
    → Flows (send own w xs c) (t ++ (if is_connected c.state && own then taken w xs c else []))
unfolding send
send-Flows own w xs c t h = elim (Bool-cases (is_connected c.state)) [
  | inl up ↦ simp (up) (run_in_own_loop-Flows own w (send_task xs) c t h)
  | inr down ↦ simp (down) (same c t h)
]

either : (a b : Bool) → a ≡ true → a || b ≡ true
either a b h = ap (λ x. x || b) h

disconnecting-Flows :
    (c : TcpConnection) (t : List ℕ)
    → is_connected c.state || is_disconnecting c.state ≡ true
    → Flows c t
    → Flows (record c { state = disconnecting }) t
disconnecting-Flows c t up h = state-Flows disconnecting c t (sym (StateE-live c.state up)) h

shutdown-Flows :
    (own : Bool) (w : Written) (c : TcpConnection) (t : List ℕ)
    → Flows c t
    → Flows (shutdown own w c) (t ++ [])
unfolding shutdown
shutdown-Flows own w c t h = elim (Bool-cases (is_connected c.state)) [
  | inl up ↦ simp (up) (
      none_ own
        (run_in_own_loop-Flows own w shutdown_task _ t (disconnecting-Flows c t (either _ _ up) h)))
  | inr down ↦ simp (down) (same c t h)
]
  where
    none_ :
        (own : Bool) {d : TcpConnection}
        → Flows d (t ++ (if own then [] else []))
        → Flows d (t ++ [])
    none_ true f = f
    none_ false f = f

force_close-Flows : (c : TcpConnection) (t : List ℕ) → Flows c t → Flows (force_close c) t
unfolding force_close
force_close-Flows c t h = elim (Bool-cases (is_connected c.state || is_disconnecting c.state)) [
  | inl up ↦ simp (up) (tasks-Flows _ _ t (disconnecting-Flows c t up h))
  | inr down ↦ simp (down) h
]

delayed-Flows :
    (n : ℕ) (c : TcpConnection) (t : List ℕ) → Flows c t → Flows (record c { delayed = n }) t
delayed-Flows n c t h = record { out = h.out; shows = h.shows; bytes = h.bytes; armed = h.armed }

force_close_with_delay-Flows :
    (c : TcpConnection) (t : List ℕ) → Flows c t → Flows (force_close_with_delay c) t
unfolding force_close_with_delay
force_close_with_delay-Flows c t h =
    elim (Bool-cases (is_connected c.state || is_disconnecting c.state)) [
      | inl up ↦ simp (up) (delayed-Flows _ _ t (disconnecting-Flows c t up h))
      | inr down ↦ simp (down) h
    ]

connect_established-Flows :
    (c : TcpConnection) (t : List ℕ)
    → c.state ≡ connecting
    → Flows c t
    → Flows (connect_established c) t
unfolding connect_established
connect_established-Flows c t e h = record {
  out = h.out;
  shows = h.shows;
  bytes = h.bytes;
  armed = h.armed ∙ ap (λ s. not (is_disconnected s) && ltb 0 (length h.out)) e;
}

remove-Flows :
    (c : TcpConnection) (t : List ℕ) → Flows c t → Flows (record c { channel = remove c.channel }) t
remove-Flows c t h = record { out = h.out; shows = h.shows; bytes = h.bytes; armed = h.armed }

connect_destroyed-Flows :
    (c : TcpConnection) (t : List ℕ) → Flows c t → Flows (connect_destroyed c) t
unfolding connect_destroyed
connect_destroyed-Flows c t h = elim (Bool-cases (is_connected c.state)) [
  | inr down ↦ simp (down) (remove-Flows c t h)
  | inl up ↦ simp (up) (record { out = h.out; shows = h.shows; bytes = h.bytes; armed = refl })
]

when-Flows :
    (b : Bool) (f : TcpConnection → TcpConnection) (c : TcpConnection) (t : List ℕ)
    → ((d : TcpConnection) → Flows d t → Flows (f d) t)
    → Flows c t
    → Flows (if b then f c else c) t
when-Flows true f c t k h = k c h
when-Flows false f c t k h = h

handle_event-Flows :
    (r : Revents) (input : Readv) (w : Written) (c : TcpConnection) (t : List ℕ)
    → Flows c t
    → Flows (handle_event handle_close handle_error (handle_read input) (handle_write w) r c) t
handle_event-Flows r input w c t h =
    when-Flows r.out (handle_write w) _ t (λ d. handle_write-Flows w d t)
      (when-Flows (r.in_ || r.pri) (handle_read input) _ t (λ d. handle_read-Flows input d t)
        (when-Flows (r.err || r.nval) handle_error _ t (λ d k. k)
          (when-Flows (r.hup && not r.in_) handle_close c t (λ d. handle_close-Flows d t) h)))

expires-Flows : (c : TcpConnection) (t : List ℕ) → Flows c t → Flows (step c expires) t
unfolding step
expires-Flows c t h = elim (Bool-cases (ltb 0 c.delayed)) [
  | inl due ↦ simp (due) (force_close-Flows _ t (delayed-Flows _ c t h))
  | inr none_ ↦ simp (none_) h
]

run_first-Flows :
    (w : Written) (ts : List Task) (c : TcpConnection) (t : List ℕ)
    → Flows c t
    → Flows (run_first w ts c) (t ++ task_taken w ts c)
unfolding run_first
run_first-Flows w [] c t h = same c t h
run_first-Flows w (k ∷ ts) c t h =
    taken_same k (run_task-Flows w k ts (record c { tasks = ts }) t (tasks-Flows ts c t h))
  where
    taken_same :
        (k : Task) {d : TcpConnection}
        → Flows d (t ++ task_taken w (k ∷ ts) (record c { tasks = ts }))
        → Flows d (t ++ task_taken w (k ∷ ts) c)
    taken_same (send_task data_) f = f
    taken_same shutdown_task f = f
    taken_same force_close_task f = f
    taken_same start_read_task f = f
    taken_same stop_read_task f = f
    taken_same (callback_task g) f = f

-- The DCHECK of `connect_established`.
abbrev pub Obeys : TcpConnection → Event → Type 0
Obeys c (sends own w data_) = Unit {0}
Obeys c (shuts own w) = Unit {0}
Obeys c forces = Unit {0}
Obeys c forces_later = Unit {0}
Obeys c expires = Unit {0}
Obeys c (starts own w) = Unit {0}
Obeys c (stops own w) = Unit {0}
Obeys c (runs w) = Unit {0}
Obeys c established = c.state ≡ connecting
Obeys c destroyed = Unit {0}
Obeys c (reports r input w) = Unit {0}

abbrev pub AllObey : TcpConnection → List Event → Type 0
AllObey c [] = Unit {0}
AllObey c (e ∷ es) = Obeys c e × AllObey (step c e) es

own_none :
    (own : Bool) {d : TcpConnection} (t : List ℕ)
    → Flows d (t ++ (if own then [] else []))
    → Flows d (t ++ [])
own_none true t f = f
own_none false t f = f

pub step-Flows :
    (c : TcpConnection) (e : Event) (t : List ℕ)
    → Obeys c e
    → Flows c t
    → Flows (step c e) (t ++ step_taken c e)
unfolding step start_read stop_read
step-Flows c (sends own w data_) t o h = send-Flows own w data_ c t h
step-Flows c (shuts own w) t o h = shutdown-Flows own w c t h
step-Flows c forces t o h = same _ t (force_close-Flows c t h)
step-Flows c forces_later t o h = same _ t (force_close_with_delay-Flows c t h)
step-Flows c expires t o h = same _ t (expires-Flows c t h)
step-Flows c (starts own w) t o h =
    own_none own t (run_in_own_loop-Flows own w start_read_task c t h)
step-Flows c (stops own w) t o h = own_none own t (run_in_own_loop-Flows own w stop_read_task c t h)
step-Flows c (runs w) t o h = run_first-Flows w c.tasks c t h
step-Flows c established t o h = same _ t (connect_established-Flows c t o h)
step-Flows c destroyed t o h = same _ t (connect_destroyed-Flows c t h)
step-Flows c (reports r input w) t o h = same _ t (handle_event-Flows r input w c t h)

pub steps-Flows :
    (c : TcpConnection) (es : List Event) (t : List ℕ)
    → AllObey c es
    → Flows c t
    → Flows (steps c es) (t ++ steps_taken c es)
unfolding steps
steps-Flows c [] t o h = same c t h
steps-Flows c (e ∷ es) t o h =
    subst (Flows (steps (step c e) es))
      (append_assoc t (step_taken c e) (steps_taken (step c e) es))
      (steps-Flows (step c e) es (t ++ step_taken c e) o.1 (step-Flows c e t o.0 h))

pub make-Flows : (a b : Bool) (mark : ℕ) → Flows (make a b mark) []
unfolding make fresh
make-Flows a b mark = record { out = []; shows = empty-Shows; bytes = refl; armed = refl }

-- After any run of a new connection that calls `connect_established` in the state `connecting`
-- only, with any answers of the socket, the bytes that the socket took, followed by those in the
-- output buffer, are exactly those that `send_in_loop` took over, in that order; and the write
-- event is asked for just when the connection is not disconnected and the output buffer is not
-- empty.
pub steps-bytes :
    (a b : Bool) (mark : ℕ) (es : List Event)
    → AllObey (make a b mark) es
    → let c = steps (make a b mark) es in
      (c.wire ++ to_string c.output_buffer ≡ steps_taken (make a b mark) es)
      × (c.channel.write_event
          ≡ not (is_disconnected c.state) && ltb 0 (length (to_string c.output_buffer)))
steps-bytes a b mark es o =
    let last = steps-Flows (make a b mark) es [] o (make-Flows a b mark) in
    let c = steps (make a b mark) es in
    (
      ap (◌++◌ c.wire) last.shows.content ∙ last.bytes,
      last.armed
          ∙ ap (λ q. not (is_disconnected c.state) && ltb 0 (length q)) (sym last.shows.content),
    )
