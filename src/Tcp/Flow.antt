-- ===== src/Tcp/Flow.antt =====
-- The bytes of src/TcpConnection.cc: from `send_in_loop` over the output buffer to the socket.
use annety.Prelude.{
  ℕ, ◌+◌, ◌<◌, ◌≡◌, refl, sym, ap, ap₂, ◌∙◌, subst, inl, inr, Bool, true, false, not, ◌&&◌, ◌||◌,
  List, [], ◌∷◌, ◌++◌, arith, length, take, drop, if◌then◌else◌, Bool-cases, ltb, ◌==◌, ==_iff,
  lt→ltb, length-append, append_assoc, append-nil, take-append-drop,
}
use annety.Buffer.{readable_bytes}
use annety.Buffer.Refine.{Shows, append-Shows, shown}
use annety.Channel.{Channel}
use annety.Tcp.{
  is_disconnected, is_connected, Task, send_task, shutdown_task, force_close_task, start_read_task,
  stop_read_task, callback_task, Callback, high_water_mark_cb, write_complete_cb, Written, wrote,
  refused, fault_error, TcpConnection, arm_write_event, queue_if, append_output, keep_remaining,
  buffer_remaining, crosses, writes_directly, write_directly, send_in_loop, Event, sends, shuts,
  forces, forces_later, expires, starts, stops, runs, established, destroyed, reports, step,
}

-- The bytes that `send_in_loop` takes over: all, but none once disconnected or if the write that it
-- tries at once says that the peer has closed.
abbrev pub refuses : Written → Bool
refuses (wrote n) = false
refuses (refused errno) = fault_error errno

abbrev pub taken : Written → List ℕ → TcpConnection → List ℕ
taken w data_ c = if is_disconnected c.state || (writes_directly c && refuses w) then [] else data_

abbrev pub task_taken : Written → List Task → TcpConnection → List ℕ
task_taken w [] c = []
task_taken w (send_task data_ ∷ ts) c = taken w data_ c
task_taken w (shutdown_task ∷ ts) c = []
task_taken w (force_close_task ∷ ts) c = []
task_taken w (start_read_task ∷ ts) c = []
task_taken w (stop_read_task ∷ ts) c = []
task_taken w (callback_task f ∷ ts) c = []

-- What an event gives to the connection: a `send` in the loop's thread, or a queued one that runs.
abbrev pub step_taken : TcpConnection → Event → List ℕ
step_taken c (sends own w data_) = if is_connected c.state && own then taken w data_ c else []
step_taken c (shuts own w) = []
step_taken c forces = []
step_taken c forces_later = []
step_taken c expires = []
step_taken c (starts own w) = []
step_taken c (stops own w) = []
step_taken c (runs w) = task_taken w c.tasks c
step_taken c established = []
step_taken c destroyed = []
step_taken c (reports r input w) = []

abbrev pub steps_taken : TcpConnection → List Event → List ℕ
steps_taken c [] = []
steps_taken c (e ∷ es) = step_taken c e ++ steps_taken (step c e) es

pub record Flows (c : TcpConnection) (total : List ℕ) : Type 0 where
  pub out : List ℕ
  pub shows : Shows c.output_buffer out
  pub bytes : c.wire ++ out ≡ total
  pub armed : c.channel.write_event ≡ not (is_disconnected c.state) && ltb 0 (length out)

pub queue_if-Flows :
    (b : Bool) (f : Callback) (c : TcpConnection) (t : List ℕ)
    → Flows c t
    → Flows (queue_if b f c) t
queue_if-Flows true f c t h = record {
  out = h.out;
  shows = h.shows;
  bytes = h.bytes;
  armed = h.armed;
}
queue_if-Flows false f c t h = h

armed-true : (ch : Channel) → (arm_write_event ch).write_event ≡ true
armed-true ch = elim (Bool-cases ch.write_event) [
  | inl on ↦ simp (on) refl
  | inr off ↦ simp (off) refl
]

pub queue_if-state :
    (b : Bool) (f : Callback) (c : TcpConnection) → (queue_if b f c).state ≡ c.state
queue_if-state true f c = refl
queue_if-state false f c = refl

append_output-Flows :
    (rest : List ℕ) (c : TcpConnection) (t : List ℕ)
    → 0 < length rest
    → is_disconnected c.state ≡ false
    → Flows c t
    → Flows (append_output rest c) (t ++ rest)
unfolding append_output
append_output-Flows rest c t some_ live h = record {
  out = h.out ++ rest;
  shows = (append-Shows _ h.out h.shows rest).0;
  bytes = sym (append_assoc _ h.out rest) ∙ ap (λ l. l ++ rest) h.bytes;
  armed =
      armed-true c.channel
      ∙ sym (
          ap₂ (λ a b. not a && b) live
            (lt→ltb 0 (length (h.out ++ rest)) (omega (arith, length-append h.out rest))));
}

buffer_remaining-Flows :
    (rest : List ℕ) (c : TcpConnection) (t : List ℕ)
    → is_disconnected c.state ≡ false
    → Flows c t
    → Flows (buffer_remaining rest c) (t ++ rest)
unfolding buffer_remaining keep_remaining
buffer_remaining-Flows [] c t live h = subst (Flows c) (sym (append-nil t)) h
buffer_remaining-Flows (x ∷ xs) c t live h =
    let b = crosses c (length (x ∷ xs)) in
    let f = high_water_mark_cb (readable_bytes c.output_buffer + length (x ∷ xs)) in
    rw (lt→ltb 0 (length (x ∷ xs)) (omega arith)) (
      append_output-Flows (x ∷ xs) (queue_if b f c) t (omega arith)
        (ap is_disconnected (queue_if-state b f c) ∙ live) (queue_if-Flows b f c t h))

pub no_bytes : (xs : List ℕ) → length xs ≡ 0 → xs ≡ []
no_bytes [] h = refl
no_bytes (x ∷ xs) h = absurd (omega arith)

and_right : (a b : Bool) → a && b ≡ true → b ≡ true
and_right true b h = h
and_right false b h = absurd (cc)

direct_empty :
    (c : TcpConnection) (t : List ℕ) → writes_directly c ≡ true → (h : Flows c t) → h.out ≡ []
direct_empty c t direct h =
    no_bytes h.out
      (shown _ h.out h.shows ∙ (==_iff _ _).0 (and_right (not c.channel.write_event) _ direct))

write_directly-Flows :
    (w : Written) (data_ : List ℕ) (c : TcpConnection) (t : List ℕ)
    → is_disconnected c.state ≡ false
    → writes_directly c ≡ true
    → Flows c t
    → Flows (write_directly w data_ c) (t ++ (if refuses w then [] else data_))
unfolding write_directly
write_directly-Flows (wrote n) data_ c t live direct h =
    let none_ : h.out ≡ [] = direct_empty c t direct h in
    let total : c.wire ≡ t = sym (append-nil c.wire) ∙ ap (◌++◌ c.wire) (sym none_) ∙ h.bytes in
    let sent : Flows (record c { wire = c.wire ++ take n data_ }) (t ++ take n data_) = record {
      out = h.out;
      shows = h.shows;
      bytes =
          ap (◌++◌ (c.wire ++ take n data_)) none_
          ∙ append-nil _
          ∙ ap (λ l. l ++ take n data_) total;
      armed = h.armed;
    } in
    let b = (length data_ == n) && c.has_write_complete_cb in
    subst (Flows (write_directly (wrote n) data_ c))
      (append_assoc t (take n data_) (drop n data_) ∙ ap (◌++◌ t) (take-append-drop n data_))
      (buffer_remaining-Flows (drop n data_) _ (t ++ take n data_)
        (ap is_disconnected
            (queue_if-state b write_complete_cb (record c { wire = c.wire ++ take n data_ }))
          ∙ live)
        (queue_if-Flows b write_complete_cb (record c { wire = c.wire ++ take n data_ }) _ sent))
write_directly-Flows (refused e) data_ c t live direct h = elim (Bool-cases (fault_error e)) [
  | inl bad ↦ simp (bad) (subst (Flows c) (sym (append-nil t)) h)
  | inr good ↦ simp (good) (buffer_remaining-Flows data_ c t live h)
]

pub send_in_loop-Flows :
    (w : Written) (data_ : List ℕ) (c : TcpConnection) (t : List ℕ)
    → Flows c t
    → Flows (send_in_loop w data_ c) (t ++ taken w data_ c)
unfolding send_in_loop
send_in_loop-Flows w data_ c t h = elim (Bool-cases (is_disconnected c.state)) [
  | inl gone ↦ simp (gone) (subst (Flows c) (sym (append-nil t)) h)
  | inr live ↦ elim (Bool-cases (writes_directly c)) [
    | inl direct ↦ simp (live, direct) (write_directly-Flows w data_ c t live direct h)
    | inr later ↦ simp (live, later) (buffer_remaining-Flows data_ c t live h)
  ]
]
