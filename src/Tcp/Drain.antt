-- ===== src/Tcp/Drain.antt =====
-- The output buffer of src/TcpConnection.cc runs empty when the socket keeps taking bytes.
use annety.Prelude.{
  ℕ, suc, ◌-◌, ◌≤◌, ◌<◌, ◌≡◌, refl, sym, ap, ap₂, ◌∙◌, ◌⊎◌, inl, inr, Bool, true, false, not, ◌&&◌,
  List, [], ◌∷◌, ◌++◌, arith, length, Bool-cases, ltb, lt→ltb, ◌==◌, length-drop, append-nil,
}
use annety.Buffer.{readable_bytes, to_string}
use annety.Buffer.Refine.{has_read-Shows}
use annety.Channel.{disable_write_event}
use annety.Tcp.{
  make, steps, Event, disconnecting, is_disconnected, is_disconnecting, Callback, write_complete_cb,
  Written, wrote, refused, TcpConnection, queue_if, shutdown_in_loop, written_out, has_written,
  finish_write, handle_write,
}
use annety.Tcp.Run.{AllObey, steps-Flows, make-Flows, steps-bytes}
use annety.Tcp.Flow.{Flows, steps_taken, queue_if-state, no_bytes}
use annety.Tcp.Handlers.{handle_write-Flows}

-- What the rounds of `handle_write` keep: the state, and that the writing side of a connection that
-- is going down is shut once the write event is off.
record Shuts (c d : TcpConnection) : Type 0 where
  state : d.state ≡ c.state
  left : d.output_buffer ≡ c.output_buffer
  shut : is_disconnecting c.state ≡ true → (d.channel.write_event ≡ true) ⊎ (d.write_closed ≡ true)

queue_if-output :
    (b : Bool) (f : Callback) (c : TcpConnection)
    → ((queue_if b f c).output_buffer ≡ c.output_buffer) × ((queue_if b f c).channel ≡ c.channel)
queue_if-output true f c = (refl, refl)
queue_if-output false f c = (refl, refl)

shutdown_in_loop-Shuts :
    (c : TcpConnection) → c.channel.write_event ≡ false → Shuts c (shutdown_in_loop c)
unfolding shutdown_in_loop
shutdown_in_loop-Shuts c off =
    simp (off) (record { state = refl; left = refl; shut = λ going. inr refl })

written_out-Shuts : (c : TcpConnection) → Shuts c (written_out c)
unfolding written_out
written_out-Shuts c =
    let b = c.has_write_complete_cb in
    let off : TcpConnection = record c { channel = disable_write_event c.channel } in
    let told : TcpConnection = queue_if b write_complete_cb off in
    let same_state : told.state ≡ c.state = queue_if-state b write_complete_cb off in
    let same_output : told.output_buffer ≡ c.output_buffer =
      (queue_if-output b write_complete_cb off).0 in
    let asks : told.channel.write_event ≡ false =
      ap (λ ch. ch.write_event) (queue_if-output b write_complete_cb off).1 in
    elim (Bool-cases (is_disconnecting told.state)) [
      | inl going ↦
          let s = shutdown_in_loop-Shuts told asks in
          simp (going) (record {
            state = s.state ∙ same_state;
            left = s.left ∙ same_output;
            shut = λ h. s.shut going;
          })
      | inr staying ↦ simp (staying) (record {
        state = same_state;
        left = same_output;
        shut = λ h. absurd (cc (h, staying, ap is_disconnecting same_state));
      })
    ]

finish_write-Shuts : (c : TcpConnection) → c.channel.write_event ≡ true → Shuts c (finish_write c)
unfolding finish_write
finish_write-Shuts c on = elim (Bool-cases (readable_bytes c.output_buffer == 0)) [
  | inl all_out ↦ simp (all_out) (written_out-Shuts c)
  | inr more ↦ simp (more) (record { state = refl; left = refl; shut = λ h. inl on })
]

pub handle_write_state : (w : Written) (c : TcpConnection) → (handle_write w c).state ≡ c.state
unfolding handle_write has_written
handle_write_state (refused e) c = refl
handle_write_state (wrote n) c = elim (Bool-cases (c.channel.write_event && ltb 0 n)) [
  | inl go ↦
      simp (go) (finish_write-Shuts (has_written n c) (asked c.channel.write_event _ go)).state
  | inr idle ↦ simp (idle) refl
]
  where
    asked : (a b : Bool) → a && b ≡ true → a ≡ true
    asked true b e = refl
    asked false b e = e

-- Shut, or to be shut by the round that empties the buffer.
abbrev Closing : TcpConnection → Type 0
Closing c = (c.channel.write_event ≡ true) ⊎ (c.write_closed ≡ true)

record Round (c : TcpConnection) (n : ℕ) (d : TcpConnection) : Type 0 where
  state : d.state ≡ c.state
  fewer : length (to_string d.output_buffer) ≡ length (to_string c.output_buffer) - n
  shut : is_disconnecting c.state ≡ true → Closing c → Closing d

handle_write-Round :
    (n : ℕ) (c : TcpConnection) (t : List ℕ)
    → is_disconnected c.state ≡ false
    → Flows c t
    → Round c (suc n) (handle_write (wrote (suc n)) c)
unfolding handle_write has_written
handle_write-Round n c t live h = elim (Bool-cases (c.channel.write_event && ltb 0 (suc n))) [
  | inl go ↦
      let s = finish_write-Shuts (has_written (suc n) c) (and_true c.channel.write_event _ go) in
      let shows = has_read-Shows c.output_buffer h.out h.shows (suc n) in
      simp (go) (record {
        state = s.state;
        fewer =
            ap (λ b. length (to_string b)) s.left
            ∙ ap length shows.content
            ∙ length-drop (suc n) h.out
            ∙ ap (λ q. length q - suc n) (sym h.shows.content);
        shut = λ going closing. s.shut going;
      })
  | inr idle ↦
      let empty_ : length h.out ≡ 0 = no_output (length h.out) (
        ap (λ d. not d && ltb 0 (length h.out)) (sym live)
        ∙ sym h.armed
        ∙ and_false c.channel.write_event _ (lt→ltb 0 (suc n) (omega arith)) idle) in
      simp (idle) (record {
        state = refl;
        fewer = omega (arith, empty_, ap length h.shows.content);
        shut = λ going closing. closing;
      })
]
  where
    and_true : (a b : Bool) → a && b ≡ true → a ≡ true
    and_true true b e = refl
    and_true false b e = e

    and_false : (a b : Bool) → b ≡ true → a && b ≡ false → a ≡ false
    and_false true b on_ e = absurd (cc)
    and_false false b on_ e = refl

    no_output : (n : ℕ) → ltb 0 n ≡ false → n ≡ 0
    no_output n e = ground (arith, e)

-- Rounds in which the poller reports the socket writable and it takes some bytes each time.
abbrev pub handle_writes : TcpConnection → List ℕ → TcpConnection
handle_writes c [] = c
handle_writes c (n ∷ ns) = handle_writes (handle_write (wrote (suc n)) c) ns

rounds :
    (ns : List ℕ) (c : TcpConnection) (t : List ℕ)
    → is_disconnected c.state ≡ false
    → length (to_string c.output_buffer) ≤ length ns
    → Flows c t
    → Flows (handle_writes c ns) t
      × (length (to_string (handle_writes c ns).output_buffer) ≡ 0)
      × ((handle_writes c ns).state ≡ c.state)
      × (is_disconnecting c.state ≡ true → Closing c → Closing (handle_writes c ns))
rounds [] c t live few h = (h, omega arith, refl, λ going closing. closing)
rounds (n ∷ ns) c t live few h =
    let r = handle_write-Round n c t live h in
    let rest =
      rounds ns (handle_write (wrote (suc n)) c) t (ap is_disconnected r.state ∙ live)
        (omega (arith, r.fewer)) (handle_write-Flows (wrote (suc n)) c t h) in
    (
      rest.0,
      rest.1,
      rest.2 ∙ r.state,
      λ going closing. rest.3 (ap is_disconnecting r.state ∙ going) (r.shut going closing),
    )

-- After any run of a new connection that calls `connect_established` in the state `connecting`
-- only, and that leaves it not disconnected, as many rounds in which the socket takes bytes as
-- there are bytes in the output buffer bring every byte that was taken over to the socket, in
-- order, and leave the write event off.
pub handle_writes-drained :
    (a b : Bool) (mark : ℕ) (es : List Event) (ns : List ℕ)
    → AllObey (make a b mark) es
    → is_disconnected (steps (make a b mark) es).state ≡ false
    → length (to_string (steps (make a b mark) es).output_buffer) ≤ length ns
    → let d = handle_writes (steps (make a b mark) es) ns in
      (d.wire ≡ steps_taken (make a b mark) es) × (d.channel.write_event ≡ false)
handle_writes-drained a b mark es ns o live few =
    let h = steps-Flows (make a b mark) es [] o (make-Flows a b mark) in
    let r =
      rounds ns (steps (make a b mark) es) ([] ++ steps_taken (make a b mark) es) live few h in
    let d = handle_writes (steps (make a b mark) es) ns in
    let empty_ : r.0.out ≡ [] =
      no_bytes r.0.out (omega (arith, r.1, ap length r.0.shows.content)) in
    (
      sym (append-nil d.wire) ∙ ap (◌++◌ d.wire) (sym empty_) ∙ r.0.bytes,
      r.0.armed ∙ off (is_disconnected d.state) (length r.0.out) (ap length empty_),
    )
  where
    off : (x : Bool) (n : ℕ) → n ≡ 0 → not x && ltb 0 n ≡ false
    off true n e = refl
    off false n e = ground (arith, e)

-- After any run of a new connection that calls `connect_established` in the state `connecting`
-- only, and that leaves it disconnecting with bytes in the output buffer, as many rounds in which
-- the socket takes bytes as there are such bytes leave its writing side shut.
pub handle_writes-write_closed :
    (a b : Bool) (mark : ℕ) (es : List Event) (ns : List ℕ)
    → AllObey (make a b mark) es
    → (steps (make a b mark) es).state ≡ disconnecting
    → 0 < length (to_string (steps (make a b mark) es).output_buffer)
    → length (to_string (steps (make a b mark) es).output_buffer) ≤ length ns
    → (handle_writes (steps (make a b mark) es) ns).write_closed ≡ true
handle_writes-write_closed a b mark es ns o going some_ few =
    let c = steps (make a b mark) es in
    let live : is_disconnected c.state ≡ false = ap is_disconnected going in
    let h = steps-bytes a b mark es o in
    let on : c.channel.write_event ≡ true = h.1 ∙ ap₂ (λ x y. not x && y) live (lt→ltb 0 _ some_) in
    let flows = steps-Flows (make a b mark) es [] o (make-Flows a b mark) in
    let r = rounds ns c ([] ++ steps_taken (make a b mark) es) live few flows in
    let drained = handle_writes-drained a b mark es ns o live few in
    elim (r.3 (ap is_disconnecting going) (inl on)) [
      | inl still ↦ absurd (cc (still, drained.1))
      | inr shut ↦ shut
    ]
