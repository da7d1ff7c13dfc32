-- ===== src/Tcp/Tests.antt =====
-- Short runs of src/TcpConnection.cc.
use annety.Prelude.{
  ◌+◌, ◌≤◌, ◌≡◌, refl, sym, ap, true, false, not, ◌&&◌, ltb, leb, ◌==◌, if◌then◌else◌, ◌∙◌, length,
  arith, List, [], ◌∷◌, ◌++◌,
}
use annety.Buffer.{readable_bytes, to_string}
use annety.Buffer.Refine.{shown, append-Shows}
use annety.Net.{got, empty}
use annety.Net.Ints.{empty-Shows}
use annety.Channel.{fresh, Revents}
use annety.Tcp.{
  TcpConnection, disconnected, handle_close, handle_read, starts, close_cb, finish_cb, crosses,
  writes_directly, queue_if, high_water_mark_cb, make, is_disconnected, disconnecting, wrote,
  refused, eagain, step, steps, Event, established, sends, shuts, reports, runs, send, shutdown,
  run_in_own_loop, run_task, send_in_loop, write_directly, buffer_remaining, keep_remaining,
  append_output, connect_established, shutdown_in_loop,
}
use annety.Tcp.Flow.{steps_taken}
use annety.Tcp.Run.{AllObey, steps-bytes}
use annety.Tcp.States.{rank, steps-forward, start_read_reopens}
use annety.Tcp.Drain.{handle_writes, handle_writes-drained, handle_writes-write_closed}

abbrev writable : Revents
writable = record { hup = false; err = false; nval = false; in_ = false; pri = false; out = true }

-- One byte goes out at once, two wait, four are sent from another thread, two more go out.
abbrev events : List Event
events =
    established
    ∷ sends true (wrote 1) (1 ∷ 2 ∷ 3 ∷ [])
    ∷ sends false (wrote 0) (4 ∷ 5 ∷ [])
    ∷ shuts true (wrote 0)
    ∷ reports writable (got []) (wrote 1)
    ∷ runs (refused eagain)
    ∷ reports writable (got []) (wrote 3)
    ∷ []

events-AllObey : AllObey (make true true 2) events
events-AllObey = (unfold make in refl, (tt, (tt, (tt, (tt, (tt, (tt, tt)))))))

steps-bytes_example :
    ((steps (make true true 2) events).wire
        ++ to_string (steps (make true true 2) events).output_buffer
      ≡ steps_taken (make true true 2) events)
    × ((steps (make true true 2) events).channel.write_event
        ≡ not (is_disconnected (steps (make true true 2) events).state)
          && ltb 0 (length (to_string (steps (make true true 2) events).output_buffer)))
steps-bytes_example = steps-bytes true true 2 events events-AllObey

-- Three bytes are left when the writing side is to be shut.
abbrev leaving : List Event
leaving = established ∷ sends true (refused eagain) (1 ∷ 2 ∷ 3 ∷ []) ∷ shuts true (wrote 0) ∷ []

leaving-AllObey : AllObey (make false false 2) leaving
leaving-AllObey = (unfold make in refl, (tt, (tt, tt)))

no_bytes_yet : readable_bytes empty ≡ 0
no_bytes_yet = sym (shown empty [] empty-Shows)

abbrev up : TcpConnection
up = step (make false false 2) established

no_crossing : crosses up 3 ≡ false
unfolding step make connect_established
no_crossing = ap (λ n. leb 2 (n + 3) && ltb n 2 && false) no_bytes_yet

up_direct : writes_directly up ≡ true
unfolding step make connect_established fresh
up_direct = ap (λ n. n == 0) no_bytes_yet

three_sent :
    step up (sends true (refused eagain) (1 ∷ 2 ∷ 3 ∷ [])) ≡ append_output (1 ∷ 2 ∷ 3 ∷ []) up
unfolding step make send run_in_own_loop run_task send_in_loop write_directly buffer_remaining
    keep_remaining connect_established
three_sent =
    ap
      (λ d.
        if d
        then write_directly (refused eagain) (1 ∷ 2 ∷ 3 ∷ []) up
        else buffer_remaining (1 ∷ 2 ∷ 3 ∷ []) up)
      up_direct
    ∙ ap
        (λ b.
          append_output (1 ∷ 2 ∷ 3 ∷ [])
            (queue_if b (high_water_mark_cb (readable_bytes empty + 3)) up))
        no_crossing

leaving-state : (steps (make false false 2) leaving).state ≡ disconnecting
unfolding steps step shutdown run_in_own_loop run_task shutdown_in_loop append_output make
    connect_established fresh
leaving-state = ap (λ c. (step c (shuts true (wrote 0))).state) three_sent ∙ refl

leaving-bytes : to_string (steps (make false false 2) leaving).output_buffer ≡ 1 ∷ 2 ∷ 3 ∷ []
unfolding steps step shutdown run_in_own_loop run_task shutdown_in_loop append_output make
    connect_established fresh
leaving-bytes =
    ap (λ c. to_string (step c (shuts true (wrote 0))).output_buffer) three_sent
    ∙ (append-Shows empty [] empty-Shows (1 ∷ 2 ∷ 3 ∷ [])).0.content

handle_writes-drained_example :
    ((handle_writes (steps (make false false 2) leaving) (0 ∷ 0 ∷ 0 ∷ [])).wire
      ≡ steps_taken (make false false 2) leaving)
    × ((handle_writes (steps (make false false 2) leaving) (0 ∷ 0 ∷ 0 ∷ [])).channel.write_event
        ≡ false)
handle_writes-drained_example =
    handle_writes-drained false false 2 leaving (0 ∷ 0 ∷ 0 ∷ []) leaving-AllObey
      (ap is_disconnected leaving-state) (omega (arith, ap length leaving-bytes))

handle_writes-write_closed_example :
    (handle_writes (steps (make false false 2) leaving) (0 ∷ 0 ∷ 0 ∷ [])).write_closed ≡ true
handle_writes-write_closed_example =
    handle_writes-write_closed false false 2 leaving (0 ∷ 0 ∷ 0 ∷ []) leaving-AllObey leaving-state
      (omega (arith, ap length leaving-bytes)) (omega (arith, ap length leaving-bytes))

steps-forward_example :
    rank (make false false 2).state ≤ rank (steps (make false false 2) leaving).state
steps-forward_example = steps-forward (make false false 2) leaving leaving-AllObey

abbrev stopped : TcpConnection
stopped = record up { reading = false }

start_read_reopens_example :
    ((step (handle_close stopped) (starts true (wrote 0))).state ≡ disconnected)
    × ((step (handle_close stopped) (starts true (wrote 0))).channel.read_event ≡ true)
    × ((handle_read (got []) (step (handle_close stopped) (starts true (wrote 0)))).calls
        ≡ stopped.calls ++ (close_cb ∷ finish_cb ∷ close_cb ∷ finish_cb ∷ []))
start_read_reopens_example = start_read_reopens stopped (wrote 0) refl
