-- ===== src/Codec.antt =====
-- include/codec/Codec.h: the base class of the codecs. `decode` and `encode` are virtual, so the
-- two loops take them as parameters; a codec may keep a state of its own between calls.
pub mod Recv
pub mod LengthHeader
pub mod StringEof
pub mod Tests
use annety.Prelude.{ℕ, zero, suc, Bool, true, false, List, [], ◌∷◌, ◌++◌, Option, none, some}
use annety.Buffer.{ByteBuffer, readable_bytes, to_string}
use annety.Net.{empty}

-- The `int` that both return: -1, 0 and 1.
pub data Verdict : Type 0 where
  error incomplete success : Verdict

pub record Decoded (S : Type 0) : Type 0 where
  pub verdict : Verdict
  pub state : S
  pub buff : ByteBuffer
  pub payload : ByteBuffer

-- What `recv` leaves: the codec's state, the input buffer, the payloads that went to the message
-- callback in their order, and whether the connection was shut down.
pub record Received (S : Type 0) : Type 0 where
  pub state : S
  pub buff : ByteBuffer
  pub messages : List (List ℕ)
  pub shutdown : Bool

module _ {S : Type 0} (decode : S → ByteBuffer → ByteBuffer → Decoded S) where
  -- The do-while loop of `recv`; every round has a fresh payload. `none` stands for fuel that ran
  -- out.
  pub recv_loop : ℕ → S → ByteBuffer → List (List ℕ) → Option (Received S)
  recv_loop zero state buff messages = none
  recv_loop (suc fuel) state buff messages =
      let d = decode state buff empty in
      elim d.verdict [
        | success ↦ recv_loop fuel d.state d.buff (messages ++ (to_string d.payload ∷ []))
        | incomplete ↦
            some (record { state = d.state; buff = d.buff; messages = messages; shutdown = false })
        | error ↦
            some (record { state = d.state; buff = d.buff; messages = messages; shutdown = true })
      ]

  -- `recv` on a buffer, with a round for every readable byte and one more.
  pub recv : S → ByteBuffer → Option (Received S)
  unfolding recv_loop
  recv state buff = recv_loop (suc (readable_bytes buff)) state buff []

-- What `send` hands to the connection: a buffer to send, a shutdown, or neither.
pub data Sent : Type 0 where
  sent : ByteBuffer → Sent
  shut : Sent
  nothing : Sent

pub send_with : (ByteBuffer → ByteBuffer → Verdict × ByteBuffer) → ByteBuffer → Sent
send_with encode payload =
    let (verdict, buff) = encode payload empty in
    elim verdict [ success ↦ sent buff | error ↦ shut | incomplete ↦ nothing ]
