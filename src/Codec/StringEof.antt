-- ===== src/Codec/StringEof.antt =====
-- include/codec/StringEofCodec.h: payloads that end in a fixed text. Between calls the codec keeps
-- the offset from which it searches on, a `size_t` that wraps. The constructor demands a text that
-- is not empty and a positive limit.
pub mod Frames
pub mod Offset
pub mod Ends
pub mod Tests
use annety.Prelude.{
  ℕ, ◌+◌, ◌-◌, ◌%◌, ◌^◌, Bool, true, false, ◌&&◌, List, Option, none, some, ltb, leb, ◌==◌,
  if◌then◌else◌, length, get_or,
}
use annety.Buffer.{ByteBuffer, readable_bytes, has_read, read_from, to_string, append}
use annety.Text.{find, find_char}
use annety.Codec.{Verdict, error, incomplete, success, Decoded}

pub record StringEofCodec : Type 0 where
  pub string_eof : List ℕ
  pub max_payload : ℕ

-- A single character is searched for as a character.
pub find_eof : StringEofCodec → List ℕ → ℕ → Option ℕ
find_eof c piece curr_offset =
    if length c.string_eof == 1
    then find_char piece (get_or c.string_eof 0 0) curr_offset
    else find piece c.string_eof curr_offset

-- `curr_offset_ += readable - eof - 1` in `size_t`.
abbrev pub next_offset : ℕ → ℕ → ℕ → ℕ
next_offset curr_offset readable eof = (curr_offset + (readable + 2 ^ 64 - eof - 1)) % 2 ^ 64

pub decode : StringEofCodec → ℕ → ByteBuffer → ByteBuffer → Decoded ℕ
unfolding find_eof
decode c curr_offset buff payload =
    let k = length c.string_eof in
    let r = readable_bytes buff in
    let moved = next_offset curr_offset r k in
    if leb k r
    then (elim (find_eof c (to_string buff) curr_offset) [
      | none ↦
          if ltb 0 c.max_payload && ltb (c.max_payload + k) r
          then record { verdict = error; state = moved; buff = buff; payload = payload }
          else record { verdict = incomplete; state = moved; buff = buff; payload = payload }
      | some n ↦ record {
        verdict = success;
        state = 0;
        buff = has_read buff (n + k);
        payload = (append payload (read_from buff 0 n)).0;
      }
    ])
    else record { verdict = incomplete; state = curr_offset; buff = buff; payload = payload }

pub encode : StringEofCodec → ByteBuffer → ByteBuffer → Verdict × ByteBuffer
encode c payload buff =
    let n = readable_bytes payload in
    if n == 0
    then (incomplete, buff)
    else (if ltb 0 c.max_payload && ltb c.max_payload n
        then (error, buff)
        else (success, (append (append buff (read_from payload 0 n)).0 c.string_eof).0))
