-- ===== src/Codec/LengthHeader.antt =====
-- include/codec/LengthHeaderCodec.h: frames of a length, a payload and an optional CRC-32. The
-- length counts the payload and the checksum.
pub mod Parts
pub mod Encode
pub mod Decode
pub mod Partial
pub mod Stream
pub mod Cut
pub mod Segments
pub mod Limits
use annety.Prelude.{ℕ, ◌+◌, ◌-◌, Bool, true, false, ◌&&◌, ◌||◌, List, ltb, leb, ◌==◌, if◌then◌else◌}
use annety.Prelude.Int.{ℤ, pos, negsuc, ltb_ℤ, ◌+ℤ◌, ◌-ℤ◌}
use annety.Buffer.{ByteBuffer, readable_bytes, has_read, read_from, to_string, to_size, append}
use annety.Net.{append_int, append_int8, peek_int, peek_int8}
use annety.Net.Order.{Endian, load, net_to_host}
use annety.Crc.{crc32_short, crc32_long}
use annety.Codec.{Verdict, error, incomplete, success, Decoded}

pub data LengthType : Type 0 where
  type8 type16 type32 type64 : LengthType

-- `sizeof` of the length, which is the number that the enumerator stands for.
abbrev pub width : LengthType → ℕ
width type8 = 1
width type16 = 2
width type32 = 4
width type64 = 8

pub record LengthHeaderCodec : Type 0 where
  pub length_type : LengthType
  pub max_payload : ℤ
  pub checksum_length : ℤ

pub make : LengthType → Bool → ℤ → LengthHeaderCodec
make t enable_checksum max = record {
  length_type = t;
  max_payload = max;
  checksum_length = if enable_checksum then pos 4 else pos 0;
}

abbrev pub min_payload : LengthHeaderCodec → ℤ
min_payload c = c.checksum_length

-- `crc32_func`, chosen by the length.
pub checksum_of : ℤ → List ℕ → ℕ
checksum_of length bytes = if ltb_ℤ (pos 60) length then crc32_long bytes else crc32_short bytes

pub get_payload_length : LengthType → Endian → ByteBuffer → ℤ
get_payload_length type8 e buff = peek_int8 e buff
get_payload_length type16 e buff = peek_int e 2 buff
get_payload_length type32 e buff = peek_int e 4 buff
get_payload_length type64 e buff = peek_int e 8 buff

pub set_buff_length : LengthType → Endian → ℤ → ByteBuffer → ByteBuffer
set_buff_length type8 e length buff = append_int8 e buff length
set_buff_length type16 e length buff = append_int e 2 buff length
set_buff_length type32 e length buff = append_int e 4 buff length
set_buff_length type64 e length buff = append_int e 8 buff length

-- `peek_uint32(buff->begin_read() + off)`.
pub peek_uint32 : Endian → ByteBuffer → ℕ → ℕ
peek_uint32 e buff off = net_to_host e 4 (load e (read_from buff off 4))

-- `length` is out of the range that the codec allows.
abbrev pub out_of_range : LengthHeaderCodec → ℤ → ℤ → Bool
out_of_range c least length =
    ltb_ℤ length least || ltb_ℤ (pos 0) c.max_payload && ltb_ℤ c.max_payload length

-- The end of `decode`, for a whole frame whose length field holds `n`.
pub decode_frame : LengthHeaderCodec → Endian → ByteBuffer → ByteBuffer → ℕ → Decoded (Unit {0})
decode_frame c e buff payload n =
    let w = width c.length_type in
    let body = to_size (pos n -ℤ c.checksum_length) in
    let bytes = read_from buff w body in
    let guarded = ltb_ℤ (pos 0) c.checksum_length in
    let checksum = if guarded then peek_uint32 e buff (w + body) else 0 in
    let expectsum = if guarded then checksum_of (pos n -ℤ c.checksum_length) bytes else 0 in
    if expectsum == checksum
    then record {
      verdict = success;
      state = tt;
      buff = has_read buff (w + n);
      payload = (append payload bytes).0;
    }
    else record { verdict = error; state = tt; buff = buff; payload = payload }

pub decode : LengthHeaderCodec → Endian → Unit {0} → ByteBuffer → ByteBuffer → Decoded (Unit {0})
decode c e _ buff payload =
    let w = width c.length_type in
    let length = get_payload_length c.length_type e buff in
    if leb w (readable_bytes buff)
    then (if out_of_range c (min_payload c) length
        then record { verdict = error; state = tt; buff = buff; payload = payload }
        else (if leb (to_size length + w) (readable_bytes buff)
            then decode_frame c e buff payload (to_size length)
            else record { verdict = incomplete; state = tt; buff = buff; payload = payload }))
    else record { verdict = incomplete; state = tt; buff = buff; payload = payload }

pub encode : LengthHeaderCodec → Endian → ByteBuffer → ByteBuffer → Verdict × ByteBuffer
encode c e payload buff =
    let n = readable_bytes payload in
    if n == 0
    then (incomplete, buff)
    else (if out_of_range c (min_payload c -ℤ c.checksum_length) (pos n) then (error, buff) else (
      success,
      (let headed = set_buff_length c.length_type e (pos n +ℤ c.checksum_length) buff in
          let filled = (append headed (read_from payload 0 n)).0 in
          if ltb_ℤ (pos 0) c.checksum_length
          then append_int e 4 filled (pos (checksum_of (pos n) (read_from payload 0 n)))
          else filled),
    ))
