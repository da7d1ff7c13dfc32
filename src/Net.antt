-- ===== src/Net.antt =====
-- include/NetBuffer.h and src/NetBuffer.cc: integers in network order over a ByteBuffer, and
-- reading from a file descriptor. A NetBuffer has no state of its own. `ssize_t` and `int*_t`
-- values are integers; a conversion between a signed and an unsigned type of `w` bytes is
-- `to_unsigned` and `to_signed`.
pub mod Order
pub mod Ints
pub mod ReadFd
pub mod Tests
use annety.Prelude.{
  ℕ, ◌+◌, ◌-◌, ◌*◌, ◌%◌, ◌^◌, ◌≤◌, ◌<◌, List, [], ◌∷◌, leb, ltb, if◌then◌else◌, length, take, drop,
}
use annety.Prelude.Int.{ℤ, pos, negsuc}
use annety.Buffer.{
  ByteBuffer, un_limit_size, initial_size, make, append, has_read, read_at, writable_bytes, put,
}
use Order.{Endian, store, load, host_to_net, net_to_host}

-- `NetBuffer()`.
pub empty : ByteBuffer
empty = make un_limit_size initial_size

abbrev pub to_unsigned : ℕ → ℤ → ℕ
to_unsigned w (pos n) = n % 256 ^ w
to_unsigned w (negsuc n) = 256 ^ w - 1 - n % 256 ^ w

abbrev pub to_signed : ℕ → ℕ → ℤ
to_signed w u = if ltb (2 * u) (256 ^ w) then pos u else negsuc (256 ^ w - 1 - u)

-- The values of a signed type of `w` bytes.
abbrev pub InRange : ℕ → ℤ → Type 0
InRange w (pos n) = 2 * n < 256 ^ w
InRange w (negsuc n) = 2 * n + 2 ≤ 256 ^ w

-- `append_int64`, `append_int32` and `append_int16` are this at the widths 8, 4 and 2; the result
-- of `append` is dropped.
pub append_int : Endian → ℕ → ByteBuffer → ℤ → ByteBuffer
append_int e w b x = (append b (store e w (host_to_net e w (to_unsigned w x)))).0

pub append_int8 : Endian → ByteBuffer → ℤ → ByteBuffer
append_int8 e b x = (append b (store e 1 (to_unsigned 1 x))).0

-- `peek_int64`, `peek_int32` and `peek_int16`, under their assert that `w` bytes are readable.
pub peek_int : Endian → ℕ → ByteBuffer → ℤ
peek_int e w b = to_signed w (net_to_host e w (load e (read_at b w)))

pub peek_int8 : Endian → ByteBuffer → ℤ
peek_int8 e b = to_signed 1 (load e (read_at b 1))

-- `read_int64`, `read_int32` and `read_int16`.
pub read_int : Endian → ℕ → ByteBuffer → ℤ × ByteBuffer
unfolding peek_int
read_int e w b = (peek_int e w b, has_read b w)

pub read_int8 : Endian → ByteBuffer → ℤ × ByteBuffer
unfolding peek_int8
read_int8 e b = (peek_int8 e b, has_read b 1)

-- What `readv` answers: an error number, or the bytes that it put into the vectors.
pub data Readv : Type 0 where
  failed : ℕ → Readv
  got : List ℕ → Readv

abbrev pub extrabuf_size : ℕ
extrabuf_size = 65536

-- What the vectors passed to `readv` can hold: the second one is passed only if the first is
-- smaller than it.
pub capacity : ByteBuffer → ℕ
capacity b =
    if ltb (writable_bytes b) extrabuf_size
    then writable_bytes b + extrabuf_size
    else writable_bytes b

-- The buffer, the `ssize_t` that is returned and the error number.
pub read_fd : ByteBuffer → Readv → ByteBuffer × ℤ × ℕ
read_fd b (failed errno) = (b, negsuc 0, errno)
read_fd b (got xs) =
    if leb (length xs) (writable_bytes b) then (put b xs, pos (length xs), 0) else (
      (append (put b (take (writable_bytes b) xs)) (drop (writable_bytes b) xs)).0,
      pos (length xs),
      0,
    )
