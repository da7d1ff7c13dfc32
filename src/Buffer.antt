-- ===== src/Buffer.antt =====
-- include/ByteBuffer.h and src/ByteBuffer.cc: the growable byte buffer under every connection.
-- A byte is a number below 256. `buffer` is the std::vector, so `length b.buffer` is `size()`;
-- a pointer into it is the offset from `data()`. The `assert`s of the source are the facts that
-- `IsValid` and the theorems of the child modules state, so the definitions leave them out; under
-- `IsValid` no subtraction below goes under 0. `resize` is taken to find memory.
pub mod Inv
pub mod View
pub mod Append
pub mod Refine
pub mod Tests
use annety.Prelude.{
  ℕ, ◌+◌, ◌-◌, ◌^◌, ◌≤◌, ◌≡◌, min, Bool, true, false, not, ◌&&◌, List, [], ◌∷◌, ◌++◌, ltb, leb,
  ◌==◌, if◌then◌else◌, length, take, drop, replicate,
}
use annety.Prelude.Int.{ℤ, pos, negsuc}

pub record ByteBuffer : Type 0 where
  pub max_size : ℤ
  pub reader_index : ℕ
  pub writer_index : ℕ
  pub buffer : List ℕ

-- `kUnLimitSize` is -1.
abbrev pub un_limit_size : ℤ
un_limit_size = negsuc 0

abbrev pub initial_size : ℕ
initial_size = 1024

-- `static_cast<size_t>` of an `ssize_t`.
abbrev pub to_size : ℤ → ℕ
to_size (pos n) = n
to_size (negsuc n) = 2 ^ 64 - 1 - n

-- `max_size_ != kUnLimitSize`.
abbrev pub is_fixed : ℤ → Bool
is_fixed (pos n) = true
is_fixed (negsuc n) = not (n == 0)

-- `max_size > 0`.
abbrev is_positive : ℤ → Bool
is_positive (pos n) = ltb 0 n
is_positive (negsuc n) = false

pub make : ℤ → ℕ → ByteBuffer
make max init = record {
  max_size = max;
  reader_index = 0;
  writer_index = 0;
  buffer = replicate (if is_positive max then to_size max else init) 0;
}

pub reset : ByteBuffer → ByteBuffer
reset b = record b { reader_index = 0; writer_index = 0 }

-- The buffer that the move constructor builds, and what is left of its argument: a moved-from
-- vector is empty.
pub move_from : ByteBuffer → ByteBuffer × ByteBuffer
unfolding reset
move_from rhs = (rhs, reset (record rhs { buffer = [] }))

-- `operator=(ByteBuffer&&)` swaps the two and resets the right one.
pub move_assign : ByteBuffer → ByteBuffer → ByteBuffer × ByteBuffer
unfolding reset
move_assign b rhs = (rhs, reset b)

abbrev pub size : ByteBuffer → ℕ
size b = length b.buffer

pub readable_bytes : ByteBuffer → ℕ
readable_bytes b = b.writer_index - b.reader_index

pub writable_bytes : ByteBuffer → ℕ
writable_bytes b = (if is_fixed b.max_size then to_size b.max_size else size b) - b.writer_index

pub has_written : ByteBuffer → ℕ → ByteBuffer
has_written b len = record b { writer_index = b.writer_index + len }

pub has_read : ByteBuffer → ℕ → ByteBuffer
unfolding readable_bytes reset
has_read b len =
    if ltb len (readable_bytes b) then record b { reader_index = b.reader_index + len } else reset b

pub has_read_all : ByteBuffer → ByteBuffer
unfolding reset
has_read_all b = reset b

-- The `n` bytes from `begin_read()` on.
pub read_at : ByteBuffer → ℕ → List ℕ
read_at b n = take n (drop b.reader_index b.buffer)

-- The `n` bytes from `begin_read() + off` on.
pub read_from : ByteBuffer → ℕ → ℕ → List ℕ
read_from b off n = take n (drop (b.reader_index + off) b.buffer)

-- `to_string` and `to_string_piece`.
pub to_string : ByteBuffer → List ℕ
unfolding read_at readable_bytes
to_string b = read_at b (readable_bytes b)

-- A negative length stands for all that is readable.
pub taken_as_string : ByteBuffer → ℤ → List ℕ × ByteBuffer
unfolding read_at readable_bytes has_read
taken_as_string b (pos n) = (read_at b n, has_read b n)
taken_as_string b (negsuc n) = (read_at b (readable_bytes b), has_read b (readable_bytes b))

-- `std::vector::resize`: cut at the end, or filled up with zeros.
pub resize : List ℕ → ℕ → List ℕ
resize xs n = take n xs ++ replicate (n - length xs) 0

-- `std::copy` of `xs` to the offset `at`.
pub overwrite : List ℕ → ℕ → List ℕ → List ℕ
overwrite buffer at xs = take at buffer ++ (xs ++ drop (at + length xs) buffer)

pub migration_buffer_data : ByteBuffer → ByteBuffer
unfolding to_string overwrite readable_bytes
migration_buffer_data b = if b.reader_index == 0 then b else record b {
  reader_index = 0;
  writer_index = readable_bytes b;
  buffer = overwrite b.buffer 0 (to_string b);
}

-- The writable bytes for which memory is there.
pub real_writeable_bytes : ByteBuffer → ℕ
unfolding writable_bytes
real_writeable_bytes b =
    if is_fixed b.max_size
    then min (to_size b.max_size) (size b) - b.writer_index
    else writable_bytes b

pub make_writable_bytes : ByteBuffer → ℕ → ByteBuffer
unfolding real_writeable_bytes migration_buffer_data resize
make_writable_bytes b len =
    if ltb (real_writeable_bytes b) len
    then (if is_fixed b.max_size && ltb (to_size b.max_size - b.writer_index) len
        then b
        else record b { buffer = resize b.buffer (b.writer_index + len) })
    else migration_buffer_data b

pub ensure_writable_bytes : ByteBuffer → ℕ → ByteBuffer
unfolding make_writable_bytes
ensure_writable_bytes b len = make_writable_bytes b len

-- The write of `append` once the memory is there.
pub put : ByteBuffer → List ℕ → ByteBuffer
unfolding overwrite has_written
put b xs = has_written (record b { buffer = overwrite b.buffer b.writer_index xs }) (length xs)

pub append : ByteBuffer → List ℕ → ByteBuffer × Bool
unfolding ensure_writable_bytes writable_bytes put
append b xs =
    let grown = ensure_writable_bytes b (length xs) in
    if leb (length xs) (writable_bytes grown) then (put grown xs, true) else (grown, false)

pub shrink : ByteBuffer → ByteBuffer
unfolding migration_buffer_data readable_bytes resize
shrink b =
    let front = migration_buffer_data b in
    record front { buffer = resize front.buffer (readable_bytes front) }

-- The indices are in order, inside the memory and, in a buffer of fixed length, inside the limit.
pub record IsValid (b : ByteBuffer) : Type 0 where
  pub ordered : b.reader_index ≤ b.writer_index
  pub within : b.writer_index ≤ length b.buffer
  pub limited : is_fixed b.max_size ≡ true → b.writer_index ≤ to_size b.max_size
