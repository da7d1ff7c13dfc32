-- ===== src/Buffer/Inv.antt =====
-- The invariant of include/ByteBuffer.h: the conditions of its asserts, kept by every operation.
use annety.Prelude.{
  ℕ, ◌+◌, ◌-◌, ◌≤◌, ◌≡◌, List, ◌++◌, arith, length, take, drop, replicate, length-append,
  length-take, length-drop, length-replicate,
}
use annety.Prelude.Int.{ℤ}
use annety.Buffer.{
  ByteBuffer, IsValid, make, reset, readable_bytes, has_read, to_string, resize, overwrite,
  migration_buffer_data,
}

pub length-resize : (xs : List ℕ) (n : ℕ) → length (resize xs n) ≡ n
unfolding resize
length-resize xs n = omega (
  arith,
  length-append (take n xs) (replicate (n - length xs) 0),
  length-take n xs,
  length-replicate {A = ℕ} (n - length xs) 0,
)

pub length-overwrite :
    (buffer : List ℕ) (at : ℕ) (xs : List ℕ)
    → at + length xs ≤ length buffer
    → length (overwrite buffer at xs) ≡ length buffer
unfolding overwrite
length-overwrite buffer at xs h = omega (
  arith,
  length-append (take at buffer) (xs ++ drop (at + length xs) buffer),
  length-append xs (drop (at + length xs) buffer),
  length-take at buffer,
  length-drop (at + length xs) buffer,
)

-- What is readable is as long as the source counts.
pub length-to_string : (b : ByteBuffer) → IsValid b → length (to_string b) ≡ readable_bytes b
unfolding to_string
length-to_string b v = omega (
  arith,
  length-take (b.writer_index - b.reader_index) (drop b.reader_index b.buffer),
  length-drop b.reader_index b.buffer,
)

pub make-IsValid : (max : ℤ) (init : ℕ) → IsValid (make max init)
unfolding make
make-IsValid max init = record {
  ordered = omega arith;
  within = omega arith;
  limited = λ _. omega arith;
}

pub reset-IsValid : (b : ByteBuffer) → IsValid (reset b)
unfolding reset
reset-IsValid b = record { ordered = omega arith; within = omega arith; limited = λ _. omega arith }

pub has_read-IsValid : (b : ByteBuffer) (len : ℕ) → IsValid b → IsValid (has_read b len)
unfolding has_read
has_read-IsValid b len v = ground arith

pub migration-IsValid : (b : ByteBuffer) → IsValid b → IsValid (migration_buffer_data b)
unfolding migration_buffer_data
migration-IsValid b v =
    ground (arith, length-overwrite b.buffer 0 (to_string b), length-to_string b v)

pub readable-has_read :
    (b : ByteBuffer) (len : ℕ) → readable_bytes (has_read b len) ≡ readable_bytes b - len
unfolding has_read
readable-has_read b len = ground arith
