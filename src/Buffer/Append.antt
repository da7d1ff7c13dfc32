-- ===== src/Buffer/Append.antt =====
-- `append` of include/ByteBuffer.h with `make_writable_bytes` of src/ByteBuffer.cc, and `shrink`.
use annety.Prelude.{
  ℕ, ◌+◌, ◌-◌, ◌≤◌, ◌≡◌, refl, sym, ap, ◌∙◌, inl, inr, Bool, true, false, not, ◌&&◌, ◌||◌, List,
  ◌++◌, arith, ltb, length, if◌then◌else◌, Bool-cases, leb, leb→le,
}
use annety.Buffer.{
  ByteBuffer, IsValid, un_limit_size, is_fixed, to_size, readable_bytes, writable_bytes,
  real_writeable_bytes, read_at, to_string, resize, migration_buffer_data, ensure_writable_bytes,
  put, append, shrink,
}
use annety.Buffer.Inv.{length-to_string, length-resize, length-overwrite, migration-IsValid}
use annety.Buffer.View.{window-resize, to_string-migration, to_string-put}

-- What `ensure_writable_bytes` promises of the buffer `g` that it makes of `b`.
record Grown (b g : ByteBuffer) (len : ℕ) : Type 0 where
  valid : IsValid g
  same : to_string g ≡ to_string b
  limit : g.max_size ≡ b.max_size
  room : leb len (writable_bytes g) ≡ true → g.writer_index + len ≤ length g.buffer
  answer : leb len (writable_bytes g) ≡ (not (is_fixed b.max_size) || leb len (writable_bytes b))

Grown-resize :
    (b : ByteBuffer) (len : ℕ)
    → IsValid b
    → ltb (real_writeable_bytes b) len ≡ true
    → (is_fixed b.max_size && ltb (to_size b.max_size - b.writer_index) len) ≡ false
    → Grown b (record b { buffer = resize b.buffer (b.writer_index + len) }) len
unfolding real_writeable_bytes
Grown-resize b len v short fits = record {
  valid = record { ordered = v.ordered; within = omega (arith, bigger); limited = v.limited };
  same =
      unfold to_string readable_bytes read_at in
      window-resize b.reader_index b.writer_index (b.writer_index + len) b.buffer v.ordered v.within
        (omega arith);
  limit = refl;
  room = λ _. omega (arith, bigger);
  answer = ground (arith, bigger);
}
  where
    bigger : length (resize b.buffer (b.writer_index + len)) ≡ b.writer_index + len
    bigger = length-resize b.buffer (b.writer_index + len)

Grown-refused :
    (b : ByteBuffer) (len : ℕ)
    → IsValid b
    → (is_fixed b.max_size && ltb (to_size b.max_size - b.writer_index) len) ≡ true
    → Grown b b len
unfolding writable_bytes
Grown-refused b len v full = record {
  valid = v;
  same = refl;
  limit = refl;
  room = λ h. ground arith;
  answer = ground arith;
}

Grown-migrated :
    (b : ByteBuffer) (len : ℕ)
    → IsValid b
    → ltb (real_writeable_bytes b) len ≡ false
    → Grown b (migration_buffer_data b) len
unfolding real_writeable_bytes
Grown-migrated b len v enough = record {
  valid = migration-IsValid b v;
  same = to_string-migration b v;
  limit = unfold migration_buffer_data in ground arith;
  room = λ h.
      unfold migration_buffer_data in
      ground (arith, length-overwrite b.buffer 0 (to_string b), length-to_string b v);
  answer =
      unfold migration_buffer_data in
      ground (arith, length-overwrite b.buffer 0 (to_string b), length-to_string b v);
}

grown : (b : ByteBuffer) (len : ℕ) → IsValid b → Grown b (ensure_writable_bytes b len) len
unfolding ensure_writable_bytes
grown b len v = elim (Bool-cases (ltb (real_writeable_bytes b) len)) [
  | inr enough ↦ rw enough (Grown-migrated b len v enough)
  | inl short ↦
      elim (Bool-cases (is_fixed b.max_size && ltb (to_size b.max_size - b.writer_index) len)) [
        | inl full ↦ rw (short, full) (Grown-refused b len v full)
        | inr fits ↦ rw (short, fits) (Grown-resize b len v short fits)
      ]
]

pub put-IsValid :
    (g : ByteBuffer) (xs : List ℕ)
    → IsValid g
    → g.writer_index + length xs ≤ length g.buffer
    → length xs ≤ writable_bytes g
    → IsValid (put g xs)
unfolding put writable_bytes
put-IsValid g xs v room h = record {
  ordered = omega (arith, v.ordered);
  within = omega (arith, room, length-overwrite g.buffer g.writer_index xs room);
  limited = λ f. ground (arith, v.limited f);
}

pub put_limit : (g : ByteBuffer) (xs : List ℕ) → (put g xs).max_size ≡ g.max_size
unfolding put
put_limit g xs = refl

pub writable_unlimited :
    (b : ByteBuffer)
    → b.max_size ≡ un_limit_size
    → writable_bytes b ≡ length b.buffer - b.writer_index
unfolding writable_bytes
writable_unlimited b e = rw e

-- Whether `append` succeeds: always in an unlimited buffer, otherwise if the limit leaves room
-- behind the writer index. The room in front of the reader index does not count.
pub accepts : ByteBuffer → ℕ → Bool
unfolding writable_bytes
accepts b len = not (is_fixed b.max_size) || leb len (writable_bytes b)

abbrev finish : ByteBuffer → List ℕ → ByteBuffer × Bool
finish g xs = if leb (length xs) (writable_bytes g) then (put g xs, true) else (g, false)

abbrev Appended : ByteBuffer → List ℕ → ByteBuffer × Bool → Type 0
Appended b xs r =
    IsValid r.0
    × (r.1 ≡ accepts b (length xs))
    × (to_string r.0 ≡ (if accepts b (length xs) then to_string b ++ xs else to_string b))
    × (r.0.max_size ≡ b.max_size)

finish-Appended :
    (b g : ByteBuffer) (xs : List ℕ) → Grown b g (length xs) → Appended b xs (finish g xs)
unfolding accepts
finish-Appended b g xs w = elim (Bool-cases (leb (length xs) (writable_bytes g))) [
  | inl fits ↦
      rw (fits, sym w.answer ∙ fits)
        (
          put-IsValid g xs w.valid (w.room fits) (leb→le _ _ fits),
          refl,
          to_string-put g xs w.valid ∙ ap (λ s. s ++ xs) w.same,
          unfold put in w.limit,
        )
  | inr full ↦ rw (full, sym w.answer ∙ full) (w.valid, refl, w.same, w.limit)
]

pub accepts_unlimited :
    (b : ByteBuffer) (len : ℕ) → b.max_size ≡ un_limit_size → accepts b len ≡ true
unfolding accepts
accepts_unlimited b len e = rw e

-- On a valid buffer `append` returns `accepts`; if that is true the readable bytes gain exactly the
-- appended ones at the end, otherwise they stay; the limit never changes, and the result is valid.
pub append_lem :
    (b : ByteBuffer) (xs : List ℕ)
    → IsValid b
    → IsValid (append b xs).0
      × ((append b xs).1 ≡ accepts b (length xs))
      × (to_string (append b xs).0
          ≡ (if accepts b (length xs) then to_string b ++ xs else to_string b))
      × ((append b xs).0.max_size ≡ b.max_size)
unfolding append
append_lem b xs v =
    finish-Appended b (ensure_writable_bytes b (length xs)) xs (grown b (length xs) v)

shrink_front :
    (b m : ByteBuffer)
    → IsValid m
    → m.reader_index ≡ 0
    → to_string m ≡ to_string b
    → let s = record m { buffer = resize m.buffer (readable_bytes m) } in
      IsValid s × (to_string s ≡ to_string b) × (length s.buffer ≡ length (to_string b))
unfolding readable_bytes
shrink_front b m v front same = (
  record {
    ordered = v.ordered;
    within = omega (arith, length-resize m.buffer (m.writer_index - m.reader_index));
    limited = v.limited;
  },
  unfold to_string read_at in
      (window-resize m.reader_index m.writer_index (m.writer_index - m.reader_index) m.buffer
        v.ordered v.within (omega arith))
      ∙ same,
  length-resize m.buffer (m.writer_index - m.reader_index)
      ∙ sym (length-to_string m v)
      ∙ ap length same,
)

migration_limit : (b : ByteBuffer) → (migration_buffer_data b).max_size ≡ b.max_size
unfolding migration_buffer_data
migration_limit b = ground arith

migration_front : (b : ByteBuffer) → (migration_buffer_data b).reader_index ≡ 0
unfolding migration_buffer_data
migration_front b = ground arith

-- On a valid buffer `shrink` keeps the readable bytes and the limit, leaves no other memory, and
-- the result is valid.
pub shrink_lem :
    (b : ByteBuffer)
    → IsValid b
    → IsValid (shrink b)
      × (to_string (shrink b) ≡ to_string b)
      × (length (shrink b).buffer ≡ length (to_string b))
      × ((shrink b).max_size ≡ b.max_size)
unfolding shrink
shrink_lem b v =
    let front =
      shrink_front b (migration_buffer_data b) (migration-IsValid b v) (migration_front b)
        (to_string-migration b v) in
    (front.0, front.1, front.2, migration_limit b)
