-- ===== src/Buffer/View.antt =====
-- What a reader of the buffer sees: `to_string`, through every operation of include/ByteBuffer.h.
use annety.Prelude.{
  ℕ, ◌+◌, ◌-◌, ◌≤◌, ◌≡◌, refl, sym, ap, ◌∙◌, inl, inr, List, ◌++◌, arith, ltb, ap₂, ◌==◌,
  not_ltb→le, length, take, drop, replicate, length-append, length-take, length-drop, append_assoc,
  Bool-cases, take-append_le, drop-append_le, take_front, take-take, drop-take, drop-drop, drop-all,
}
use annety.Prelude.Int.{pos}
use annety.Buffer.{
  ByteBuffer, IsValid, readable_bytes, has_read, read_at, read_from, to_string, taken_as_string,
  resize, overwrite, migration_buffer_data, put,
}
use annety.Buffer.Inv.{length-to_string}

-- The bytes `r` to `w` of a vector.
abbrev pub window : ℕ → ℕ → List ℕ → List ℕ
window r w buffer = take (w - r) (drop r buffer)

pub window-resize :
    (r w n : ℕ) (buffer : List ℕ)
    → r ≤ w
    → w ≤ length buffer
    → w ≤ n
    → window r w (resize buffer n) ≡ window r w buffer
unfolding resize
window-resize r w n buffer rw_ wb wn =
    let fill : List ℕ = replicate (n - length buffer) 0 in
    let inside : r ≤ length (take n buffer) = omega (arith, length-take n buffer) in
    let enough : w - r ≤ length (take (n - r) (drop r buffer)) =
      omega (arith, length-take (n - r) (drop r buffer), length-drop r buffer) in
    ap (take (w - r)) (drop-append_le r (take n buffer) fill inside)
    ∙ ap (λ t. take (w - r) (t ++ fill)) (drop-take r n buffer)
    ∙ take-append_le (w - r) (take (n - r) (drop r buffer)) fill enough
    ∙ take-take (w - r) (n - r) (drop r buffer) (omega arith)

pub window-overwrite :
    (r w : ℕ) (buffer xs : List ℕ)
    → r ≤ w
    → w ≤ length buffer
    → window r (w + length xs) (overwrite buffer w xs) ≡ window r w buffer ++ xs
unfolding overwrite
window-overwrite r w buffer xs rw_ wb =
    let rest : List ℕ = drop (w + length xs) buffer in
    let inside : r ≤ length (take w buffer) = omega (arith, length-take w buffer) in
    let cut : length (window r w buffer ++ xs) ≡ w + length xs - r = omega (
      arith,
      length-append (window r w buffer) xs,
      length-take (w - r) (drop r buffer),
      length-drop r buffer,
    ) in
    ap (take (w + length xs - r)) (drop-append_le r (take w buffer) (xs ++ rest) inside)
    ∙ ap (λ t. take (w + length xs - r) (t ++ (xs ++ rest))) (drop-take r w buffer)
    ∙ ap (take (w + length xs - r)) (sym (append_assoc (window r w buffer) xs rest))
    ∙ take_front (w + length xs - r) (window r w buffer ++ xs) rest cut

pub to_string-migration :
    (b : ByteBuffer) → IsValid b → to_string (migration_buffer_data b) ≡ to_string b
unfolding to_string migration_buffer_data readable_bytes
to_string-migration b v = elim (Bool-cases (b.reader_index == 0)) [
  | inl front ↦ rw front refl
  | inr behind ↦ rw behind (
      take_front (b.writer_index - b.reader_index - 0) (to_string b) _
        (length-to_string b v ∙ omega arith))
]

pub to_string-has_read :
    (b : ByteBuffer) (len : ℕ) → IsValid b → to_string (has_read b len) ≡ drop len (to_string b)
unfolding to_string has_read readable_bytes
to_string-has_read b len v = elim (Bool-cases (ltb len (b.writer_index - b.reader_index))) [
  | inl more ↦ rw more (
      sym (
        drop-take len (b.writer_index - b.reader_index) (drop b.reader_index b.buffer)
        ∙ ap₂ take (omega arith) (drop-drop len b.reader_index b.buffer)))
  | inr all ↦
      rw all
        (sym (drop-all len (to_string b) (omega (arith, not_ltb→le _ _ all, length-to_string b v))))
]

-- On a valid buffer with at least `n` readable bytes, `taken_as_string` of `n` returns the first
-- `n` of them, and the others stay.
pub taken_as_string_lem :
    (b : ByteBuffer) (n : ℕ)
    → IsValid b
    → n ≤ readable_bytes b
    → ((taken_as_string b (pos n)).0 ≡ take n (to_string b))
      × (to_string (taken_as_string b (pos n)).1 ≡ drop n (to_string b))
unfolding taken_as_string
taken_as_string_lem b n v h =
    (unfold to_string in sym (take-take n _ _ h), to_string-has_read b n v)

pub to_string-put :
    (b : ByteBuffer) (xs : List ℕ) → IsValid b → to_string (put b xs) ≡ to_string b ++ xs
unfolding to_string put
to_string-put b xs v = window-overwrite b.reader_index b.writer_index b.buffer xs v.ordered v.within

pub read_at-take :
    (b : ByteBuffer) (n : ℕ) → n ≤ readable_bytes b → read_at b n ≡ take n (to_string b)
unfolding to_string
read_at-take b n h = sym (take-take n (readable_bytes b) (drop b.reader_index b.buffer) h)

pub read_from-take :
    (b : ByteBuffer) (off n : ℕ)
    → off + n ≤ readable_bytes b
    → read_from b off n ≡ take n (drop off (to_string b))
unfolding read_from to_string readable_bytes
read_from-take b off n h =
    ap (take n) (sym (drop-drop off b.reader_index b.buffer))
    ∙ sym (
        take-take n (b.writer_index - b.reader_index - off)
          (drop off (drop b.reader_index b.buffer)) (omega arith))
    ∙ ap (take n)
        (sym (drop-take off (b.writer_index - b.reader_index) (drop b.reader_index b.buffer)))
