-- ===== src/Codec/LengthHeader/Decode.antt =====
-- What `decode` of include/codec/LengthHeaderCodec.h makes of a whole frame.
use annety.Prelude.{
  ℕ, ◌+◌, ◌-◌, ◌%◌, ◌^◌, ◌≤◌, ◌≡◌, refl, sym, ap, ◌∙◌, Bool, true, false, List, ◌++◌, arith, length,
  take, drop, leb, ==_iff, le→leb, take_front, drop_front, length-append, append_assoc, drop-drop,
}
use annety.Prelude.Int.{ℤ, pos}
use annety.Buffer.{ByteBuffer, IsValid, readable_bytes, has_read, read_from, to_string}
use annety.Buffer.Inv.{length-to_string, has_read-IsValid}
use annety.Buffer.View.{to_string-has_read, read_from-take}
use annety.Buffer.Refine.{Shows, append-Shows, has_read_limit}
use annety.Net.{InRange}
use annety.Net.Order.{Endian, load, net_to_host, net_to_host-load, to_be, length-to_be}
use annety.Net.Ints.{wire}
use annety.Codec.Recv.{Taken}
use annety.Codec.LengthHeader.{
  LengthType, width, make, min_payload, checksum_of, get_payload_length, peek_uint32, decode_frame,
  decode,
}
use annety.Codec.LengthHeader.Parts.{
  get_payload_length-wire, overhead, trailer, frame, Allowed, out_of_range-Allowed, checksum_of-lt,
  pos_sub, length-frame, length-trailer,
}
use native.Mathlib.Nat.{mod-eq_of_lt}

-- The number in the length field.
abbrev pub field : Bool → List ℕ → ℕ
field guarded p = length p + overhead guarded

module _ (t : LengthType) (guarded : Bool) (e : Endian) (buff : ByteBuffer) (p rest : List ℕ)
    (v : IsValid buff) (content : to_string buff ≡ frame t guarded p ++ rest) where
  enough : width t + (field guarded p) ≤ readable_bytes buff
  enough = omega (
    arith,
    length-to_string buff v,
    ap length content,
    length-append (frame t guarded p) rest,
    length-frame t guarded p,
  )

  behind :
      to_string buff ≡ wire (width t) (pos (field guarded p)) ++ (p ++ (trailer guarded p ++ rest))
  behind =
      content
      ∙ append_assoc (wire (width t) (pos (length p + overhead guarded))) (p ++ trailer guarded p)
          rest
      ∙ ap (◌++◌ (wire (width t) (pos (length p + overhead guarded))))
          (append_assoc p (trailer guarded p) rest)

  after_header : drop (width t) (to_string buff) ≡ p ++ (trailer guarded p ++ rest)
  after_header = ap (drop (width t)) behind ∙ drop_front (width t) _ _ (length-to_be (width t) _)

  payload_bytes : read_from buff (width t) (length p) ≡ p
  payload_bytes =
      read_from-take buff (width t) (length p) (omega (arith, enough))
      ∙ ap (take (length p)) after_header
      ∙ take_front (length p) p _ refl

  trailer_bytes : read_from buff (width t + length p) (overhead guarded) ≡ trailer guarded p
  trailer_bytes =
      read_from-take buff (width t + length p) (overhead guarded) (omega (arith, enough))
      ∙ ap (take (overhead guarded)) (
          sym (drop-drop (length p) (width t) (to_string buff))
          ∙ ap (drop (length p)) after_header
          ∙ drop_front (length p) p _ refl)
      ∙ take_front (overhead guarded) (trailer guarded p) rest (length-trailer guarded p)

  remains : to_string (has_read buff (width t + (field guarded p))) ≡ rest
  remains =
      to_string-has_read buff (width t + (field guarded p)) v
      ∙ ap (drop (width t + (field guarded p))) content
      ∙ drop_front (width t + (field guarded p)) (frame t guarded p) rest
          (length-frame t guarded p ∙ omega arith)

  field_read :
      (r : InRange (width t) (pos (field guarded p)))
      → get_payload_length t e buff ≡ pos (field guarded p)
  field_read r = get_payload_length-wire t e buff (pos (field guarded p)) _ v behind r

pub least :
    (t : LengthType) (max : ℤ) (guarded : Bool)
    → min_payload (make t guarded max) ≡ pos (overhead guarded)
unfolding make
least t max true = refl
least t max false = refl

module _ (t : LengthType) (max : ℤ) (e : Endian) (buff payload : ByteBuffer) (p q rest : List ℕ)
    (v : IsValid buff) (s : Shows payload q) where
  frame_guarded :
      to_string buff ≡ frame t true p ++ rest
      → Taken buff (decode_frame (make t true max) e buff payload (length p + 4)) rest (q ++ p)
  unfolding decode_frame make peek_uint32
  frame_guarded content =
      let crc : ℕ = checksum_of (pos (length p)) p in
      let small : crc % 256 ^ 4 ≡ crc =
        mod-eq_of_lt (omega (arith, checksum_of-lt (pos (length p)) p)) in
      let cut : length p + 4 - 4 ≡ length p = omega arith in
      let read : net_to_host e 4 (load e (to_be 4 (crc % 256 ^ 4))) ≡ crc =
        net_to_host-load e 4 (crc % 256 ^ 4) (omega arith) ∙ small in
      rw
        (
          pos_sub (length p + 4) 4 (omega arith),
          cut,
          payload_bytes t true e buff p rest v content,
          trailer_bytes t true e buff p rest v content,
          read,
          (==_iff crc crc).1 refl,
        )
        (record {
          good = refl;
          valid = has_read-IsValid buff (width t + (length p + 4)) v;
          left = remains t true e buff p rest v content;
          limit = has_read_limit buff _;
          shows = (append-Shows payload q s p).0;
        })

  frame_plain :
      to_string buff ≡ frame t false p ++ rest
      → Taken buff (decode_frame (make t false max) e buff payload (length p + 0)) rest (q ++ p)
  unfolding decode_frame make
  frame_plain content =
      let cut : length p + 0 - 0 ≡ length p = omega arith in
      rw
        (pos_sub (length p + 0) 0 (omega arith), cut, payload_bytes t false e buff p rest v content)
        (record {
          good = refl;
          valid = has_read-IsValid buff (width t + (length p + 0)) v;
          left = remains t false e buff p rest v content;
          limit = has_read_limit buff _;
          shows = (append-Shows payload q s p).0;
        })

  frame-Taken :
      (guarded : Bool)
      → to_string buff ≡ frame t guarded p ++ rest
      → Taken buff
          (decode_frame (make t guarded max) e buff payload (length p + overhead guarded))
          rest
          (q ++ p)
  frame-Taken true = frame_guarded
  frame-Taken false = frame_plain

  -- On a valid buffer that begins with the frame of a payload, whose length field fits its width
  -- and the limit, `decode` succeeds: it appends exactly the payload to what the payload buffer
  -- shows, and leaves exactly the bytes behind the frame.
  pub decode-frame :
      (guarded : Bool)
      → InRange (width t) (pos (length p + overhead guarded))
      → Allowed max (length p + overhead guarded)
      → to_string buff ≡ frame t guarded p ++ rest
      → Taken buff (decode (make t guarded max) e tt buff payload) rest (q ++ p)
  unfolding decode
  decode-frame guarded fits allowed content =
      let n : ℕ = length p + overhead guarded in
      let room : width t + n ≤ readable_bytes buff = enough t guarded e buff p rest v content in
      let header : leb (width t) (readable_bytes buff) ≡ true = le→leb _ _ (omega arith) in
      let whole : leb (n + width t) (readable_bytes buff) ≡ true = le→leb _ _ (omega arith) in
      let kind : (make t guarded max).length_type ≡ t = unfold make in refl in
      simp
        (
          kind,
          field_read t guarded e buff p rest v content fits,
          header,
          least t max guarded,
          out_of_range-Allowed t guarded max (overhead guarded) n (omega arith) allowed,
          whole,
        )
        (frame-Taken guarded content)
