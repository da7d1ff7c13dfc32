-- ===== src/Codec/LengthHeader/Partial.antt =====
-- Incomplete frames, and that a success of `decode` takes bytes.
use annety.Prelude.{
  ℕ, ◌+◌, ◌≤◌, ◌<◌, ◌≡◌, refl, sym, ap, ◌∙◌, inl, inr, Bool, false, List, ◌++◌, arith, length, take,
  drop, Bool-cases, leb, leb→le, take_front, length-append, take-append_le, take-append-drop,
}
use annety.Prelude.Int.{ℤ, pos}
use annety.Buffer.{ByteBuffer, IsValid, readable_bytes, to_string, to_size}
use annety.Buffer.Inv.{length-to_string, has_read-IsValid, readable-has_read}
use annety.Net.{InRange}
use annety.Net.Order.{Endian, length-to_be}
use annety.Net.Ints.{wire}
use annety.Codec.{incomplete, success}
use annety.Codec.Recv.{Consumes}
use annety.Net.{empty}
use annety.Codec.LengthHeader.{
  LengthType, type8, type16, type32, type64, width, LengthHeaderCodec, make, get_payload_length,
  decode_frame, decode,
}
use annety.Codec.LengthHeader.Parts.{
  get_payload_length-wire, overhead, frame, Allowed, out_of_range-Allowed, length-frame,
}
use annety.Codec.LengthHeader.Decode.{field, least}

-- The first bytes of a frame, whose length field is whole.
module _ (t : LengthType) (guarded : Bool) (max : ℤ) (e : Endian) (buff payload : ByteBuffer)
    (p part more : List ℕ) (v : IsValid buff) (content : to_string buff ≡ part)
    (prefix : part ++ more ≡ frame t guarded p) (short : 0 < length more)
    (fits : InRange (width t) (pos (field guarded p)))
    (allowed : Allowed max (field guarded p)) where
  count : readable_bytes buff + length more ≡ width t + field guarded p
  count = omega (
    arith,
    length-to_string buff v,
    ap length content,
    ap length prefix,
    length-append part more,
    length-frame t guarded p,
  )

  header :
      width t ≤ readable_bytes buff
      → to_string buff ≡ wire (width t) (pos (field guarded p)) ++ drop (width t) part
  header h =
      let long : width t ≤ length part =
        omega (arith, length-to_string buff v, ap length content) in
      content
      ∙ sym (take-append-drop (width t) part)
      ∙ ap (λ l. l ++ drop (width t) part)
          (sym (take-append_le (width t) part more long)
            ∙ ap (take (width t)) prefix
            ∙ take_front (width t) (wire (width t) (pos (field guarded p))) _
                (length-to_be (width t) _))

  -- On a proper prefix of a frame that the codec allows, `decode` answers incomplete and leaves
  -- both buffers as they are.
  pub decode_partial :
      decode (make t guarded max) e tt buff payload
      ≡ record { verdict = incomplete; state = tt; buff = buff; payload = payload }
  unfolding decode
  decode_partial =
      let kind : (make t guarded max).length_type ≡ t = unfold make in refl in
      elim (Bool-cases (leb (width t) (readable_bytes buff))) [
        | inr few ↦ simp (kind, few)
        | inl some_ ↦
            let read : get_payload_length t e buff ≡ pos (field guarded p) =
              get_payload_length-wire t e buff (pos (field guarded p)) _ v
                (header (leb→le _ _ some_)) fits in
            let missing : leb (field guarded p + width t) (readable_bytes buff) ≡ false =
              ground (arith, count) in
            simp (
              kind,
              read,
              some_,
              least t max guarded,
              out_of_range-Allowed t guarded max (overhead guarded) (field guarded p) (omega arith)
                  allowed,
              missing,
            )
      ]

pub width-pos : (t : LengthType) → 0 < width t
width-pos type8 = omega arith
width-pos type16 = omega arith
width-pos type32 = omega arith
width-pos type64 = omega arith

-- A success of `decode` keeps the buffer valid and takes the length field at least.
decode_frame-takes :
    (c : LengthHeaderCodec) (e : Endian) (b payload : ByteBuffer) (n : ℕ)
    → IsValid b
    → width c.length_type + n ≤ readable_bytes b
    → (decode_frame c e b payload n).verdict ≡ success
    → IsValid (decode_frame c e b payload n).buff
      × (readable_bytes (decode_frame c e b payload n).buff < readable_bytes b)
unfolding decode_frame
decode_frame-takes c e b payload n v room good = ground (
  arith,
  has_read-IsValid b (width c.length_type + n) v,
  readable-has_read b (width c.length_type + n),
  width-pos c.length_type,
)

decode-takes :
    (c : LengthHeaderCodec) (e : Endian) (b : ByteBuffer)
    → IsValid b
    → (decode c e tt b empty).verdict ≡ success
    → IsValid (decode c e tt b empty).buff
      × (readable_bytes (decode c e tt b empty).buff < readable_bytes b)
unfolding decode
decode-takes c e b v good =
    ground
      (arith, decode_frame-takes c e b empty (to_size (get_payload_length c.length_type e b)) v)

pub decode-Consumes : (c : LengthHeaderCodec) (e : Endian) → Consumes (decode c e)
decode-Consumes c e = record { takes = λ _ b v good. decode-takes c e b v good }
