-- ===== src/Codec/LengthHeader/Limits.antt =====
-- Payloads that `encode` of include/codec/LengthHeaderCodec.h accepts and `decode` refuses.
use annety.Prelude.{
  ℕ, suc, ◌+◌, ◌-◌, ◌*◌, ◌^◌, ◌≤◌, ◌<◌, ◌≡◌, refl, ap, ◌∙◌, Bool, true, List, [], ◌++◌, arith,
  length, leb, le→leb, length-append, append_assoc,
}
use annety.Prelude.Int.{ℤ, pos, negsuc}
use annety.Buffer.{ByteBuffer, IsValid, readable_bytes, to_string}
use annety.Buffer.Inv.{length-to_string}
use annety.Buffer.Refine.{Shows}
use annety.Net.{to_unsigned, InRange}
use annety.Net.Order.{Endian}
use annety.Net.Ints.{wire}
use annety.Codec.{error, success}
use annety.Codec.LengthHeader.{
  LengthType, type8, type16, type32, type64, width, make, get_payload_length, out_of_range, decode,
  encode,
}
use annety.Net.{to_signed}
use annety.Net.Ints.{peek_int_wraps, peek_int8_wraps}
use annety.Codec.LengthHeader.Parts.{
  get_payload_length-wire, overhead, trailer, frame, Allowed, length-frame,
}
use annety.Codec.LengthHeader.Encode.{encode-frame}
use annety.Codec.LengthHeader.Decode.{field, least}
use native.Mathlib.Nat.{mod-eq_of_lt}

get_payload_length_wraps :
    (t : LengthType) (e : Endian) (b : ByteBuffer) (x : ℤ) (rest : List ℕ)
    → IsValid b
    → to_string b ≡ wire (width t) x ++ rest
    → get_payload_length t e b ≡ to_signed (width t) (to_unsigned (width t) x)
unfolding get_payload_length
get_payload_length_wraps type8 e b x rest v h = peek_int8_wraps b x rest v h e
get_payload_length_wraps type16 e b x rest v h = peek_int_wraps 2 b x rest v h e
get_payload_length_wraps type32 e b x rest v h = peek_int_wraps 4 b x rest v h e
get_payload_length_wraps type64 e b x rest v h = peek_int_wraps 8 b x rest v h e

module _ (t : LengthType) (guarded : Bool) (max : ℤ) (e : Endian) (buff payload : ByteBuffer)
    (p rest : List ℕ) (v : IsValid buff)
    (content : to_string buff ≡ frame t guarded p ++ rest) where
  -- A length outside the codec's range is an error, and both buffers stay.
  refuses :
      (length : ℤ)
      → get_payload_length t e buff ≡ length
      → out_of_range (make t guarded max) (pos (overhead guarded)) length ≡ true
      → decode (make t guarded max) e tt buff payload
        ≡ record { verdict = error; state = tt; buff = buff; payload = payload }
  unfolding decode
  refuses n read bad =
      let kind : (make t guarded max).length_type ≡ t = unfold make in refl in
      let header : leb (width t) (readable_bytes buff) ≡ true = le→leb _ _ (
        omega (
          arith,
          length-to_string buff v,
          ap length content,
          length-append (frame t guarded p) rest,
          length-frame t guarded p,
        )) in
      simp (kind, read, header, least t max guarded, bad)

  behind :
      to_string buff ≡ wire (width t) (pos (field guarded p)) ++ ((p ++ trailer guarded p) ++ rest)
  behind =
      content ∙ append_assoc (wire (width t) (pos (field guarded p))) (p ++ trailer guarded p) rest

  refuses_long :
      InRange (width t) (pos (field guarded p))
      → (m : ℕ) → max ≡ pos (suc m)
      → suc m < field guarded p
      → decode (make t guarded max) e tt buff payload
        ≡ record { verdict = error; state = tt; buff = buff; payload = payload }
  refuses_long r m is h =
      refuses (pos (field guarded p)) (get_payload_length-wire t e buff _ _ v behind r)
        (unfold make in rw is (ground arith))

  refuses_negative :
      256 ^ width t ≤ 2 * field guarded p
      → field guarded p < 256 ^ width t
      → decode (make t guarded max) e tt buff payload
        ≡ record { verdict = error; state = tt; buff = buff; payload = payload }
  refuses_negative low high =
      refuses (negsuc (256 ^ width t - 1 - field guarded p))
        (get_payload_length_wraps t e buff (pos (field guarded p))
            ((p ++ trailer guarded p) ++ rest) v behind
          ∙ ap (to_signed (width t)) (mod-eq_of_lt high)
          ∙ ground arith)
        (unfold make in ground arith)

-- With the checksum on and a limit, `encode` tests the payload's length against the limit, and
-- `decode` that length plus the four bytes of the checksum. So a nonempty payload of up to the
-- limit that is longer than the limit less four, and whose length plus four is in the range of the
-- length field's type, is encoded with success, and a receiver with the same length field, checksum
-- and limit answers an error on the encoded bytes, whatever follows them and whatever the byte
-- orders of the two machines are.
pub decode_refuses_encoded_long :
    (t : LengthType) (m : ℕ) (e e' : Endian) (payload out into buff : ByteBuffer) (rest : List ℕ)
    → IsValid payload
    → Shows out []
    → IsValid buff
    → InRange (width t) (pos (length (to_string payload) + 4))
    → length (to_string payload) ≤ suc m
    → suc m < length (to_string payload) + 4
    → 0 < length (to_string payload)
    → let c = make t true (pos (suc m)) in
      to_string buff ≡ to_string (encode c e payload out).1 ++ rest
      → ((encode c e payload out).0 ≡ success)
        × (decode c e' tt buff into
            ≡ record { verdict = error; state = tt; buff = buff; payload = into })
decode_refuses_encoded_long t m e e' payload out into buff rest v s v' fits low high some_ content =
    let p : List ℕ = to_string payload in
    let done = encode-frame t (pos (suc m)) e payload out [] p v refl some_ low s true in
    (
      done.0,
      refuses_long t true (pos (suc m)) e' buff into p rest v'
          (content ∙ ap (λ l. l ++ rest) done.1.content) fits m refl high,
    )

-- `encode` does not test that the length fits the signed type that it is written as. A payload
-- whose length field lies in the upper half of the unsigned range of that type (128 to 255 for the
-- 8-bit type) is encoded with success if the limit allows it, and every receiver reads a negative
-- length and answers an error.
pub decode_refuses_encoded_wide :
    (t : LengthType) (guarded : Bool) (max : ℤ) (e : Endian) (payload out into buff : ByteBuffer)
    (rest : List ℕ)
    → IsValid payload
    → Shows out []
    → IsValid buff
    → Allowed max (length (to_string payload))
    → 256 ^ width t ≤ 2 * field guarded (to_string payload)
    → field guarded (to_string payload) < 256 ^ width t
    → 0 < length (to_string payload)
    → let c = make t guarded max in
      to_string buff ≡ to_string (encode c e payload out).1 ++ rest
      → ((encode c e payload out).0 ≡ success)
        × (decode c e tt buff into
            ≡ record { verdict = error; state = tt; buff = buff; payload = into })
decode_refuses_encoded_wide t guarded max e payload out into buff rest v s v' a low high some_
      content =
    let p : List ℕ = to_string payload in
    let done = encode-frame t max e payload out [] p v refl some_ a s guarded in
    (
      done.0,
      refuses_negative t guarded max e buff into p rest v'
          (content ∙ ap (λ l. l ++ rest) done.1.content) low high,
    )
