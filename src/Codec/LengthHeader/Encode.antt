-- ===== src/Codec/LengthHeader/Encode.antt =====
-- What `encode` of include/codec/LengthHeaderCodec.h writes.
use annety.Prelude.{
  ℕ, ◌+◌, ◌<◌, ◌≡◌, refl, sym, ap, ◌∙◌, subst, Bool, true, false, List, [], ◌++◌, arith, length,
  take, ◌==◌, append_assoc, append-nil, take-all,
}
use annety.Prelude.Int.{ℤ, pos}
use annety.Buffer.{ByteBuffer, IsValid, readable_bytes, read_from, to_string, append}
use annety.Buffer.Inv.{length-to_string}
use annety.Buffer.View.{read_from-take}
use annety.Buffer.Refine.{Shows, append-Shows}
use annety.Net.Order.{Endian}
use annety.Net.Ints.{wire, append_int-Shows}
use annety.Codec.{success}
use annety.Codec.LengthHeader.{
  LengthType, width, make, checksum_of, set_buff_length, out_of_range, encode,
}
use annety.Codec.LengthHeader.Parts.{
  set_buff_length-Shows, overhead, trailer, frame, Allowed, out_of_range-Allowed, pos_add, pos_sub,
}

module _ (t : LengthType) (max : ℤ) (e : Endian) (payload buff : ByteBuffer) (q p : List ℕ)
    (v : IsValid payload) (content : to_string payload ≡ p) (some_ : 0 < length p)
    (allowed : Allowed max (length p)) (s : Shows buff q) where
  count : readable_bytes payload ≡ length p
  count = sym (length-to_string payload v) ∙ ap length content

  whole : read_from payload 0 (length p) ≡ p
  whole =
      read_from-take payload 0 (length p) (omega (arith, count))
      ∙ ap (take (length p)) content
      ∙ take-all (length p) p (omega arith)

  nonempty : (length p == 0) ≡ false
  nonempty = ground arith

  -- The buffer once the length and the payload are in it.
  body :
      (guarded : Bool)
      → Shows
          (append (set_buff_length t e (pos (length p + overhead guarded)) buff) p).0
          ((q ++ wire (width t) (pos (length p + overhead guarded))) ++ p)
  body guarded =
      (append-Shows _ _ (set_buff_length-Shows t e (pos (length p + overhead guarded)) buff q s)
        p).0

  regroup : (w r : List ℕ) → ((q ++ w) ++ p) ++ r ≡ q ++ (w ++ (p ++ r))
  regroup w r = append_assoc (q ++ w) p r ∙ append_assoc q w (p ++ r)

  in_range : (guarded : Bool) → out_of_range (make t guarded max) (pos 0) (pos (length p)) ≡ false
  in_range guarded = out_of_range-Allowed t guarded max 0 (length p) (omega arith) allowed

  encode_guarded :
      ((encode (make t true max) e payload buff).0 ≡ success)
      × Shows (encode (make t true max) e payload buff).1 (q ++ frame t true p)
  unfolding encode make
  encode_guarded =
      rw (count, nonempty, pos_sub 4 4 (omega arith), in_range true, whole, pos_add (length p) 4)
        (
          refl,
          subst (Shows _) (regroup (wire (width t) (pos (length p + 4))) (trailer true p))
              (append_int-Shows e 4 _ _ (pos (checksum_of (pos (length p)) p)) (body true)),
        )

  encode_plain :
      ((encode (make t false max) e payload buff).0 ≡ success)
      × Shows (encode (make t false max) e payload buff).1 (q ++ frame t false p)
  unfolding encode make
  encode_plain =
      rw (count, nonempty, pos_sub 0 0 (omega arith), in_range false, whole, pos_add (length p) 0)
        (
          refl,
          subst (Shows _) (sym (append-nil _) ∙ regroup (wire (width t) (pos (length p + 0))) [])
              (body false),
        )

  -- Of a valid, nonempty payload within the limit `encode` succeeds and appends exactly its frame
  -- to what the target shows: the length with the checksum's size, the payload, and the checksum
  -- if the codec has it on.
  pub encode-frame :
      (guarded : Bool)
      → ((encode (make t guarded max) e payload buff).0 ≡ success)
        × Shows (encode (make t guarded max) e payload buff).1 (q ++ frame t guarded p)
  encode-frame true = encode_guarded
  encode-frame false = encode_plain
