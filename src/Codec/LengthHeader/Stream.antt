-- ===== src/Codec/LengthHeader/Stream.antt =====
-- A whole stream of frames through `recv` of include/codec/Codec.h, however the reads cut it.
use annety.Prelude.{
  ℕ, zero, suc, ◌≤◌, ◌<◌, ◌≡◌, refl, sym, ap, ◌∙◌, subst, ◌⊎◌, inl, inr, Bool, false, List, [], ◌∷◌,
  ◌++◌, arith, length, leb, length-append, append_assoc, append-nil, All, Option, some,
}
use annety.Prelude.Int.{ℤ, pos}
use annety.Buffer.{ByteBuffer, readable_bytes, to_string}
use annety.Buffer.Inv.{length-to_string}
use annety.Buffer.Refine.{Shows}
use annety.Net.{InRange}
use annety.Net.Order.{Endian}
use annety.Codec.{incomplete, Decoded}
use annety.Codec.LengthHeader.{LengthType, width, LengthHeaderCodec, make, decode}
use annety.Codec.Recv.{Taken, recv_step, recv_wait}
use annety.Codec.{Received, recv_loop, recv}
use annety.Net.{empty}
use annety.Net.Ints.{empty-Shows}
use annety.Codec.LengthHeader.Parts.{frame, Allowed, length-frame}
use annety.Codec.LengthHeader.Decode.{field, decode-frame}
use annety.Codec.LengthHeader.Partial.{decode_partial, width-pos}

-- A payload that the codec can carry.
abbrev pub Fits : LengthType → Bool → ℤ → List ℕ → Type 0
Fits t guarded max p = InRange (width t) (pos (field guarded p)) × Allowed max (field guarded p)

abbrev pub stream : LengthType → Bool → List (List ℕ) → List ℕ
stream t guarded [] = []
stream t guarded (p ∷ ps) = frame t guarded p ++ stream t guarded ps

-- What can be left when all whole frames are taken: nothing, or the beginning of a frame.
abbrev pub Waits : LengthType → Bool → ℤ → List ℕ → Type 0
Waits t guarded max part =
    (part ≡ [])
    ⊎ ((p : List ℕ) × (more : List ℕ) × (part ++ more ≡ frame t guarded p)
        × (0 < length more)
        × Fits t guarded max p)

module _ (t : LengthType) (guarded : Bool) (max : ℤ) (e : Endian) where
  abbrev pub codec : LengthHeaderCodec
  codec = make t guarded max

  pub decode-Waits :
      (b payload : ByteBuffer) (part : List ℕ)
      → Shows b part
      → Waits t guarded max part
      → decode codec e tt b payload
        ≡ record { verdict = incomplete; state = tt; buff = b; payload = payload }
  unfolding decode
  decode-Waits b payload part s (inl none_) =
      let kind : codec.length_type ≡ t = unfold make in refl in
      let few : leb (width t) (readable_bytes b) ≡ false =
        ground
          (arith, width-pos t, length-to_string b s.valid, ap length s.content, ap length none_) in
      simp (kind, few)
  decode-Waits b payload part s (inr (p, more, prefix, short, fits)) =
      decode_partial t guarded max e b payload p part more s.valid s.content prefix short fits.0
        fits.1

  abbrev pub Result : List (List ℕ) → List ℕ → Option (Received (Unit {0})) → Type 0
  Result messages tail r =
      (d : Received (Unit {0})) × (r ≡ some d)
      × (d.messages ≡ messages)
      × Shows d.buff tail
      × (d.shutdown ≡ false)

  recv_rest :
      (fuel : ℕ) (b : ByteBuffer) (tail : List ℕ) (messages : List (List ℕ))
      → Shows b tail
      → Waits t guarded max tail
      → Result (messages ++ []) tail (recv_loop (decode codec e) (suc fuel) tt b messages)
  recv_rest fuel b tail messages s w =
      let d = decode-Waits b empty tail s w in
      (
        _,
        recv_wait (decode codec e) fuel tt b messages (ap (λ r. r.verdict) d),
        sym (append-nil messages),
        subst (λ r. Shows r tail) (sym (ap (λ r. r.buff) d)) s,
        refl,
      )

  recv_frames :
      (ps : List (List ℕ)) (fuel : ℕ) (b : ByteBuffer) (tail : List ℕ) (messages : List (List ℕ))
      → Shows b (stream t guarded ps ++ tail)
      → All (Fits t guarded max) ps
      → Waits t guarded max tail
      → length ps < fuel
      → Result (messages ++ ps) tail (recv_loop (decode codec e) fuel tt b messages)
  recv_frames ps zero b tail messages s f w h = absurd (omega arith)
  recv_frames [] (suc fuel) b tail messages s f w h = recv_rest fuel b tail messages s w
  recv_frames (p ∷ ps) (suc fuel) b tail messages s f w h =
      let rest : List ℕ = stream t guarded ps ++ tail in
      let d : Decoded (Unit {0}) = decode codec e tt b empty in
      let taken : Taken b d rest ([] ++ p) =
        decode-frame t max e b empty p [] rest s.valid empty-Shows guarded f.0.0 f.0.1
          (s.content ∙ append_assoc (frame t guarded p) (stream t guarded ps) tail) in
      let next : Shows d.buff rest = record {
        valid = taken.valid;
        unlimited = taken.limit ∙ s.unlimited;
        content = taken.left;
      } in
      let ih =
        recv_frames ps fuel d.buff tail (messages ++ (to_string d.payload ∷ [])) next f.1 w
          (omega arith) in
      (
        ih.0,
        recv_step (decode codec e) fuel tt b messages taken.good ∙ ih.1,
        ih.2
            ∙ append_assoc messages (to_string d.payload ∷ []) ps
            ∙ ap (λ m. messages ++ (m ∷ ps)) taken.shows.content,
        ih.3,
        ih.4,
      )

  length-stream : (ps : List (List ℕ)) → length ps ≤ length (stream t guarded ps)
  length-stream [] = omega arith
  length-stream (p ∷ ps) = omega (
    arith,
    length-stream ps,
    length-append (frame t guarded p) (stream t guarded ps),
    length-frame t guarded p,
    width-pos t,
  )

  -- On a buffer without limit that holds the frames of payloads that fit, and behind them nothing
  -- or the beginning of one more such frame, `recv` delivers exactly the payloads in their order,
  -- leaves exactly the bytes behind the whole frames, and does not shut the connection down.
  pub recv-stream :
      (ps : List (List ℕ)) (b : ByteBuffer) (tail : List ℕ)
      → Shows b (stream t guarded ps ++ tail)
      → All (Fits t guarded max) ps
      → Waits t guarded max tail
      → Result ps tail (recv (decode codec e) tt b)
  unfolding recv
  recv-stream ps b tail s f w = recv_frames ps (suc (readable_bytes b)) b tail [] s f w (
      omega (
        arith,
        length-stream ps,
        ap length s.content,
        length-to_string b s.valid,
        length-append (stream t guarded ps) tail,
      ))
