-- ===== src/Codec/Recv.antt =====
-- The loop of `recv` in include/codec/Codec.h, for any codec that takes bytes when it succeeds.
use annety.Prelude.{
  ℕ, zero, suc, ◌<◌, ◌≡◌, refl, ◌⊎◌, inl, inr, true, false, List, [], ◌∷◌, ◌++◌, some, arith,
}
use annety.Buffer.{ByteBuffer, IsValid, readable_bytes, to_string}
use annety.Buffer.Refine.{Shows}
use annety.Net.{empty}
use annety.Codec.{Verdict, error, incomplete, success, Decoded, Received, recv_loop, recv}

-- What `recv` needs of a codec: a success keeps the buffer valid and takes a byte at least. The
-- comment on `decode` asks this of every codec.
pub record Consumes {S : Type 0} (decode : S → ByteBuffer → ByteBuffer → Decoded S) : Type 0 where
  pub takes :
      (state : S) (b : ByteBuffer)
      → IsValid b
      → (decode state b empty).verdict ≡ success
      → IsValid (decode state b empty).buff
        × (readable_bytes (decode state b empty).buff < readable_bytes b)

-- What a successful `decode` leaves.
pub record Taken {S : Type 0} (buff : ByteBuffer) (d : Decoded S) (rest q : List ℕ) : Type 0 where
  pub good : d.verdict ≡ success
  pub valid : IsValid d.buff
  pub left : to_string d.buff ≡ rest
  pub limit : d.buff.max_size ≡ buff.max_size
  pub shows : Shows d.payload q

Verdict-cases : (v : Verdict) → (v ≡ success) ⊎ ((v ≡ incomplete) ⊎ (v ≡ error))
Verdict-cases success = inl refl
Verdict-cases incomplete = inr (inl refl)
Verdict-cases error = inr (inr refl)

module _ {S : Type 0} (decode : S → ByteBuffer → ByteBuffer → Decoded S) where
  pub recv_step :
      (fuel : ℕ) (state : S) (b : ByteBuffer) (messages : List (List ℕ))
      → (decode state b empty).verdict ≡ success
      → let d = decode state b empty in
        recv_loop decode (suc fuel) state b messages
        ≡ recv_loop decode fuel d.state d.buff (messages ++ (to_string d.payload ∷ []))
  unfolding recv_loop
  recv_step fuel state b messages e = rw (e, recv_loop)

  pub recv_wait :
      (fuel : ℕ) (state : S) (b : ByteBuffer) (messages : List (List ℕ))
      → (decode state b empty).verdict ≡ incomplete
      → let d = decode state b empty in
        recv_loop decode (suc fuel) state b messages
        ≡ some (record { state = d.state; buff = d.buff; messages = messages; shutdown = false })
  unfolding recv_loop
  recv_wait fuel state b messages e = rw (e, recv_loop)

  pub recv_fail :
      (fuel : ℕ) (state : S) (b : ByteBuffer) (messages : List (List ℕ))
      → (decode state b empty).verdict ≡ error
      → let d = decode state b empty in
        recv_loop decode (suc fuel) state b messages
        ≡ some (record { state = d.state; buff = d.buff; messages = messages; shutdown = true })
  unfolding recv_loop
  recv_fail fuel state b messages e = rw (e, recv_loop)

  recv_loop-total :
      Consumes decode
      → (fuel : ℕ) (state : S) (b : ByteBuffer) (messages : List (List ℕ)) → IsValid b
      → readable_bytes b < fuel
      → (r : Received S) × (recv_loop decode fuel state b messages ≡ some r)
  recv_loop-total law zero state b messages v h = absurd (omega arith)
  recv_loop-total law (suc fuel) state b messages v h =
      elim (Verdict-cases (decode state b empty).verdict) [
        | inl good ↦
            let less = law.takes state b v good in
            rw (recv_step fuel state b messages good) (
              recv_loop-total law fuel (decode state b empty).state (decode state b empty).buff
                (messages ++ (to_string (decode state b empty).payload ∷ [])) less.0
                (omega (arith, less.1)))
        | inr (inl wait) ↦ (_, recv_wait fuel state b messages wait)
        | inr (inr bad) ↦ (_, recv_fail fuel state b messages bad)
      ]

  -- On every valid buffer `recv` of a codec that takes a byte at least when it succeeds has a
  -- result: one round for every readable byte and one more are enough.
  pub recv-total :
      Consumes decode
      → (state : S) (b : ByteBuffer) → IsValid b
      → (r : Received S) × (recv decode state b ≡ some r)
  unfolding recv
  recv-total law state b v = recv_loop-total law (suc (readable_bytes b)) state b [] v (omega arith)
