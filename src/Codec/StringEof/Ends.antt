-- ===== src/Codec/StringEof/Ends.antt =====
-- `recv` of include/codec/Codec.h over include/codec/StringEofCodec.h ends.
use annety.Prelude.{
  ℕ, ◌+◌, ◌≤◌, ◌<◌, ◌≡◌, refl, sym, ◌∙◌, inl, inr, ◌&&◌, arith, length, Bool-cases, Option-cases,
  ltb, leb, some,
}
use annety.Buffer.{ByteBuffer, IsValid, readable_bytes, to_string}
use annety.Buffer.Inv.{length-to_string, has_read-IsValid, readable-has_read}
use annety.Net.{empty}
use annety.Text.{find}
use annety.Text.Find.{find-first, find-within}
use annety.Codec.{error, incomplete, success, Received, recv}
use annety.Codec.Recv.{recv-total}
use annety.Codec.StringEof.{StringEofCodec, find_eof, decode}
use annety.Codec.StringEof.Frames.{find_eof-find}

find_eof-room :
    (c : StringEofCodec) (b : ByteBuffer) (offset n : ℕ)
    → IsValid b
    → find_eof c (to_string b) offset ≡ some n
    → n + length c.string_eof ≤ readable_bytes b
find_eof-room c b offset n v e =
    let found : find (to_string b) c.string_eof offset ≡ some n =
      sym (find_eof-find c (to_string b) offset) ∙ e in
    omega (
      arith,
      find-first (to_string b) c.string_eof offset n n found
          (find-within (to_string b) c.string_eof offset n found) (omega arith),
      length-to_string b v,
    )

takes_one :
    (c : StringEofCodec) (offset : ℕ) (b : ByteBuffer)
    → 0 < length c.string_eof
    → IsValid b
    → (decode c offset b empty).verdict ≡ success
    → IsValid (decode c offset b empty).buff
      × (readable_bytes (decode c offset b empty).buff < readable_bytes b)
unfolding decode
takes_one c offset b some_ v good =
    elim (Bool-cases (leb (length c.string_eof) (readable_bytes b))) [
      | inr few ↦
          let is : (decode c offset b empty).verdict ≡ incomplete = simp (few) refl in
          absurd (cc (is, good))
      | inl room ↦ elim (Option-cases (find_eof c (to_string b) offset)) [
        | inl none_ ↦
            elim (Bool-cases (
              ltb 0 c.max_payload
              && ltb (c.max_payload + length c.string_eof) (readable_bytes b))) [
                | inl over ↦
                    let is : (decode c offset b empty).verdict ≡ error =
                      simp (room, none_, over) refl in
                    absurd (cc (is, good))
                | inr fine ↦
                    let is : (decode c offset b empty).verdict ≡ incomplete =
                      simp (room, none_, fine) refl in
                    absurd (cc (is, good))
              ]
        | inr (n, found) ↦
            let fits = find_eof-room c b offset n v found in
            simp (room, found)
              (
                has_read-IsValid b (n + length c.string_eof) v,
                omega (arith, readable-has_read b (n + length c.string_eof), fits),
              )
      ]
    ]

-- On every valid buffer and from every search offset `recv` of a codec whose end text is not empty
-- ends: it has a result.
pub recv-ends :
    (c : StringEofCodec) (offset : ℕ) (b : ByteBuffer)
    → 0 < length c.string_eof
    → IsValid b
    → (r : Received ℕ) × (recv (decode c) offset b ≡ some r)
recv-ends c offset b some_ v =
    recv-total (decode c)
      (record { takes = λ state buff valid good. takes_one c state buff some_ valid good }) offset b
      v
