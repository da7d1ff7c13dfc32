-- ===== src/Codec/StringEof/Offset.antt =====
-- The search offset that `decode` of include/codec/StringEofCodec.h adds up over its calls.
use annety.Prelude.{
  ℕ, ◌+◌, ◌-◌, ◌^◌, ◌≤◌, ◌<◌, ◌≡◌, refl, ap, ◌∙◌, true, false, ◌&&◌, List, arith, length, ltb, leb,
  le→leb, none,
}
use annety.Buffer.{ByteBuffer, IsValid, readable_bytes, to_string}
use annety.Buffer.Inv.{length-to_string}
use annety.Text.{find}
use annety.Codec.{incomplete}
use annety.Codec.StringEof.{StringEofCodec, find_eof, next_offset, decode}
use annety.Codec.StringEof.Frames.{find_eof-find}

find_late :
    (self s : List ℕ) (pos : ℕ)
    → 0 < length s
    → length self < pos + length s
    → find self s pos ≡ none
unfolding find
find_late self s pos some_ late = ground arith

next_offset_exact :
    (offset r k : ℕ) → k < r → offset + r < 2 ^ 63 → next_offset offset r k ≡ offset + (r - k - 1)
next_offset_exact offset r k more small = omega arith

pub decode_incomplete :
    (c : StringEofCodec) (offset : ℕ) (buff payload : ByteBuffer)
    → length c.string_eof ≤ readable_bytes buff
    → readable_bytes buff ≤ c.max_payload + length c.string_eof
    → find_eof c (to_string buff) offset ≡ none
    → decode c offset buff payload ≡ record {
      verdict = incomplete;
      state = next_offset offset (readable_bytes buff) (length c.string_eof);
      buff = buff;
      payload = payload;
    }
unfolding decode
decode_incomplete c offset buff payload room within missed =
    let fits : leb (length c.string_eof) (readable_bytes buff) ≡ true = le→leb _ _ room in
    let allowed : ltb 0 c.max_payload
          && ltb (c.max_payload + length c.string_eof) (readable_bytes buff)
        ≡ false =
      ground arith in
    simp (fits, missed, allowed) refl

-- Each call adds to the offset from which the next one searches. Take a nonempty end text of length
-- `k`, a first call at offset 0 and a second one that find no end text in `r1` and `r2` readable
-- bytes, both more than `k`. Then a third call, on at least `k` and fewer than `r1 + r2 - k - 2`
-- bytes, is incomplete and changes neither buffer, whatever the bytes are, the end text anywhere
-- among them; no call exceeds the limit, and `r1 + r2` is below 2 ^ 63.
pub decode_overtaken :
    (c : StringEofCodec) (b1 b2 b3 payload : ByteBuffer)
    → let k = length c.string_eof in
      let d1 = decode c 0 b1 payload in
      let d2 = decode c d1.state b2 payload in
      let d3 = decode c d2.state b3 payload in
      IsValid b3
      → 0 < k
      → k < readable_bytes b1
      → k < readable_bytes b2
      → k ≤ readable_bytes b3
      → readable_bytes b1 + readable_bytes b2 < 2 ^ 63
      → readable_bytes b1 ≤ c.max_payload + k
      → readable_bytes b2 ≤ c.max_payload + k
      → readable_bytes b3 ≤ c.max_payload + k
      → find_eof c (to_string b1) 0 ≡ none
      → find_eof c (to_string b2) d1.state ≡ none
      → readable_bytes b3 + k + 2 < readable_bytes b1 + readable_bytes b2
      → (d3.verdict ≡ incomplete) × (d3.buff ≡ b3) × (d3.payload ≡ payload)
decode_overtaken c b1 b2 b3 payload v some_ m1 m2 m3 small l1 l2 l3 f1 f2 overtaken =
    let k = length c.string_eof in
    let r1 = readable_bytes b1 in
    let r2 = readable_bytes b2 in
    let d1 = decode c 0 b1 payload in
    let d2 = decode c d1.state b2 payload in
    let s1 : d1.state ≡ 0 + (r1 - k - 1) =
      ap (λ d. d.state) (decode_incomplete c 0 b1 payload (omega arith) l1 f1)
      ∙ next_offset_exact 0 r1 k m1 (omega arith) in
    let s2 : d2.state ≡ d1.state + (r2 - k - 1) =
      ap (λ d. d.state) (decode_incomplete c d1.state b2 payload (omega arith) l2 f2)
      ∙ next_offset_exact d1.state r2 k m2 (omega (arith, s1)) in
    let f3 : find_eof c (to_string b3) d2.state ≡ none =
      find_eof-find c (to_string b3) d2.state
      ∙ find_late (to_string b3) c.string_eof d2.state some_
          (omega (arith, s1, s2, length-to_string b3 v)) in
    let done = decode_incomplete c d2.state b3 payload m3 l3 f3 in
    (ap (λ d. d.verdict) done, ap (λ d. d.buff) done, ap (λ d. d.payload) done)
