-- ===== src/Codec/Tests.antt =====
-- The codecs of include/codec/ on small payloads.
use annety.Prelude.{
  ℕ, ◌≡◌, refl, true, false, List, [], ◌∷◌, ◌++◌, arith, length, take, drop, ap, sym, ◌∙◌, subst,
  inl, map, some, append-nil, take-append-drop,
}
use annety.Prelude.Int.{pos}
use annety.Buffer.{ByteBuffer, to_string, append}
use annety.Buffer.Refine.{Shows, append-Shows}
use annety.Net.{empty}
use annety.Net.Order.{little, big}
use annety.Net.Ints.{empty-Shows}
use annety.Codec.{success, error, Received, recv}
use annety.Codec.Recv.{recv-total}
use annety.Codec.LengthHeader.{type16, make, decode, encode}
use annety.Codec.LengthHeader.Parts.{frame}
use annety.Codec.LengthHeader.Encode.{encode-frame}
use annety.Codec.LengthHeader.Partial.{decode-Consumes}
use annety.Codec.LengthHeader.Stream.{Fits, stream, Result, recv-stream}
use annety.Codec.LengthHeader.Segments.{Fed, feed, flatten, sent_bytes, Sendable, feed-sent_bytes}
use annety.Codec.LengthHeader.Limits.{decode_refuses_encoded_long}

abbrev body : List ℕ
body = 65 ∷ 66 ∷ 67 ∷ []

abbrev body_buffer : ByteBuffer
body_buffer = (append empty body).0

body-Shows : Shows body_buffer body
body-Shows = (append-Shows empty [] empty-Shows body).0

count_body : length (to_string body_buffer) ≡ 3
count_body = ap length body-Shows.content

body-Sendable : Sendable type16 true (pos 100) body_buffer
body-Sendable = (
  body-Shows.valid,
  omega (arith, count_body),
  (omega (arith, count_body), omega (arith, count_body)),
)

abbrev payloads : List ByteBuffer
payloads = body_buffer ∷ body_buffer ∷ []

abbrev sent_twice : List ℕ
sent_twice = sent_bytes (make type16 true (pos 100)) little payloads

-- The first read ends inside the first frame.
abbrev segments : List (List ℕ)
segments = take 4 sent_twice ∷ drop 4 sent_twice ∷ []

segments-all : flatten segments ≡ sent_twice
segments-all = ap (λ l. take 4 sent_twice ++ l) (append-nil _) ∙ take-append-drop 4 sent_twice

feed-sent_bytes_example :
    (d : Fed) × (feed (make type16 true (pos 100)) big empty segments ≡ some d)
    × (d.messages ≡ map to_string payloads)
    × Shows d.buff []
    × (d.shutdown ≡ false)
feed-sent_bytes_example =
    feed-sent_bytes type16 true (pos 100) little big payloads segments
      (body-Sendable, (body-Sendable, tt)) segments-all

abbrev framed : ByteBuffer
framed = (append empty (frame type16 true body)).0

framed-Shows : Shows framed (frame type16 true body)
framed-Shows = (append-Shows empty [] empty-Shows (frame type16 true body)).0

body-Fits : Fits type16 true (pos 100) body
body-Fits = (omega arith, omega arith)

framed_stream : Shows framed (stream type16 true (body ∷ []) ++ [])
framed_stream = subst (Shows framed) (sym (append-nil _ ∙ append-nil _)) framed-Shows

recv-stream_example :
    Result type16 true
      (pos 100)
      big
      (body ∷ [])
      []
      (recv (decode (make type16 true (pos 100)) big) tt framed)
recv-stream_example =
    recv-stream type16 true (pos 100) big (body ∷ []) framed [] framed_stream (body-Fits, tt)
      (inl refl)

recv-total_example :
    (r : Received (Unit {0})) × (recv (decode (make type16 true (pos 100)) big) tt framed ≡ some r)
recv-total_example =
    recv-total (decode (make type16 true (pos 100)) big)
      (decode-Consumes (make type16 true (pos 100)) big) tt framed framed-Shows.valid

-- With a limit of 4, the three bytes and their checksum.
abbrev encoded_long : ByteBuffer
encoded_long = (encode (make type16 true (pos 4)) little body_buffer empty).1

encoded_long-Shows : Shows encoded_long ([] ++ frame type16 true body)
encoded_long-Shows =
    (encode-frame type16 (pos 4) little body_buffer empty [] body body-Shows.valid
      body-Shows.content (omega arith) (omega arith) empty-Shows true).1

decode_refuses_encoded_long_example :
    ((encode (make type16 true (pos 4)) little body_buffer empty).0 ≡ success)
    × (decode (make type16 true (pos 4)) big tt encoded_long empty
        ≡ record { verdict = error; state = tt; buff = encoded_long; payload = empty })
decode_refuses_encoded_long_example =
    decode_refuses_encoded_long type16 3 little big body_buffer empty empty encoded_long []
      body-Shows.valid empty-Shows encoded_long-Shows.valid (omega (arith, count_body))
      (omega (arith, count_body)) (omega (arith, count_body)) (omega (arith, count_body))
      (sym (append-nil _))
