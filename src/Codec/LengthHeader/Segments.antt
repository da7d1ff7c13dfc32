-- ===== src/Codec/LengthHeader/Segments.antt =====
-- Frames from one end of a connection to the other, in segments of any size: `send` of
-- include/codec/Codec.h on one side, `TcpConnection::handle_read` and `recv` on the other.
use annety.Prelude.{
  ℕ, zero, suc, ◌≤◌, ◌<◌, ◌≡◌, refl, sym, ap, ap₂, ◌∙◌, subst, inl, Bool, false, ◌||◌, List, [],
  ◌∷◌, ◌++◌, arith, length, append_assoc, append-nil, All, map, Option, some, none,
}
use annety.Prelude.Int.{ℤ, pos, negsuc}
use annety.Buffer.{ByteBuffer, IsValid, to_string}
use annety.Buffer.Refine.{Shows}
use annety.Net.Order.{Endian}
use annety.Codec.LengthHeader.{LengthType, LengthHeaderCodec, make, decode, encode}
use annety.Codec.{Received, recv, send_with, sent, shut, nothing}
use annety.Net.{empty, read_fd, got}
use annety.Net.Ints.{empty-Shows}
use annety.Net.ReadFd.{read_fd-Shows}
use annety.Codec.LengthHeader.Parts.{frame, Allowed}
use annety.Codec.LengthHeader.Decode.{field, decode-frame}
use annety.Codec.LengthHeader.Encode.{encode-frame}
use annety.Codec.LengthHeader.Stream.{Fits, stream, Waits, codec, decode-Waits, recv-stream}
use annety.Codec.LengthHeader.Cut.{Cut, cut}

-- What the receiver has after some reads: the payloads delivered so far, and its input buffer.
pub record Fed : Type 0 where
  pub messages : List (List ℕ)
  pub buff : ByteBuffer
  pub shutdown : Bool

-- Each read puts its bytes into the input buffer and hands the buffer to `recv`.
pub feed : LengthHeaderCodec → Endian → ByteBuffer → List (List ℕ) → Option Fed
feed c e b [] = some (record { messages = []; buff = b; shutdown = false })
feed c e b (x ∷ xs) = elim (recv (decode c e) tt (read_fd b (got x)).0) [
  | none ↦ none
  | some r ↦ elim (feed c e r.buff xs) [
    | none ↦ none
    | some rest ↦ some (record {
      messages = r.messages ++ rest.messages;
      buff = rest.buff;
      shutdown = r.shutdown || rest.shutdown;
    })
  ]
]

-- The bytes that `send` of all payloads, one after the other, gives to the connection.
pub sent_bytes : LengthHeaderCodec → Endian → List ByteBuffer → List ℕ
sent_bytes c e [] = []
sent_bytes c e (b ∷ bs) = elim (send_with (encode c e) b) [
  | sent x ↦ to_string x ++ sent_bytes c e bs
  | shut ↦ sent_bytes c e bs
  | nothing ↦ sent_bytes c e bs
]

abbrev pub flatten : List (List ℕ) → List ℕ
flatten [] = []
flatten (x ∷ xs) = x ++ flatten xs

feed_step :
    (c : LengthHeaderCodec) (e : Endian) (b : ByteBuffer) (x : List ℕ) (xs : List (List ℕ))
    (r : Received (Unit {0})) (rest : Fed)
    → recv (decode c e) tt (read_fd b (got x)).0 ≡ some r
    → feed c e r.buff xs ≡ some rest
    → feed c e b (x ∷ xs)
      ≡ some (record {
        messages = r.messages ++ rest.messages;
        buff = rest.buff;
        shutdown = r.shutdown || rest.shutdown;
      })
unfolding feed
feed_step c e b x xs r rest p q = rw (p, q, feed)

module _ (t : LengthType) (guarded : Bool) (max : ℤ) (e : Endian) where
  -- What waits does not begin with a whole frame.
  Waits-no_frame :
      (b : ByteBuffer) (part p rest : List ℕ)
      → Shows b part
      → Waits t guarded max part
      → part ≡ frame t guarded p ++ rest
      → Fits t guarded max p
      → ⊥
  Waits-no_frame b part p rest s w h f =
      let taken =
        decode-frame t max e b empty p [] rest s.valid empty-Shows guarded f.0 f.1
          (s.content ∙ h) in
      cc (taken.good, ap (λ d. d.verdict) (decode-Waits t guarded max e b empty part s w))

  -- All that is delivered, with nothing left over and the connection open.
  abbrev Delivers : List (List ℕ) → Option Fed → Type 0
  Delivers ps r =
      (d : Fed) × (r ≡ some d) × (d.messages ≡ ps) × Shows d.buff [] × (d.shutdown ≡ false)

  feed_rest :
      (ps : List (List ℕ)) (b : ByteBuffer) (part : List ℕ)
      → Shows b part
      → Waits t guarded max part
      → part ++ [] ≡ stream t guarded ps
      → All (Fits t guarded max) ps
      → Delivers ps (feed (codec t guarded max e) e b [])
  unfolding feed
  feed_rest [] b part s w h f = (_, refl, refl, subst (Shows b) (sym (append-nil part) ∙ h) s, refl)
  feed_rest (p ∷ ps) b part s w h f =
      absurd (Waits-no_frame b part p (stream t guarded ps) s w (sym (append-nil part) ∙ h) f.0)

  feed_segments :
      (xs : List (List ℕ)) (ps : List (List ℕ)) (b : ByteBuffer) (part : List ℕ)
      → Shows b part
      → Waits t guarded max part
      → part ++ flatten xs ≡ stream t guarded ps
      → All (Fits t guarded max) ps
      → Delivers ps (feed (codec t guarded max e) e b xs)
  feed_segments [] ps b part s w h f = feed_rest ps b part s w h f
  feed_segments (x ∷ xs) ps b part s w h f =
      let c : Cut t guarded max ps (part ++ x) (flatten xs) =
        cut t guarded max ps (part ++ x) (flatten xs) (append_assoc part x (flatten xs) ∙ h) f in
      let b' : ByteBuffer = (read_fd b (got x)).0 in
      let s' : Shows b' (stream t guarded c.done ++ c.part) =
        subst (Shows b') c.split (read_fd-Shows b part s x) in
      let r = recv-stream t guarded max e c.done b' c.part s' c.done_fit c.waits in
      let ih = feed_segments xs c.left r.0.buff c.part r.3 c.waits c.after c.left_fit in
      (
        _,
        feed_step (codec t guarded max e) e b x xs r.0 ih.0 r.1 ih.1,
        ap₂ ◌++◌ r.2 ih.2 ∙ sym c.all_,
        ih.3,
        ap₂ ◌||◌ r.4 ih.4,
      )

Allowed-le : (max : ℤ) (m n : ℕ) → m ≤ n → Allowed max n → Allowed max m
Allowed-le (pos zero) m n h a = tt
Allowed-le (pos (suc k)) m n h a = omega arith
Allowed-le (negsuc k) m n h a = tt

-- A payload buffer that can be sent.
abbrev pub Sendable : LengthType → Bool → ℤ → ByteBuffer → Type 0
Sendable t guarded max b = IsValid b × (0 < length (to_string b)) × Fits t guarded max (to_string b)

module _ (t : LengthType) (guarded : Bool) (max : ℤ) (e : Endian) where
  sent_stream :
      (bs : List ByteBuffer)
      → All (Sendable t guarded max) bs
      → (sent_bytes (make t guarded max) e bs ≡ stream t guarded (map to_string bs))
        × All (Fits t guarded max) (map to_string bs)
  unfolding sent_bytes send_with
  sent_stream [] h = (refl, tt)
  sent_stream (b ∷ bs) h =
      let p : List ℕ = to_string b in
      let (v, some_, f) = h.0 in
      let one =
        encode-frame t max e b empty [] p v refl some_
          (Allowed-le max (length p) (field guarded p) (omega arith) f.1) empty-Shows guarded in
      let rest = sent_stream bs h.1 in
      (rw (one.0, sent_bytes, send_with) (ap₂ ◌++◌ one.1.content rest.0), (f, rest.1))

-- A sender and a receiver with the same codec settings, of any byte order each: if the payloads are
-- nonempty and fit the length field and the limit with their checksum, then whatever the segments
-- are into which the sent bytes are cut on the way, the receiver delivers exactly the payloads in
-- their order, ends with an empty input buffer, and never shuts the connection down.
pub feed-sent_bytes :
    (t : LengthType) (guarded : Bool) (max : ℤ) (e e' : Endian) (payloads : List ByteBuffer)
    (segments : List (List ℕ))
    → All (Sendable t guarded max) payloads
    → flatten segments ≡ sent_bytes (make t guarded max) e payloads
    → (d : Fed) × (feed (make t guarded max) e' empty segments ≡ some d)
      × (d.messages ≡ map to_string payloads)
      × Shows d.buff []
      × (d.shutdown ≡ false)
feed-sent_bytes t guarded max e e' payloads segments h cutting =
    let all_ = sent_stream t guarded max e payloads h in
    feed_segments t guarded max e' segments (map to_string payloads) empty [] empty-Shows (inl refl)
      (cutting ∙ all_.0) all_.1
