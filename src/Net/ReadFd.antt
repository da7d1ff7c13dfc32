-- ===== src/Net/ReadFd.antt =====
-- `NetBuffer::read_fd` of src/NetBuffer.cc.
use annety.Prelude.{
  ℕ, ◌+◌, ◌≤◌, ◌<◌, ◌≡◌, refl, ap, ◌∙◌, inl, inr, List, ◌++◌, arith, length, take, drop, Bool-cases,
  leb, leb→le, not_leb→lt, length-take, length-drop, take-append-drop, append_assoc, subst,
}
use annety.Prelude.Int.{pos}
use annety.Buffer.{ByteBuffer, writable_bytes, put, append}
use annety.Buffer.View.{to_string-put}
use annety.Buffer.Append.{put-IsValid, put_limit, writable_unlimited}
use annety.Buffer.Refine.{Shows, append-Shows}
use annety.Net.{read_fd, got, capacity, extrabuf_size}

-- The vectors hold what the extra memory holds, at least.
pub capacity-extra : (b : ByteBuffer) → extrabuf_size ≤ capacity b
unfolding capacity
capacity-extra b = ground arith

module _ (b : ByteBuffer) (q : List ℕ) (s : Shows b q) where
  -- In a buffer without limit the writable bytes are the memory behind the writer index.
  room : b.writer_index + writable_bytes b ≡ length b.buffer
  room = omega (arith, writable_unlimited b s.unlimited, s.valid.within)

  put-Shows : (xs : List ℕ) → length xs ≤ writable_bytes b → Shows (put b xs) (q ++ xs)
  put-Shows xs h = record {
    valid = put-IsValid b xs s.valid (omega (arith, room)) h;
    unlimited = put_limit b xs ∙ s.unlimited;
    content = to_string-put b xs s.valid ∙ ap (λ t. t ++ xs) s.content;
  }

  spill :
      (xs : List ℕ)
      → writable_bytes b < length xs
      → Shows (append (put b (take (writable_bytes b) xs)) (drop (writable_bytes b) xs)).0 (q ++ xs)
  spill xs h =
      let front = take (writable_bytes b) xs in
      let back = drop (writable_bytes b) xs in
      let first : Shows (put b front) (q ++ front) =
        put-Shows front (omega (arith, length-take (writable_bytes b) xs)) in
      subst (Shows (append (put b front) back).0)
        (append_assoc q front back ∙ ap (◌++◌ q) (take-append-drop (writable_bytes b) xs))
        (append-Shows (put b front) (q ++ front) first back).0

  -- A buffer without limit gains exactly the bytes that `readv` delivered, however they spread
  -- over its own memory and the extra one, and the count is returned; no more of them come from
  -- the extra memory than it holds, if `readv` keeps to the vectors.
  pub read_fd-got :
      (xs : List ℕ)
      → length xs ≤ capacity b
      → Shows (read_fd b (got xs)).0 (q ++ xs)
        × ((read_fd b (got xs)).1 ≡ pos (length xs))
        × (length (drop (writable_bytes b) xs) ≤ extrabuf_size)
  unfolding read_fd capacity
  read_fd-got xs h =
      let extra : length (drop (writable_bytes b) xs) ≤ extrabuf_size =
        ground (arith, length-drop (writable_bytes b) xs) in
      elim (Bool-cases (leb (length xs) (writable_bytes b))) [
        | inl fits ↦ rw fits (put-Shows xs (leb→le _ _ fits), refl, extra)
        | inr over ↦ rw over (spill xs (not_leb→lt _ _ over), refl, extra)
      ]

pub read_fd-Shows :
    (b : ByteBuffer) (q : List ℕ)
    → Shows b q
    → (xs : List ℕ) → Shows (read_fd b (got xs)).0 (q ++ xs)
unfolding read_fd
read_fd-Shows b q s xs = elim (Bool-cases (leb (length xs) (writable_bytes b))) [
  | inl fits ↦ rw fits (put-Shows b q s xs (leb→le _ _ fits))
  | inr over ↦ rw over (spill b q s xs (not_leb→lt _ _ over))
]
