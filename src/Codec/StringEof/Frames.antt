-- ===== src/Codec/StringEof/Frames.antt =====
-- Whole texts through include/codec/StringEofCodec.h, from a codec that has its offset at 0.
use annety.Prelude.{
  ℕ, suc, ◌+◌, ◌≤◌, ◌<◌, ◌≡◌, refl, sym, ap, ◌∙◌, inl, inr, true, false, ◌&&◌, List, [], ◌∷◌, ◌++◌,
  arith, length, take, drop, Bool-cases, leb, ◌==◌, ==_iff, take_front, drop_front, length-append,
  append_assoc, some, get_or,
}
use annety.Buffer.{ByteBuffer, IsValid, readable_bytes, read_from, to_string}
use annety.Buffer.Inv.{length-to_string, has_read-IsValid}
use annety.Buffer.View.{to_string-has_read, read_from-take}
use annety.Buffer.Refine.{Shows, append-Shows, has_read_limit}
use annety.Text.{begins, search_from, find}
use annety.Text.Find.{find_char-find}
use annety.Codec.Recv.{Taken}
use annety.Codec.StringEof.{StringEofCodec, find_eof, decode}

-- The search of `decode`, whichever of the two it is.
pub find_eof-find :
    (c : StringEofCodec) (piece : List ℕ) (pos : ℕ)
    → find_eof c piece pos ≡ find piece c.string_eof pos
unfolding find_eof
find_eof-find c piece pos = elim (Bool-cases (length c.string_eof == 1)) [
  | inr more ↦ rw more refl
  | inl one ↦ rw one (
      find_char-find piece (get_or c.string_eof 0 0) pos
      ∙ ap (λ s. find piece s pos) (single c.string_eof ((==_iff _ _).0 one)))
]
  where
    single : (s : List ℕ) → length s ≡ 1 → get_or s 0 0 ∷ [] ≡ s
    single [] h = absurd (omega arith)
    single (x ∷ []) h = refl
    single (x ∷ y ∷ s) h = absurd (omega arith)

-- No match begins inside `p` when the text ends it.
abbrev pub Plain : List ℕ → List ℕ → Type 0
Plain eof [] = Unit {0}
Plain eof (x ∷ p) = (begins eof (x ∷ (p ++ eof)) ≡ false) × Plain eof p

pub begins-append : (s xs ys : List ℕ) → length s ≤ length xs → begins s (xs ++ ys) ≡ begins s xs
unfolding begins
begins-append [] xs ys h = refl
begins-append (c ∷ s) [] ys h = absurd (omega arith)
begins-append (c ∷ s) (x ∷ xs) ys h = ap (λ b. (c == x) && b) (begins-append s xs ys (omega arith))

begins_self : (s ys : List ℕ) → begins s (s ++ ys) ≡ true
unfolding begins
begins_self [] ys = refl
begins_self (c ∷ s) ys = rw ((==_iff c c).1 refl) (begins_self s ys)

search_from-Plain :
    (eof p rest : List ℕ)
    → 0 < length eof
    → Plain eof p
    → search_from eof (p ++ (eof ++ rest)) ≡ length p
unfolding search_from
search_from-Plain [] [] rest h plain = absurd (omega arith)
search_from-Plain (c ∷ s) [] rest h plain = rw (begins_self (c ∷ s) rest)
search_from-Plain eof (x ∷ p) rest h plain =
    let miss : begins eof (x ∷ (p ++ (eof ++ rest))) ≡ false =
      ap (λ l. begins eof (x ∷ l)) (sym (append_assoc p eof rest))
      ∙ begins-append eof (x ∷ (p ++ eof)) rest (omega (arith, length-append p eof))
      ∙ plain.0 in
    rw miss (ap suc (search_from-Plain eof p rest h plain.1))

find-Plain :
    (eof p rest : List ℕ)
    → 0 < length eof
    → Plain eof p
    → find (p ++ (eof ++ rest)) eof 0 ≡ some (length p)
unfolding find
find-Plain eof p rest h plain = ground (
  arith,
  search_from-Plain eof p rest h plain,
  length-append p (eof ++ rest),
  length-append eof rest,
)

module _ (c : StringEofCodec) (buff payload : ByteBuffer) (p q rest : List ℕ) (v : IsValid buff)
    (s : Shows payload q) (some_ : 0 < length c.string_eof) (plain : Plain c.string_eof p)
    (content : to_string buff ≡ p ++ (c.string_eof ++ rest)) where
  count : readable_bytes buff ≡ length p + length c.string_eof + length rest
  count = omega (
    arith,
    length-to_string buff v,
    ap length content,
    length-append p (c.string_eof ++ rest),
    length-append c.string_eof rest,
  )

  found : find_eof c (to_string buff) 0 ≡ some (length p)
  found =
      find_eof-find c (to_string buff) 0
      ∙ ap (λ l. find l c.string_eof 0) content
      ∙ find-Plain c.string_eof p rest some_ plain

  -- On a valid buffer that begins with a payload and its end text, where no match begins before, a
  -- `decode` that searches from 0 succeeds, appends exactly the payload, leaves exactly the bytes
  -- behind the end text, and searches from 0 the next time.
  pub decode-Plain :
      Taken buff (decode c 0 buff payload) rest (q ++ p) × ((decode c 0 buff payload).state ≡ 0)
  unfolding decode
  decode-Plain =
      let room : leb (length c.string_eof) (readable_bytes buff) ≡ true = ground (arith, count) in
      let bytes : read_from buff 0 (length p) ≡ p =
        read_from-take buff 0 (length p) (omega (arith, count))
        ∙ ap (take (length p)) content
        ∙ take_front (length p) p (c.string_eof ++ rest) refl in
      simp (room, found, bytes)
        (
          record {
            good = refl;
            valid = has_read-IsValid buff (length p + length c.string_eof) v;
            left =
                to_string-has_read buff (length p + length c.string_eof) v
                ∙ ap (drop (length p + length c.string_eof))
                    (content ∙ sym (append_assoc p c.string_eof rest))
                ∙ drop_front (length p + length c.string_eof) (p ++ c.string_eof) rest
                    (length-append p c.string_eof);
            limit = has_read_limit buff _;
            shows = (append-Shows payload q s p).0;
          },
          refl,
        )
