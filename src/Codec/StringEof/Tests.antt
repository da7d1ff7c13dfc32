-- ===== src/Codec/StringEof/Tests.antt =====
-- Lines that end in "\r\n", through include/codec/StringEofCodec.h.
use annety.Prelude.{ℕ, ◌≡◌, refl, sym, ap, ◌∙◌, List, [], ◌∷◌, ◌++◌, arith, length, none, some}
use annety.Buffer.{ByteBuffer, readable_bytes, to_string, append}
use annety.Buffer.Refine.{Shows, append-Shows, shown}
use annety.Net.{empty}
use annety.Net.Ints.{empty-Shows}
use annety.Text.{begins, search_from, find}
use annety.Codec.{incomplete, Received, recv}
use annety.Codec.StringEof.Ends.{recv-ends}
use annety.Codec.Recv.{Taken}
use annety.Codec.StringEof.{StringEofCodec, find_eof, next_offset, decode}
use annety.Codec.StringEof.Frames.{Plain, find_eof-find, decode-Plain}
use annety.Codec.StringEof.Offset.{decode_incomplete, decode_overtaken}

abbrev lines : StringEofCodec
lines = record { string_eof = 13 ∷ 10 ∷ []; max_payload = 100 }

abbrev line : List ℕ
line = 65 ∷ 13 ∷ 66 ∷ []

line-Plain : Plain (13 ∷ 10 ∷ []) line
unfolding begins
line-Plain = (refl, (refl, (refl, tt)))

abbrev line_buffer : ByteBuffer
line_buffer = (append empty (line ++ (13 ∷ 10 ∷ 9 ∷ []))).0

line-Shows : Shows line_buffer (line ++ (13 ∷ 10 ∷ 9 ∷ []))
line-Shows = (append-Shows empty [] empty-Shows (line ++ (13 ∷ 10 ∷ 9 ∷ []))).0

decode-Plain_example :
    Taken line_buffer (decode lines 0 line_buffer empty) (9 ∷ []) ([] ++ line)
    × ((decode lines 0 line_buffer empty).state ≡ 0)
decode-Plain_example =
    decode-Plain lines line_buffer empty line [] (9 ∷ []) line-Shows.valid empty-Shows (omega arith)
      line-Plain line-Shows.content

-- Ten bytes, two more, and then the end of the line.
abbrev ten : List ℕ
ten = 7 ∷ 7 ∷ 7 ∷ 7 ∷ 7 ∷ 7 ∷ 7 ∷ 7 ∷ 7 ∷ 7 ∷ []

abbrev twelve : List ℕ
twelve = ten ++ (7 ∷ 7 ∷ [])

abbrev whole : List ℕ
whole = twelve ++ (13 ∷ 10 ∷ [])

abbrev holding : List ℕ → ByteBuffer
holding xs = (append empty xs).0

holding-Shows : (xs : List ℕ) → Shows (holding xs) xs
holding-Shows xs = (append-Shows empty [] empty-Shows xs).0

count : (xs : List ℕ) → readable_bytes (holding xs) ≡ length xs
count xs = sym (shown (holding xs) xs (holding-Shows xs))

searched :
    (xs : List ℕ) (offset : ℕ)
    → find_eof lines (to_string (holding xs)) offset ≡ find xs (13 ∷ 10 ∷ []) offset
searched xs offset =
    find_eof-find lines (to_string (holding xs)) offset
    ∙ ap (λ l. find l (13 ∷ 10 ∷ []) offset) (holding-Shows xs).content

first_none : find_eof lines (to_string (holding ten)) 0 ≡ none
unfolding find search_from begins
first_none = searched ten 0

first_offset : (decode lines 0 (holding ten) empty).state ≡ 7
first_offset =
    ap (λ d. d.state)
      (decode_incomplete lines 0 (holding ten) empty (omega (arith, count ten))
        (omega (arith, count ten)) first_none)
    ∙ ap (λ r. next_offset 0 r 2) (count ten)

second_none :
    find_eof lines (to_string (holding twelve)) (decode lines 0 (holding ten) empty).state ≡ none
unfolding find search_from begins
second_none = ap (find_eof lines (to_string (holding twelve))) first_offset ∙ searched twelve 7

decode_overtaken_example :
    ((decode lines
        (decode lines (decode lines 0 (holding ten) empty).state (holding twelve) empty).state
        (holding whole)
        empty).verdict
      ≡ incomplete)
    × ((decode lines
          (decode lines (decode lines 0 (holding ten) empty).state (holding twelve) empty).state
          (holding whole)
          empty).buff
        ≡ holding whole)
    × ((decode lines
          (decode lines (decode lines 0 (holding ten) empty).state (holding twelve) empty).state
          (holding whole)
          empty).payload
        ≡ empty)
decode_overtaken_example =
    decode_overtaken lines (holding ten) (holding twelve) (holding whole) empty
      (holding-Shows whole).valid (omega arith) (omega (arith, count ten))
      (omega (arith, count twelve)) (omega (arith, count whole))
      (omega (arith, count ten, count twelve)) (omega (arith, count ten))
      (omega (arith, count twelve)) (omega (arith, count whole)) first_none second_none
      (omega (arith, count ten, count twelve, count whole))

recv-ends_example : (r : Received ℕ) × (recv (decode lines) 0 line_buffer ≡ some r)
recv-ends_example = recv-ends lines 0 line_buffer (omega arith) line-Shows.valid
