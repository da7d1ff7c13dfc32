-- ===== src/Net/Tests.antt =====
-- Integers and reads of src/NetBuffer.cc at concrete values.
use annety.Prelude.{◌≡◌, [], ◌∷◌, ◌++◌, arith, ap, sym, ◌∙◌}
use annety.Prelude.Int.{negsuc}
use annety.Buffer.{ByteBuffer, to_string, append}
use annety.Buffer.Refine.{Shows, append-Shows}
use annety.Net.{append_int, read_int, empty}
use annety.Net.Order.{little, big}
use annety.Net.Ints.{read_int-append_int, empty-Shows, wire, append_int-Shows}

-- The bytes of -2 in network order, and two more behind them.
abbrev arrived : ByteBuffer
arrived = (append (append_int big 4 empty (negsuc 1)) (7 ∷ 8 ∷ [])).0

sent_four : Shows (append_int big 4 empty (negsuc 1)) (wire 4 (negsuc 1))
sent_four = append_int-Shows big 4 empty [] (negsuc 1) empty-Shows

arrived-Shows : Shows arrived (wire 4 (negsuc 1) ++ (7 ∷ 8 ∷ []))
arrived-Shows =
    (append-Shows (append_int big 4 empty (negsuc 1)) (wire 4 (negsuc 1)) sent_four (7 ∷ 8 ∷ [])).0

read_int-append_int_example :
    ((read_int little 4 arrived).0 ≡ negsuc 1)
    × (to_string (read_int little 4 arrived).1 ≡ 7 ∷ 8 ∷ [])
read_int-append_int_example =
    read_int-append_int big little 4 empty arrived (negsuc 1) (7 ∷ 8 ∷ []) empty-Shows
      arrived-Shows.valid (omega arith)
      (arrived-Shows.content ∙ ap (λ l. l ++ (7 ∷ 8 ∷ [])) (sym sent_four.content))
