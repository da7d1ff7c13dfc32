-- ===== src/Text/Tests.antt =====
-- Searches of src/strings/StringPiece.cc on one text.
use annety.Prelude.{ℕ, ◌≡◌, refl, List, [], ◌∷◌, some}
use annety.Text.{find_from, find_char, substr}

abbrev text : List ℕ
text = 5 ∷ 13 ∷ 7 ∷ 13 ∷ 10 ∷ 9 ∷ []

find_char_test : find_char text 13 2 ≡ some 3
unfolding find_char find_from
find_char_test = refl

substr_test : substr text 4 9 ≡ 10 ∷ 9 ∷ []
unfolding substr
substr_test = refl
