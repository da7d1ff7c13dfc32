-- ===== src/Text.antt =====
-- include/strings/StringPiece.h and src/StringPiece.cc: searching and cutting. A piece is the list
-- of its bytes; `npos` is `none`.
pub mod Find
pub mod Tests
use annety.Prelude.{
  ℕ, zero, suc, ◌+◌, ◌-◌, Bool, true, false, ◌&&◌, List, [], ◌∷◌, Option, none, some, ltb, leb,
  ◌==◌, if◌then◌else◌, length, take, drop,
}

-- Whether `xs` begins with `s`.
unfoldable pub begins : List ℕ → List ℕ → Bool
begins [] xs = true
begins (c ∷ s) [] = false
begins (c ∷ s) (x ∷ xs) = (c == x) && begins s xs

-- `std::search`, as the distance from the first byte; the end of `xs` if there is no match.
unfoldable pub search_from : List ℕ → List ℕ → ℕ
unfolding begins
search_from s [] = 0
search_from s (x ∷ xs) = if begins s (x ∷ xs) then 0 else suc (search_from s xs)

-- `std::find`, likewise.
pub find_from : ℕ → List ℕ → ℕ
find_from c [] = 0
find_from c (x ∷ xs) = if x == c then 0 else suc (find_from c xs)

unfoldable pub find : List ℕ → List ℕ → ℕ → Option ℕ
unfolding search_from
find self s pos =
    let xpos = pos + search_from s (drop pos self) in
    if ltb (length self) pos
    then none
    else (if leb (xpos + length s) (length self) then some xpos else none)

pub find_char : List ℕ → ℕ → ℕ → Option ℕ
unfolding find_from
find_char self c pos =
    let xpos = pos + find_from c (drop pos self) in
    if leb (length self) pos then none else (if xpos == length self then none else some xpos)

pub substr : List ℕ → ℕ → ℕ → List ℕ
substr self pos n =
    let pos' = if ltb (length self) pos then length self else pos in
    let n' = if ltb (length self - pos') n then length self - pos' else n in
    take n' (drop pos' self)
