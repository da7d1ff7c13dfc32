-- ===== src/Text/Find.antt =====
-- What `find` of src/StringPiece.cc finds: the first match at or behind a position.
use annety.Prelude.{
  ℕ, zero, suc, ◌+◌, ◌-◌, ◌≤◌, ◌<◌, ◌≡◌, refl, sym, ap, ◌∙◌, inl, inr, true, false, List, [], ◌∷◌,
  none, some, ltb, arith, ◌==◌, ==_iff, length, drop, length-drop, drop-drop, Bool-cases, ltb→lt,
  not_ltb→le,
}
use annety.Text.{begins, search_from, find_from, find, find_char}

-- A match is not longer than what it stands in.
begins-length : (s xs : List ℕ) → begins s xs ≡ true → length s ≤ length xs
unfolding begins
begins-length [] xs h = omega arith
begins-length (c ∷ s) [] h = cc
begins-length (c ∷ s) (x ∷ xs) h = ground (arith, begins-length s xs)

search_before : (s xs : List ℕ) (j : ℕ) → j < search_from s xs → begins s (drop j xs) ≡ false
unfolding search_from
search_before s [] j h = absurd (omega arith)
search_before s (x ∷ xs) zero h = ground arith
search_before s (x ∷ xs) (suc j) h = ground (arith, search_before s xs j)

search_at :
    (s xs : List ℕ)
    → search_from s xs + length s ≤ length xs
    → begins s (drop (search_from s xs) xs) ≡ true
unfolding search_from
search_at [] [] h = unfold begins in refl
search_at (c ∷ s) [] h = absurd (omega arith)
search_at s (x ∷ xs) h = elim (Bool-cases (begins s (x ∷ xs))) [
  | inl hit ↦ rw (hit, search_from) hit
  | inr miss ↦ rw (miss, search_from) (search_at s xs (ground arith))
]

search_all :
    (s xs : List ℕ) (j : ℕ)
    → length xs < search_from s xs + length s
    → begins s (drop j xs) ≡ true
    → j ≤ length xs
    → ⊥
search_all s xs j h b l = elim (Bool-cases (ltb j (search_from s xs))) [
  | inl before ↦ cc (search_before s xs j (ltb→lt _ _ before), b)
  | inr behind ↦
      absurd (omega (arith, not_ltb→le _ _ behind, begins-length s (drop j xs) b, length-drop j xs))
]

module _ (self s : List ℕ) (pos : ℕ) where
  found :
      (n : ℕ)
      → find self s pos ≡ some n
      → (n ≡ pos + search_from s (drop pos self)) × (pos ≤ n) × (n + length s ≤ length self)
  unfolding find
  found n h = ground arith

  at : (j : ℕ) → pos ≤ j → drop (j - pos) (drop pos self) ≡ drop j self
  at j h = drop-drop (j - pos) pos self ∙ ap (λ k. drop k self) (omega arith)

  match_at : (n : ℕ) → find self s pos ≡ some n → begins s (drop n self) ≡ true
  match_at n h =
      let (is, lo, hi) = found n h in
      let here : n - pos ≡ search_from s (drop pos self) = omega arith in
      ap (begins s) (sym (at n lo) ∙ ap (λ k. drop k (drop pos self)) here)
      ∙ search_at s (drop pos self) (omega (arith, length-drop pos self))

  no_match_before :
      (n : ℕ)
      → find self s pos ≡ some n
      → (j : ℕ) → pos ≤ j
      → j < n
      → begins s (drop j self) ≡ false
  no_match_before n h j lo hi =
      ap (begins s) (sym (at j lo))
      ∙ search_before s (drop pos self) (j - pos) (omega (arith, (found n h).0))

  missed :
      find self s pos ≡ none
      → pos ≤ length self
      → length self < pos + search_from s (drop pos self) + length s
  unfolding find
  missed h l = ground arith

  no_match :
      find self s pos ≡ none → (j : ℕ) → pos ≤ j → j ≤ length self → begins s (drop j self) ≡ false
  no_match h j lo hi = elim (Bool-cases (begins s (drop j self))) [
    | inr miss ↦ miss
    | inl hit ↦ absurd (
        search_all s (drop pos self) (j - pos)
          (omega (arith, missed h (omega arith), length-drop pos self))
          (ap (begins s) (at j lo) ∙ hit) (omega (arith, length-drop pos self)))
  ]

  -- If `find` answers a position, it is at or behind `pos`, the piece goes on there with `s`, the
  -- match lies inside the piece, and no position before it from `pos` on matches.
  pub find-first :
      (n j : ℕ)
      → find self s pos ≡ some n
      → pos ≤ j
      → j ≤ n
      → (pos ≤ n) × (n + length s ≤ length self) × (begins s (drop j self) ≡ (j == n))
  find-first n j h lo hi = elim (Bool-cases (j == n)) [
    | inl here ↦
        let at_ : j ≡ n = (==_iff j n).0 here in
        (
          (found n h).1,
          (found n h).2,
          ap (λ i. begins s (drop i self)) at_ ∙ match_at n h ∙ sym here,
        )
    | inr before ↦ (
      (found n h).1,
      (found n h).2,
      no_match_before n h j lo (ground (arith, before)) ∙ sym before,
    )
  ]

  -- If `find` answers `npos`, no position of the piece from `pos` on matches.
  pub find-none :
      (j : ℕ) → find self s pos ≡ none → pos ≤ j → j ≤ length self → begins s (drop j self) ≡ false
  find-none j h lo hi = no_match h j lo hi

  pub find-within : (n : ℕ) → find self s pos ≡ some n → pos ≤ n
  find-within n h = (found n h).1

-- The search for one character is the search for the text of that character.
find_from-search_from : (c : ℕ) (xs : List ℕ) → find_from c xs ≡ search_from (c ∷ []) xs
unfolding find_from search_from begins
find_from-search_from c [] = refl
find_from-search_from c (x ∷ xs) = ground (arith, find_from-search_from c xs)

find_from-le : (c : ℕ) (xs : List ℕ) → find_from c xs ≤ length xs
unfolding find_from
find_from-le c [] = omega arith
find_from-le c (x ∷ xs) = ground (arith, find_from-le c xs)

-- `find` of a character answers what `find` of the one-character text does.
pub find_char-find : (self : List ℕ) (c pos : ℕ) → find_char self c pos ≡ find self (c ∷ []) pos
unfolding find_char find
find_char-find self c pos = ground (
  arith,
  find_from-search_from c (drop pos self),
  find_from-le c (drop pos self),
  length-drop pos self,
)
