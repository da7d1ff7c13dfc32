-- ===== src/LogStream/Room.antt =====
-- The buffer of `format_number` in src/LogStream.cc is long enough.
use annety.Prelude.{
  ℕ, zero, suc, ◌+◌, ◌^◌, ◌/◌, ◌≤◌, ◌<◌, ◌≡◌, Bool, true, false, List, [], ◌∷◌, ◌++◌, ◌==◌, if_case,
  length, length-append, arith,
}
use annety.Prelude.Int.{ℤ, pos, negsuc}
use annety.LogStream.{digit, write_digits, reverse_onto, convert}

length-reverse_onto : (xs ys : List ℕ) → length (reverse_onto xs ys) ≡ length xs + length ys
length-reverse_onto [] ys = omega arith
length-reverse_onto (x ∷ xs) ys = omega (arith, length-reverse_onto xs (x ∷ ys))

length-write_digits :
    (negative : Bool) (k fuel i : ℕ)
    → i < 10 ^ suc k
    → length (write_digits digit 10 fuel negative i) ≤ suc k
unfolding write_digits
length-write_digits negative k zero i l = omega arith
length-write_digits negative zero (suc fuel) i l =
    let small : i / 10 ≡ 0 = omega (arith, l) in
    if_case (λ (cs : List ℕ). suc (length cs) ≤ 1) (i / 10 == 0) _ _ (λ e. omega arith)
      (λ e. absurd (ground (arith, e, small)))
length-write_digits negative (suc k) (suc fuel) i l =
    let less : i / 10 < 10 ^ suc k = omega (arith, l) in
    let rest = length-write_digits negative k fuel (i / 10) less in
    if_case (λ (cs : List ℕ). suc (length cs) ≤ suc (suc k)) (i / 10 == 0) _ _ (λ e. omega arith)
      (λ e. omega (arith, rest))

-- The size of a value.
abbrev pub size : ℤ → ℕ
size (pos n) = n
size (negsuc n) = suc n

-- Every value of 64 bits, with a sign or without one, takes at most 21 characters, so that
-- `kMaxNumericSize + 1`, which is 33, has room for it and the final NUL.
pub length-convert : (z : ℤ) → size z < 2 ^ 64 → length (convert z) ≤ 21
unfolding convert
length-convert (pos n) l =
    let digits = write_digits digit 10 (suc n) false n in
    omega (
      arith,
      length-reverse_onto digits [],
      length-write_digits false 19 (suc n) n (omega (arith, l)),
    )
length-convert (negsuc n) l =
    let digits = write_digits digit 10 (suc (suc n)) true (suc n) in
    omega (
      arith,
      length-reverse_onto (digits ++ (45 ∷ [])) [],
      length-append digits (45 ∷ []),
      length-write_digits true 19 (suc (suc n)) (suc n) (omega (arith, l)),
    )
