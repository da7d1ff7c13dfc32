-- ===== src/LogStream/Value.antt =====
-- What src/LogStream.cc writes is a decimal numeral that stands for the value.
use annety.Prelude.{
  ℕ, zero, suc, ◌+◌, ◌-◌, ◌*◌, ◌/◌, ◌%◌, ◌<◌, ◌≡◌, refl, sym, ap, ◌∙◌, Bool, true, false, ◌&&◌,
  Bool-cases, inl, inr, List, [], ◌∷◌, ◌++◌, ◌==◌, if_case, drop, arith, All, length, leb, ◌≤◌,
  subst,
}
use annety.Prelude.Int.{ℤ, pos, negsuc}
use annety.LogStream.{digit, write_digits, reverse_onto, convert}

-- The number that decimal digits stand for, the first one the highest.
abbrev pub read : ℕ → List ℕ → ℕ
read n [] = n
read n (c ∷ cs) = read (n * 10 + (c - 48)) cs

-- '0' to '9'.
abbrev pub IsDigit : ℕ → Type 0
IsDigit c = (48 ≤ c) × (c ≤ 57)

-- At least one character, all of them decimal digits, that stand for the number.
abbrev pub IsNumeral : ℕ → List ℕ → Type 0
IsNumeral n cs = (0 < length cs) × All IsDigit cs × (read 0 cs ≡ n)

-- A numeral alone, or a '-' and a numeral.
abbrev pub Reads : ℤ → List ℕ → Type 0
Reads (pos n) cs = IsNumeral n cs
Reads (negsuc n) cs = (cs ≡ 45 ∷ drop 1 cs) × IsNumeral (suc n) (drop 1 cs)

-- The number of digits with the lowest first.
abbrev value : List ℕ → ℕ
value [] = 0
value (c ∷ cs) = (c - 48) + 10 * value cs

read-reverse_onto : (xs ys : List ℕ) → read 0 (reverse_onto xs ys) ≡ read (value xs) ys
read-reverse_onto [] ys = refl
read-reverse_onto (x ∷ xs) ys = read-reverse_onto xs (x ∷ ys) ∙ ap (λ n. read n ys) (omega arith)

reverse_onto-append :
    (xs ys : List ℕ) (y : ℕ) → reverse_onto (xs ++ (y ∷ [])) ys ≡ y ∷ reverse_onto xs ys
reverse_onto-append [] ys y = refl
reverse_onto-append (x ∷ xs) ys y = reverse_onto-append xs (x ∷ ys) y

-- A test of all numbers below a bound.
abbrev every : ℕ → (ℕ → Bool) → Bool
every zero f = true
every (suc n) f = f n && every n f

every_below : (n d : ℕ) (f : ℕ → Bool) → every n f ≡ true → d < n → f d ≡ true
every_below zero d f h l = absurd (omega (arith, l))
every_below (suc n) d f h l = elim (Bool-cases (d == n)) [
  | inl last ↦
      let equal : d ≡ n = ground (arith, last) in
      let here : f n ≡ true = ground (arith, h) in ap f equal ∙ here
  | inr other ↦ every_below n d f (ground (arith, h)) (ground (arith, other, l))
]

digit_value : (negative : Bool) (d : ℕ) → d < 10 → digit negative d - 48 ≡ d
digit_value true d l = ground (arith, every_below 10 d (λ e. digit true e - 48 == e) refl l)
digit_value false d l = ground (arith, every_below 10 d (λ e. digit false e - 48 == e) refl l)

-- Both halves of `digits` are decimal digits.
digit-IsDigit : (negative : Bool) (d : ℕ) → d < 10 → IsDigit (digit negative d)
digit-IsDigit true d l =
    let tested = every_below 10 d (λ e. leb 48 (digit true e) && leb (digit true e) 57) refl l in
    (ground (arith, tested), ground (arith, tested))
digit-IsDigit false d l =
    let tested = every_below 10 d (λ e. leb 48 (digit false e) && leb (digit false e) 57) refl l in
    (ground (arith, tested), ground (arith, tested))

All-reverse_onto :
    (xs ys : List ℕ) → All IsDigit xs → All IsDigit ys → All IsDigit (reverse_onto xs ys)
All-reverse_onto [] ys h k = k
All-reverse_onto (x ∷ xs) ys h k = All-reverse_onto xs (x ∷ ys) h.1 (h.0, k)

length-reverse_onto : (xs ys : List ℕ) → length (reverse_onto xs ys) ≡ length xs + length ys
length-reverse_onto [] ys = omega arith
length-reverse_onto (x ∷ xs) ys = length-reverse_onto xs (x ∷ ys) ∙ omega arith

abbrev AreDigits : List ℕ → Type 0
AreDigits cs = (0 < length cs) × All IsDigit cs

write_digits-AreDigits :
    (negative : Bool) (fuel i : ℕ) → AreDigits (write_digits digit 10 (suc fuel) negative i)
unfolding write_digits
write_digits-AreDigits negative zero i =
    let one = digit-IsDigit negative (i % 10) (omega arith) in
    if_case (λ (cs : List ℕ). AreDigits (digit negative (i % 10) ∷ cs)) (i / 10 == 0) _ _
      (λ e. (omega arith, (one, tt))) (λ e. (omega arith, (one, tt)))
write_digits-AreDigits negative (suc fuel) i =
    let one = digit-IsDigit negative (i % 10) (omega arith) in
    if_case (λ (cs : List ℕ). AreDigits (digit negative (i % 10) ∷ cs)) (i / 10 == 0) _ _
      (λ e. (omega arith, (one, tt)))
      (λ e. (omega arith, (one, (write_digits-AreDigits negative fuel (i / 10)).1)))

value-write_digits :
    (negative : Bool) (fuel i : ℕ) → i < fuel → value (write_digits digit 10 fuel negative i) ≡ i
unfolding write_digits
value-write_digits negative zero i l = absurd (omega (arith, l))
value-write_digits negative (suc fuel) i l =
    let first = digit_value negative (i % 10) (omega arith) in
    if_case (λ (cs : List ℕ). (digit negative (i % 10) - 48) + 10 * value cs ≡ i) (i / 10 == 0) _ _
      (λ e. let none_left : i / 10 ≡ 0 = ground (arith, e) in omega (arith, first, none_left))
      (λ e.
        let left : 0 < i / 10 = ground (arith, e) in
        let rest = value-write_digits negative fuel (i / 10) (omega (arith, l, left)) in
        omega (arith, first, rest))

-- The digits, turned round, are a numeral.
reverse_onto-IsNumeral :
    (negative : Bool) (fuel i : ℕ)
    → i < suc fuel
    → IsNumeral i (reverse_onto (write_digits digit 10 (suc fuel) negative i) [])
reverse_onto-IsNumeral negative fuel i l =
    let cs = write_digits digit 10 (suc fuel) negative i in
    let are = write_digits-AreDigits negative fuel i in
    (
      omega (arith, length-reverse_onto cs [], are.0),
      All-reverse_onto cs [] are.1 tt,
      read-reverse_onto cs [] ∙ value-write_digits negative (suc fuel) i l,
    )

-- For every value, what `convert` writes is at least one decimal digit and nothing else, with a '-'
-- in front exactly when the value is negative, and the digits stand for its absolute value.
pub convert-Reads : (z : ℤ) → Reads z (convert z)
unfolding convert
convert-Reads (pos n) = reverse_onto-IsNumeral false n n (omega arith)
convert-Reads (negsuc n) =
    let digits = write_digits digit 10 (suc (suc n)) true (suc n) in
    let signed = reverse_onto-append digits [] 45 in
    let numeral = reverse_onto-IsNumeral true (suc n) (suc n) (omega arith) in
    (
      signed ∙ sym (ap (λ cs. 45 ∷ drop 1 cs) signed),
      subst (IsNumeral (suc n)) (sym (ap (drop 1) signed)) numeral,
    )
