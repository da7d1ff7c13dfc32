-- ===== src/LogStream.antt =====
-- The conversions of integers in src/LogStream.cc. A signed value is an integer, whose remainders and
-- quotients C++ rounds towards 0; the buffer is the list of the characters written.
pub mod Value
pub mod Room
pub mod Tests
use annety.Prelude.{
  ℕ, zero, suc, ◌+◌, ◌-◌, ◌/◌, ◌%◌, Bool, true, false, List, [], ◌∷◌, ◌++◌, ◌==◌, if◌then◌else◌,
  get_or,
}
use annety.Prelude.Int.{ℤ, pos, negsuc}

-- `kDigitMaps` and `kDigitHexMaps`.
abbrev pub digit_maps : List ℕ
digit_maps =
    57 ∷ 56 ∷ 55 ∷ 54 ∷ 53 ∷ 52 ∷ 51 ∷ 50 ∷ 49 ∷ 48 ∷ 49 ∷ 50 ∷ 51 ∷ 52 ∷ 53 ∷ 54 ∷ 55 ∷ 56 ∷ 57
    ∷ []

abbrev pub digit_hex_maps : List ℕ
digit_hex_maps = 48 ∷ 49 ∷ 50 ∷ 51 ∷ 52 ∷ 53 ∷ 54 ∷ 55 ∷ 56 ∷ 57 ∷ 65 ∷ 66 ∷ 67 ∷ 68 ∷ 69 ∷ 70 ∷ []

-- `digits[lsd]`, where `digits` is in the middle of the map; `lsd` is `d`, or -d for a negative value.
abbrev pub digit : Bool → ℕ → ℕ
digit negative d = get_or digit_maps (if negative then 9 - d else 9 + d) 0

abbrev pub hex_digit : Bool → ℕ → ℕ
hex_digit negative d = get_or digit_hex_maps d 0

-- The do loop for the size `i` of what is left; `i + 1` rounds are enough.
pub write_digits : (Bool → ℕ → ℕ) → ℕ → ℕ → Bool → ℕ → List ℕ
write_digits map base zero negative i = []
write_digits map base (suc fuel) negative i =
    let rest = write_digits map base fuel negative (i / base) in
    map negative (i % base) ∷ (if i / base == 0 then [] else rest)

-- `std::reverse`.
abbrev pub reverse_onto : List ℕ → List ℕ → List ℕ
reverse_onto [] ys = ys
reverse_onto (x ∷ xs) ys = reverse_onto xs (x ∷ ys)

pub convert : ℤ → List ℕ
unfolding write_digits
convert (pos n) = reverse_onto (write_digits digit 10 (suc n) false n) []
convert (negsuc n) = reverse_onto (write_digits digit 10 (suc (suc n)) true (suc n) ++ (45 ∷ [])) []

-- `convert<uintptr_t>`.
pub convert_hex : ℕ → List ℕ
unfolding write_digits
convert_hex n = reverse_onto (write_digits hex_digit 16 (suc n) false n) []
