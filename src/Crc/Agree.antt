-- ===== src/Crc/Agree.antt =====
-- The two loops of include/Crc32c.h compute one function, the CRC-32 of its definition.
use Prim.Native.Nat.{bit_and, bit_xor}
use annety.Prelude.{
  ℕ, zero, suc, ◌/◌, ◌%◌, ◌<◌, ◌≡◌, refl, sym, ap, ap₂, ◌∙◌, Bool, true, ◌&&◌, List, [], ◌∷◌, arith,
  ◌==◌, ==_iff, All,
}
use annety.Prelude.Bits.{bit_xor-div, bit_xor-mod, bit_and-mask, xor_assoc, bit_xor-lt}
use annety.Crc.{
  char_word, char_shift, table16, table256, short_step, long_step, short_loop, crc32_update,
  crc32_short, crc32_long,
}
use annety.Crc.Tables.{crc32_table16, crc32_table256}

-- A table checked entry by entry.
unfoldable pub all_below : ℕ → (ℕ → Bool) → Bool
all_below zero p = true
all_below (suc n) p = p n && all_below n p

pub all_below_sound : (n : ℕ) (p : ℕ → Bool) (i : ℕ) → all_below n p ≡ true → i < n → p i ≡ true
unfolding all_below
all_below_sound zero p i h lt = absurd (omega arith)
all_below_sound (suc n) p i h lt = ground (arith, all_below_sound n p i)

-- Two nibbles through the small table, against one byte through the large one.
abbrev two_nibbles : ℕ → ℕ
two_nibbles b = bit_xor (table16 (bit_xor (table16 (b % 16) % 16) (b / 16))) (table16 (b % 16) / 16)

tables_agree : (b : ℕ) → b < 256 → two_nibbles b ≡ table256 b
tables_agree b h = (==_iff _ _).0 (all_below_sound 256 (λ b. two_nibbles b == table256 b) b check h)
  where
    check : all_below 256 (λ b. two_nibbles b == table256 b) ≡ true
    check = unfold all_below crc32_table16 crc32_table256 in refl

pub nibble : (x : ℕ) → bit_and x 15 ≡ x % 16
nibble x = bit_and-mask 4 x

pub low_byte : (x : ℕ) → bit_and x 255 ≡ x % 256
low_byte x = bit_and-mask 8 x

module _ (crc c : ℕ) (hc : c < 256) where
  index : ℕ
  index = bit_xor (crc % 256) c

  index-lt : index < 256
  unfolding index
  index-lt = bit_xor-lt 8 (crc % 256) c (omega arith) hc

  index_low : index % 16 ≡ bit_xor (crc % 16) (c % 16)
  unfolding index
  index_low = bit_xor-mod 4 (crc % 256) c ∙ ap (λ t. bit_xor t (c % 16)) (omega arith)

  index_high : index / 16 ≡ bit_xor (crc / 16 % 16) (c / 16)
  unfolding index
  index_high = bit_xor-div 4 (crc % 256) c ∙ ap (λ t. bit_xor t (c / 16)) (omega arith)

  long_index : bit_and (bit_xor crc (char_word c)) 255 ≡ index
  unfolding index
  long_index =
      low_byte (bit_xor crc (char_word c))
      ∙ bit_xor-mod 8 crc (char_word c)
      ∙ ap (bit_xor (crc % 256)) (ground arith)

  first_index : bit_and (bit_xor crc (bit_and c 15)) 15 ≡ index % 16
  first_index =
      nibble (bit_xor crc (bit_and c 15))
      ∙ bit_xor-mod 4 crc (bit_and c 15)
      ∙ ap (bit_xor (crc % 16)) (omega (arith, nibble c))
      ∙ sym index_low

  crc' : ℕ
  crc' = bit_xor (table16 (index % 16)) (crc / 16)

  second_index :
      bit_and (bit_xor crc' (char_shift c)) 15 ≡ bit_xor (table16 (index % 16) % 16) (index / 16)
  unfolding crc'
  second_index =
      nibble (bit_xor crc' (char_shift c))
      ∙ bit_xor-mod 4 crc' (char_shift c)
      ∙ ap₂ bit_xor (bit_xor-mod 4 (table16 (index % 16)) (crc / 16)) (ground arith)
      ∙ xor_assoc (table16 (index % 16) % 16) (crc / 16 % 16) (c / 16)
      ∙ ap (bit_xor (table16 (index % 16) % 16)) (sym index_high)

  crc'_shift : crc' / 16 ≡ bit_xor (table16 (index % 16) / 16) (crc / 256)
  unfolding crc'
  crc'_shift =
      bit_xor-div 4 (table16 (index % 16)) (crc / 16)
      ∙ ap (bit_xor (table16 (index % 16) / 16)) (omega arith)

  pub step_agree : short_step crc c ≡ long_step crc c
  unfolding short_step long_step crc'
  step_agree =
      ap (λ t. bit_xor (table16 (bit_and (bit_xor t (char_shift c)) 15)) (t / 16))
        (ap (λ i. bit_xor (table16 i) (crc / 16)) first_index)
      ∙ ap₂ (λ i t. bit_xor (table16 i) t) second_index crc'_shift
      ∙ sym (
          xor_assoc (table16 (bit_xor (table16 (index % 16) % 16) (index / 16)))
            (table16 (index % 16) / 16) (crc / 256))
      ∙ ap (λ t. bit_xor t (crc / 256)) (tables_agree index index-lt)
      ∙ sym (ap (λ i. bit_xor (table256 i) (crc / 256)) long_index)

loops_agree :
    (crc : ℕ) (cs : List ℕ) → All (λ c. c < 256) cs → short_loop crc cs ≡ crc32_update crc cs
unfolding short_loop crc32_update
loops_agree crc [] h = refl
loops_agree crc (c ∷ cs) h =
    ap (λ t. short_loop t cs) (step_agree crc c h.0) ∙ loops_agree (long_step crc c) cs h.1

-- On every byte sequence `crc32_short` and `crc32_long` return the same checksum, though one looks
-- nibbles up and the other bytes, and both read the bytes as signed.
pub crc32_short-crc32_long : (cs : List ℕ) → All (λ c. c < 256) cs → crc32_short cs ≡ crc32_long cs
unfolding crc32_short crc32_long
crc32_short-crc32_long cs h = ap (λ t. bit_xor t 0xffff_ffff) (loops_agree 0xffff_ffff cs h)
