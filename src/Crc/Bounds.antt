-- ===== src/Crc/Bounds.antt =====
-- The checksums of include/Crc32c.h are 32-bit words.
use Prim.Native.Nat.{bit_and, bit_xor}
use annety.Prelude.{ℕ, ◌/◌, ◌^◌, ◌<◌, ◌≡◌, refl, true, List, [], ◌∷◌, arith, ltb, ltb→lt}
use annety.Prelude.Bits.{bit_xor-lt}
use annety.Crc.{
  char_word, table16, table256, short_step, long_step, short_loop, crc32_update, crc32_short,
  crc32_long,
}
use annety.Crc.Tables.{crc32_table16, crc32_table256}
use annety.Crc.Agree.{all_below, all_below_sound, nibble, low_byte}

table16-lt : (i : ℕ) → i < 16 → table16 i < 2 ^ 32
table16-lt i h = ltb→lt _ _ (all_below_sound 16 (λ i. ltb (table16 i) (2 ^ 32)) i check h)
  where
    check : all_below 16 (λ i. ltb (table16 i) (2 ^ 32)) ≡ true
    check = unfold all_below crc32_table16 in refl

table256-lt : (i : ℕ) → i < 256 → table256 i < 2 ^ 32
table256-lt i h = ltb→lt _ _ (all_below_sound 256 (λ i. ltb (table256 i) (2 ^ 32)) i check h)
  where
    check : all_below 256 (λ i. ltb (table256 i) (2 ^ 32)) ≡ true
    check = unfold all_below crc32_table256 in refl

nibble_step : (x crc : ℕ) → crc < 2 ^ 32 → bit_xor (table16 (bit_and x 15)) (crc / 2 ^ 4) < 2 ^ 32
nibble_step x crc h =
    bit_xor-lt 32 _ (crc / 2 ^ 4) (table16-lt (bit_and x 15) (omega (arith, nibble x)))
      (omega arith)

short_loop-lt : (crc : ℕ) (cs : List ℕ) → crc < 2 ^ 32 → short_loop crc cs < 2 ^ 32
unfolding short_loop short_step
short_loop-lt crc [] h = h
short_loop-lt crc (c ∷ cs) h =
    short_loop-lt (short_step crc c) cs (nibble_step _ _ (nibble_step _ crc h))

crc32_update-lt : (crc : ℕ) (cs : List ℕ) → crc < 2 ^ 32 → crc32_update crc cs < 2 ^ 32
unfolding crc32_update long_step
crc32_update-lt crc [] h = h
crc32_update-lt crc (c ∷ cs) h =
    let x : ℕ = bit_xor crc (char_word c) in
    crc32_update-lt (long_step crc c) cs (
      bit_xor-lt 32 _ (crc / 2 ^ 8) (table256-lt (bit_and x 255) (omega (arith, low_byte x)))
        (omega arith))

pub crc32_short-lt : (cs : List ℕ) → crc32_short cs < 2 ^ 32
unfolding crc32_short
crc32_short-lt cs = bit_xor-lt 32 _ _ (short_loop-lt 0xffff_ffff cs (omega arith)) (omega arith)

pub crc32_long-lt : (cs : List ℕ) → crc32_long cs < 2 ^ 32
unfolding crc32_long
crc32_long-lt cs = bit_xor-lt 32 _ _ (crc32_update-lt 0xffff_ffff cs (omega arith)) (omega arith)
