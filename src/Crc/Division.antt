-- ===== src/Crc/Division.antt =====
-- The definition of CRC-32, one bit at a time, and the byte table of include/Crc32c.h against it.
use Prim.Native.Nat.{bit_xor, differ}
use annety.Prelude.{
  ℕ, zero, suc, ◌*◌, ◌/◌, ◌%◌, ◌^◌, ◌<◌, ◌≡◌, refl, sym, ap, ap₂, ◌∙◌, inl, inr, true, List, [],
  ◌∷◌, arith, if◌then◌else◌, ◌==◌, ==_iff, All, Bool-cases,
}
use annety.Prelude.Bits.{
  bit_xor-div, bit_xor-mod, bit_xor-half, bit_xor-parity, xor-zero, xor_comm, xor_exchange,
  xor_fields, two-pow-suc,
}
use annety.Crc.{char_word, table256, long_step, crc32_update, crc32_long}
use annety.Crc.Tables.{crc32_table256}
use annety.Crc.Agree.{all_below, all_below_sound, low_byte}

-- The generator polynomial, with the highest power in the lowest bit.
abbrev pub generator : ℕ
generator = 0xedb8_8320

-- One step of the division: shift, and subtract the generator if a one went out.
pub divide_bit : ℕ → ℕ
divide_bit r = if r % 2 == 1 then bit_xor (r / 2) generator else r / 2

pub divide_bits : ℕ → ℕ → ℕ
divide_bits zero r = r
divide_bits (suc n) r = divide_bits n (divide_bit r)

pub divide_bytes : ℕ → List ℕ → ℕ
unfolding divide_bits divide_bit
divide_bytes r [] = r
divide_bytes r (c ∷ cs) = divide_bytes (divide_bits 8 (bit_xor r c)) cs

pub checksum : List ℕ → ℕ
unfolding divide_bytes
checksum cs = bit_xor (divide_bytes 0xffff_ffff cs) 0xffff_ffff

-- What a bit that goes out subtracts.
out : ℕ → ℕ
out zero = 0
out (suc p) = generator

out-xor : (p q : ℕ) → p < 2 → q < 2 → out (differ p q) ≡ bit_xor (out p) (out q)
unfolding out
out-xor zero zero hp hq = refl
out-xor zero (suc q) hp hq = refl
out-xor (suc zero) zero hp hq = refl
out-xor (suc zero) (suc zero) hp hq = refl
out-xor (suc zero) (suc (suc q)) hp hq = absurd (omega arith)
out-xor (suc (suc p)) q hp hq = absurd (omega arith)

divide_bit_lem : (r : ℕ) → divide_bit r ≡ bit_xor (r / 2) (out (r % 2))
unfolding divide_bit out
divide_bit_lem r = elim (Bool-cases (r % 2 == 1)) [
  | inl odd ↦ rw odd (ap (λ p. bit_xor (r / 2) (out p)) (sym ((==_iff (r % 2) 1).0 odd)))
  | inr even ↦
      let e : r % 2 ≡ 0 = ground arith in
      rw even (sym (ap (λ p. bit_xor (r / 2) (out p)) e ∙ xor-zero (r / 2)))
]

-- The step goes through `^`.
divide_bit-xor : (a b : ℕ) → divide_bit (bit_xor a b) ≡ bit_xor (divide_bit a) (divide_bit b)
divide_bit-xor a b =
    divide_bit_lem (bit_xor a b)
    ∙ ap₂ bit_xor (bit_xor-half a b)
        (ap out (bit_xor-parity a b) ∙ out-xor (a % 2) (b % 2) (omega arith) (omega arith))
    ∙ xor_exchange (a / 2) (b / 2) (out (a % 2)) (out (b % 2))
    ∙ sym (ap₂ bit_xor (divide_bit_lem a) (divide_bit_lem b))

divide_bits-xor :
    (n a b : ℕ) → divide_bits n (bit_xor a b) ≡ bit_xor (divide_bits n a) (divide_bits n b)
unfolding divide_bits
divide_bits-xor zero a b = refl
divide_bits-xor (suc n) a b =
    ap (divide_bits n) (divide_bit-xor a b) ∙ divide_bits-xor n (divide_bit a) (divide_bit b)

divide_even : (n a : ℕ) → divide_bit (a * 2 ^ suc n) ≡ a * 2 ^ n
unfolding divide_bit
divide_even n a = ground (arith, ap (λ t. a * t) (two-pow-suc n))

-- A number whose low bits are zeros is only shifted.
divide_bits-shift : (n a : ℕ) → divide_bits n (a * 2 ^ n) ≡ a
unfolding divide_bits
divide_bits-shift zero a = omega arith
divide_bits-shift (suc n) a = ap (divide_bits n) (divide_even n a) ∙ divide_bits-shift n a

table_divides : (b : ℕ) → b < 256 → divide_bits 8 b ≡ table256 b
table_divides b h =
    (==_iff _ _).0 (all_below_sound 256 (λ b. divide_bits 8 b == table256 b) b check h)
  where
    check : all_below 256 (λ b. divide_bits 8 b == table256 b) ≡ true
    check = unfold all_below crc32_table256 divide_bits divide_bit in refl

-- Eight steps look the low byte up and shift the rest.
divide_byte : (x : ℕ) → divide_bits 8 x ≡ bit_xor (table256 (x % 256)) (x / 256)
divide_byte x =
    ap (divide_bits 8) (omega (arith, xor_fields 8 (x / 256) (x % 256)))
    ∙ divide_bits-xor 8 (x / 256 * 256) (x % 256)
    ∙ ap₂ bit_xor (divide_bits-shift 8 (x / 256)) (table_divides (x % 256) (omega arith))
    ∙ xor_comm (x / 256) (table256 (x % 256))

long_step_divides : (crc c : ℕ) → c < 256 → long_step crc c ≡ divide_bits 8 (bit_xor crc c)
unfolding long_step
long_step_divides crc c h =
    ap₂ (λ i t. bit_xor (table256 i) t)
      (low_byte (bit_xor crc (char_word c))
        ∙ bit_xor-mod 8 crc (char_word c)
        ∙ ap (bit_xor (crc % 256)) (ground arith)
        ∙ sym (bit_xor-mod 8 crc c))
      (sym (bit_xor-div 8 crc c ∙ ap (bit_xor (crc / 256)) (omega arith) ∙ xor-zero (crc / 256)))
    ∙ sym (divide_byte (bit_xor crc c))

-- From any register `crc32_update` on bytes is the division, bit by bit.
pub crc32_update-divide_bytes :
    (crc : ℕ) (cs : List ℕ) → All (λ c. c < 256) cs → crc32_update crc cs ≡ divide_bytes crc cs
unfolding crc32_update divide_bytes
crc32_update-divide_bytes crc [] h = refl
crc32_update-divide_bytes crc (c ∷ cs) h =
    ap (λ t. crc32_update t cs) (long_step_divides crc c h.0)
    ∙ crc32_update-divide_bytes (divide_bits 8 (bit_xor crc c)) cs h.1

-- On every byte sequence the checksum of the tables is the remainder of the division by the
-- generator 0xedb88320, taken bit by bit from an all-ones register and complemented.
pub crc32_long-checksum : (cs : List ℕ) → All (λ c. c < 256) cs → crc32_long cs ≡ checksum cs
unfolding crc32_long checksum
crc32_long-checksum cs h =
    ap (λ t. bit_xor t 0xffff_ffff) (crc32_update-divide_bytes 0xffff_ffff cs h)
