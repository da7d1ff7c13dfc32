-- ===== src/Crc.antt =====
-- include/Crc32c.h and src/Crc32c.cc: the checksum of the length header codec, over a table of
-- nibbles or a table of bytes. A `char` is a byte below 256 of a signed type, as on the targets of
-- the build: in `int` arithmetic a byte from 128 on stands for itself less 256, and its conversion
-- to `uint32_t` wraps.
pub mod Tables
pub mod Agree
pub mod Division
pub mod Bounds
pub mod Tests
use Prim.Native.Nat.{bit_and, bit_xor}
use annety.Prelude.{ℕ, ◌+◌, ◌-◌, ◌/◌, ◌^◌, List, [], ◌∷◌, ltb, if◌then◌else◌, get_or}
use Tables.{crc32_table16, crc32_table256}

-- `static_cast<uint32_t>` of a `char`, and of a `char` shifted right by 4.
abbrev pub char_word : ℕ → ℕ
char_word c = if ltb c 128 then c else c + (2 ^ 32 - 256)

abbrev pub char_shift : ℕ → ℕ
char_shift c = if ltb c 128 then c / 16 else c / 16 + (2 ^ 32 - 16)

abbrev pub table16 : ℕ → ℕ
table16 i = get_or crc32_table16 i 0

abbrev pub table256 : ℕ → ℕ
table256 i = get_or crc32_table256 i 0

-- The bodies of the two loops.
pub short_step : ℕ → ℕ → ℕ
short_step crc c =
    let crc' = bit_xor (table16 (bit_and (bit_xor crc (bit_and c 15)) 15)) (crc / 2 ^ 4) in
    bit_xor (table16 (bit_and (bit_xor crc' (char_shift c)) 15)) (crc' / 2 ^ 4)

pub long_step : ℕ → ℕ → ℕ
long_step crc c = bit_xor (table256 (bit_and (bit_xor crc (char_word c)) 255)) (crc / 2 ^ 8)

pub short_loop : ℕ → List ℕ → ℕ
short_loop crc [] = crc
short_loop crc (c ∷ cs) = short_loop (short_step crc c) cs

-- The same loop stands in `crc32_long` and `crc32_update`.
pub crc32_update : ℕ → List ℕ → ℕ
crc32_update crc [] = crc
crc32_update crc (c ∷ cs) = crc32_update (long_step crc c) cs

unfoldable pub crc32_short : List ℕ → ℕ
unfolding short_loop short_step crc32_table16
crc32_short cs = bit_xor (short_loop 0xffff_ffff cs) 0xffff_ffff

unfoldable pub crc32_long : List ℕ → ℕ
unfolding crc32_update long_step crc32_table256
crc32_long cs = bit_xor (crc32_update 0xffff_ffff cs) 0xffff_ffff
