-- ===== src/Crc/Tests.antt =====
-- Runs of include/Crc32c.h.
use annety.Prelude.{ℕ, ◌<◌, ◌≡◌, refl, List, [], ◌∷◌, All, arith}
use annety.Crc.{crc32_short, crc32_long}
use annety.Crc.Agree.{crc32_short-crc32_long}
use annety.Crc.Division.{checksum, crc32_long-checksum}

-- The check value of CRC-32: the checksum of the text "123456789".
abbrev digits : List ℕ
digits = 0x31 ∷ 0x32 ∷ 0x33 ∷ 0x34 ∷ 0x35 ∷ 0x36 ∷ 0x37 ∷ 0x38 ∷ 0x39 ∷ []

check_value : (crc32_short digits ≡ 0xcbf4_3926) × (crc32_long digits ≡ 0xcbf4_3926)
unfolding crc32_short crc32_long
check_value = (refl, refl)

digits-bytes : All (λ c. c < 256) digits
digits-bytes = (
  omega arith,
  (
    omega arith,
    (
      omega arith,
      (omega arith, (omega arith, (omega arith, (omega arith, (omega arith, (omega arith, tt)))))),
    ),
  ),
)

crc32_short-crc32_long_example : crc32_short digits ≡ crc32_long digits
crc32_short-crc32_long_example = crc32_short-crc32_long digits digits-bytes

crc32_long-checksum_example : crc32_long digits ≡ checksum digits
crc32_long-checksum_example = crc32_long-checksum digits digits-bytes
