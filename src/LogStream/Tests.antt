-- ===== src/LogStream/Tests.antt =====
-- Numbers written by src/LogStream.cc.
use annety.Prelude.{◌≡◌, ◌≤◌, refl, [], ◌∷◌, length, arith}
use annety.Prelude.Int.{pos, negsuc}
use annety.LogStream.{convert, convert_hex}
use annety.LogStream.Value.{Reads, convert-Reads}
use annety.LogStream.Room.{length-convert}

-- -2019
convert-Reads_example : Reads (negsuc 2018) (convert (negsuc 2018))
convert-Reads_example = convert-Reads (negsuc 2018)

length-convert_example : length (convert (negsuc 2018)) ≤ 21
length-convert_example = length-convert (negsuc 2018) (omega arith)

convert_test : convert (negsuc 2018) ≡ 45 ∷ 50 ∷ 48 ∷ 49 ∷ 57 ∷ []
unfolding convert
convert_test = refl

zero_test : convert (pos 0) ≡ 48 ∷ []
unfolding convert
zero_test = refl

hex_test : convert_hex 255 ≡ 70 ∷ 70 ∷ []
unfolding convert_hex
hex_test = refl
