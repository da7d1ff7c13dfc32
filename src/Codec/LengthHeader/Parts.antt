-- ===== src/Codec/LengthHeader/Parts.antt =====
-- The parts of a frame of include/codec/LengthHeaderCodec.h, and the limits of the codec.
use annety.Prelude.{
  ℕ, zero, suc, ◌+◌, ◌-◌, ◌^◌, ◌≤◌, ◌<◌, ◌≡◌, refl, sym, subst, inl, inr, Bool, true, false, List,
  [], ◌++◌, arith, length, Bool-cases, length-append,
}
use annety.Prelude.Int.{ℤ, pos, negsuc, ltb_ℤ, ◌+ℤ◌, ◌-ℤ◌}
use annety.Buffer.{ByteBuffer, IsValid, to_string}
use annety.Buffer.Refine.{Shows}
use annety.Net.{to_unsigned, InRange}
use annety.Net.Order.{Endian, to_be, length-to_be}
use annety.Net.Ints.{wire, append_int-Shows, append_int8-append_int, peek_int-wire, peek_int8-wire}
use annety.Crc.Bounds.{crc32_short-lt, crc32_long-lt}
use annety.Codec.LengthHeader.{
  LengthType, type8, type16, type32, type64, width, make, checksum_of, get_payload_length,
  set_buff_length, out_of_range,
}

pub checksum_of-lt : (n : ℤ) (cs : List ℕ) → checksum_of n cs < 2 ^ 32
unfolding checksum_of
checksum_of-lt n cs = elim (Bool-cases (ltb_ℤ (pos 60) n)) [
  | inl long ↦ rw long (crc32_long-lt cs)
  | inr short ↦ rw short (crc32_short-lt cs)
]

pub set_buff_length-Shows :
    (t : LengthType) (e : Endian) (x : ℤ) (b : ByteBuffer) (q : List ℕ)
    → Shows b q
    → Shows (set_buff_length t e x b) (q ++ wire (width t) x)
unfolding set_buff_length
set_buff_length-Shows type8 e x b q s =
    subst (λ r. Shows r (q ++ wire 1 x)) (sym (append_int8-append_int e b x))
      (append_int-Shows e 1 b q x s)
set_buff_length-Shows type16 e x b q s = append_int-Shows e 2 b q x s
set_buff_length-Shows type32 e x b q s = append_int-Shows e 4 b q x s
set_buff_length-Shows type64 e x b q s = append_int-Shows e 8 b q x s

pub get_payload_length-wire :
    (t : LengthType) (e : Endian) (b : ByteBuffer) (x : ℤ) (rest : List ℕ)
    → IsValid b
    → to_string b ≡ wire (width t) x ++ rest
    → InRange (width t) x
    → get_payload_length t e b ≡ x
unfolding get_payload_length
get_payload_length-wire type8 e b x rest v h r = peek_int8-wire b x rest v h e r
get_payload_length-wire type16 e b x rest v h r = peek_int-wire 2 b x rest v h e r
get_payload_length-wire type32 e b x rest v h r = peek_int-wire 4 b x rest v h e r
get_payload_length-wire type64 e b x rest v h r = peek_int-wire 8 b x rest v h e r

-- The bytes that the checksum adds to a frame.
abbrev pub overhead : Bool → ℕ
overhead true = 4
overhead false = 0

-- The checksum at the end of a frame.
abbrev pub trailer : Bool → List ℕ → List ℕ
trailer true p = to_be 4 (to_unsigned 4 (pos (checksum_of (pos (length p)) p)))
trailer false p = []

-- The frame of the payload `p`, byte by byte.
abbrev pub frame : LengthType → Bool → List ℕ → List ℕ
frame t guarded p = wire (width t) (pos (length p + overhead guarded)) ++ (p ++ trailer guarded p)

pub length-trailer : (guarded : Bool) (p : List ℕ) → length (trailer guarded p) ≡ overhead guarded
length-trailer true p = length-to_be 4 _
length-trailer false p = refl

pub length-frame :
    (t : LengthType) (guarded : Bool) (p : List ℕ)
    → length (frame t guarded p) ≡ width t + length p + overhead guarded
length-frame t guarded p = omega (
  arith,
  length-append (wire (width t) (pos (length p + overhead guarded))) (p ++ trailer guarded p),
  length-append p (trailer guarded p),
  length-to_be (width t) (to_unsigned (width t) (pos (length p + overhead guarded))),
  length-trailer guarded p,
)

-- The limit on the length field: none unless it is positive.
abbrev pub Allowed : ℤ → ℕ → Type 0
Allowed (pos zero) n = Unit {0}
Allowed (pos (suc m)) n = n ≤ suc m
Allowed (negsuc m) n = Unit {0}

pub out_of_range-Allowed :
    (t : LengthType) (guarded : Bool) (max : ℤ) (least n : ℕ)
    → least ≤ n
    → Allowed max n
    → out_of_range (make t guarded max) (pos least) (pos n) ≡ false
unfolding make
out_of_range-Allowed t guarded (pos zero) least n h a = ground arith
out_of_range-Allowed t guarded (pos (suc m)) least n h a = ground arith
out_of_range-Allowed t guarded (negsuc m) least n h a = ground arith

pub pos_add : (a b : ℕ) → pos a +ℤ pos b ≡ pos (a + b)
pos_add a b = unfold ◌+ℤ◌ in ground arith

pub pos_sub : (a b : ℕ) → b ≤ a → pos a -ℤ pos b ≡ pos (a - b)
pos_sub a b h = unfold ◌-ℤ◌ in ground arith
