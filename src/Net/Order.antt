-- ===== src/Net/Order.antt =====
-- include/ByteOrder.h: the bytes of a `w`-byte integer in the host's and in the network's order.
-- An unsigned integer is a number below 256 ^ w; the host's order is a parameter, since the build
-- picks the branch of ARCH_CPU_LITTLE_ENDIAN.
use mathlib.Core.List.{reverse, reverse-cons, reverse-reverse}
use native.Mathlib.Nat.{pow-suc}
use annety.Prelude.{
  ℕ, zero, suc, ◌+◌, ◌*◌, ◌/◌, ◌%◌, ◌^◌, ◌<◌, ◌≡◌, refl, sym, ap, ◌∙◌, List, [], ◌∷◌, arith, length,
  All, All-append, length-append,
}

pub data Endian : Type 0 where
  little big : Endian

-- The bytes of `x`, lowest first, and back.
pub to_le : ℕ → ℕ → List ℕ
to_le zero x = []
to_le (suc w) x = (x % 256) ∷ to_le w (x / 256)

pub from_le : List ℕ → ℕ
from_le [] = 0
from_le (c ∷ cs) = c + 256 * from_le cs

-- The representation of `x` in the host's memory, as `memcpy` reads and writes it.
pub store : Endian → ℕ → ℕ → List ℕ
unfolding to_le
store little w x = to_le w x
store big w x = reverse (to_le w x)

pub load : Endian → List ℕ → ℕ
unfolding from_le
load little cs = from_le cs
load big cs = from_le (reverse cs)

-- `__builtin_bswap16`, 32 and 64.
pub byte_swap : ℕ → ℕ → ℕ
unfolding to_le from_le
byte_swap w x = from_le (reverse (to_le w x))

pub host_to_net : Endian → ℕ → ℕ → ℕ
unfolding byte_swap
host_to_net little w x = byte_swap w x
host_to_net big w x = x

pub net_to_host : Endian → ℕ → ℕ → ℕ
unfolding byte_swap
net_to_host little w x = byte_swap w x
net_to_host big w x = x

abbrev pub IsByte : ℕ → Type 0
IsByte c = c < 256

-- Network order: the highest byte first.
pub to_be : ℕ → ℕ → List ℕ
unfolding to_le
to_be w x = reverse (to_le w x)

pub length-to_le : (w x : ℕ) → length (to_le w x) ≡ w
unfolding to_le
length-to_le zero x = refl
length-to_le (suc w) x = ap suc (length-to_le w (x / 256))

to_le-IsByte : (w x : ℕ) → All IsByte (to_le w x)
unfolding to_le
to_le-IsByte zero x = tt
to_le-IsByte (suc w) x = (omega arith, to_le-IsByte w (x / 256))

to_le-from_le : (cs : List ℕ) → All IsByte cs → to_le (length cs) (from_le cs) ≡ cs
unfolding to_le from_le
to_le-from_le [] h = refl
to_le-from_le (c ∷ cs) h =
    let low : (c + 256 * from_le cs) % 256 ≡ c = omega (arith, h.0) in
    let high : (c + 256 * from_le cs) / 256 ≡ from_le cs = omega (arith, h.0) in
    rw (low, high) (ap (◌∷◌ c) (to_le-from_le cs h.1))

from_le-to_le : (w x : ℕ) → x < 256 ^ w → from_le (to_le w x) ≡ x
unfolding to_le from_le
from_le-to_le zero x h = omega arith
from_le-to_le (suc w) x h = omega (arith, from_le-to_le w (x / 256) (omega (arith, pow-suc 256 w)))

pub length-reverse {ℓ} : {A : Type ℓ} (xs : List A) → length (reverse xs) ≡ length xs
length-reverse [] = refl
length-reverse (x ∷ xs) =
    omega
      (arith, ap length (reverse-cons x xs), length-append (reverse xs) (x ∷ []), length-reverse xs)

reverse-IsByte : (xs : List ℕ) → All IsByte xs → All IsByte (reverse xs)
reverse-IsByte [] h = tt
reverse-IsByte (x ∷ xs) h =
    rw (reverse-cons x xs)
      (All-append IsByte (reverse xs) (x ∷ []) (reverse-IsByte xs h.1) (h.0, tt))

pub length-to_be : (w x : ℕ) → length (to_be w x) ≡ w
unfolding to_be
length-to_be w x = length-reverse (to_le w x) ∙ length-to_le w x

pub to_be-IsByte : (w x : ℕ) → All IsByte (to_be w x)
unfolding to_be
to_be-IsByte w x = reverse-IsByte (to_le w x) (to_le-IsByte w x)

to_le-to_be : (w x : ℕ) → to_le w (from_le (to_be w x)) ≡ to_be w x
to_le-to_be w x =
    ap (λ k. to_le k (from_le (to_be w x))) (sym (length-to_be w x))
    ∙ to_le-from_le (to_be w x) (to_be-IsByte w x)

from_be-to_be : (w x : ℕ) → x < 256 ^ w → from_le (reverse (to_be w x)) ≡ x
unfolding to_be
from_be-to_be w x h = ap from_le (reverse-reverse (to_le w x)) ∙ from_le-to_le w x h

-- Whatever the host's order, storing the swapped value puts the highest byte first.
pub store-host_to_net : (e : Endian) (w x : ℕ) → store e w (host_to_net e w x) ≡ to_be w x
unfolding store host_to_net byte_swap to_be
store-host_to_net little w x = to_le-to_be w x
store-host_to_net big w x = refl

-- and reading it back gives the value.
pub net_to_host-load :
    (e : Endian) (w x : ℕ) → x < 256 ^ w → net_to_host e w (load e (to_be w x)) ≡ x
unfolding load net_to_host byte_swap
net_to_host-load little w x h =
    ap (λ cs. from_le (reverse cs)) (to_le-to_be w x) ∙ from_be-to_be w x h
net_to_host-load big w x h = from_be-to_be w x h

-- One byte needs no swap.
pub store_byte : (e : Endian) (x : ℕ) → store e 1 x ≡ to_be 1 x
unfolding store to_be
store_byte little x = refl
store_byte big x = refl

pub load_byte : (e : Endian) (x : ℕ) → x < 256 → load e (to_be 1 x) ≡ x
unfolding load to_be
load_byte little x h = omega arith
load_byte big x h = omega arith
