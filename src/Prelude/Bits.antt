-- ===== src/Prelude/Bits.antt =====
-- `^` and `&` on words: one equation for the lowest bit, and the laws that follow from it.
use Prim.Native.Nat.{
  ℕ, zero, suc, ◌+◌, ◌-◌, ◌*◌, ◌/◌, ◌%◌, ◌^◌, ◌≤◌, ◌<◌, min, differ, digits, bit_and, bit_xor,
  bit_and-bitwise, bit_xor-bitwise,
}
use mathlib.Core.Path.{◌≡◌, refl, ap, ap₂, ◌∙◌, sym}
use native.Mathlib.Nat.{
  pow-suc, one-le-pow, mod-eq_of_lt, mod-lt, mul-div_left, div-eq_of_lt, mul-mod_left, div-add-mod,
  div-div-eq-div-mul, mod-eq-sub-mul-div, div-mul-le_self,
}
use native.Mathlib.Omega.{arith}

module _ (z : ℕ → ℕ) (f : ℕ → ℕ → ℕ) where
  digits_enough : (n m a b : ℕ) → a ≤ n → a ≤ m → digits z f n a b ≡ digits z f m a b
  digits_enough zero zero a b p q = refl
  digits_enough zero (suc m) zero b p q = refl
  digits_enough zero (suc m) (suc a) b p q = absurd (omega arith)
  digits_enough (suc n) zero zero b p q = refl
  digits_enough (suc n) zero (suc a) b p q = absurd (omega arith)
  digits_enough (suc n) (suc m) zero b p q = refl
  digits_enough (suc n) (suc m) (suc a) b p q =
      ap (λ d. d * 2 + f (suc a % 2) (b % 2))
        (digits_enough n m (suc a / 2) (b / 2) (omega arith) (omega arith))

pub bit_xor_step : (a b : ℕ) → bit_xor a b ≡ bit_xor (a / 2) (b / 2) * 2 + differ (a % 2) (b % 2)
bit_xor_step zero b = omega (arith, bit_xor-bitwise 0 b, bit_xor-bitwise 0 (b / 2))
bit_xor_step (suc a) b = omega (
  arith,
  bit_xor-bitwise (suc a) b,
  bit_xor-bitwise (suc a / 2) (b / 2),
  digits_enough (λ y. y) differ a (suc a / 2) (suc a / 2) (b / 2) (omega arith) (omega arith),
)

bit_and_step : (a b : ℕ) → bit_and a b ≡ bit_and (a / 2) (b / 2) * 2 + min (a % 2) (b % 2)
bit_and_step zero b = omega (arith, bit_and-bitwise 0 b, bit_and-bitwise 0 (b / 2))
bit_and_step (suc a) b = omega (
  arith,
  bit_and-bitwise (suc a) b,
  bit_and-bitwise (suc a / 2) (b / 2),
  digits_enough (λ y. zero) min a (suc a / 2) (suc a / 2) (b / 2) (omega arith) (omega arith),
)

differ-lt_two : (p q : ℕ) → p < 2 → q < 2 → differ p q < 2
differ-lt_two zero q hp hq = hq
differ-lt_two (suc zero) zero hp hq = omega arith
differ-lt_two (suc zero) (suc q) hp hq = omega arith
differ-lt_two (suc (suc p)) q hp hq = absurd (omega arith)

bit_xor-pair :
    (x y p q : ℕ) → p < 2 → q < 2 → bit_xor (x * 2 + p) (y * 2 + q) ≡ bit_xor x y * 2 + differ p q
bit_xor-pair x y p q hp hq =
    let hx : (x * 2 + p) / 2 ≡ x = omega arith in
    let hy : (y * 2 + q) / 2 ≡ y = omega arith in
    let px : (x * 2 + p) % 2 ≡ p = omega arith in
    let py : (y * 2 + q) % 2 ≡ q = omega arith in
    bit_xor_step (x * 2 + p) (y * 2 + q)
    ∙ ap₂ ◌+◌ (ap (λ t. t * 2) (ap₂ bit_xor hx hy)) (ap₂ differ px py)

pub bit_xor-half : (a b : ℕ) → bit_xor a b / 2 ≡ bit_xor (a / 2) (b / 2)
bit_xor-half a b = omega (arith, bit_xor_step a b, differ-lt_two (a % 2) (b % 2))

pub bit_xor-parity : (a b : ℕ) → bit_xor a b % 2 ≡ differ (a % 2) (b % 2)
bit_xor-parity a b = omega (arith, bit_xor_step a b, differ-lt_two (a % 2) (b % 2))

div-pow-zero : (a : ℕ) → a / 2 ^ 0 ≡ a
div-pow-zero a = omega arith

mod-pow-zero : (a : ℕ) → a % 2 ^ 0 ≡ 0
mod-pow-zero a = omega arith

pub two-pow-suc : (k : ℕ) → 2 ^ suc k ≡ 2 * 2 ^ k
two-pow-suc k = omega (arith, pow-suc 2 k)

div-pow-suc : (k a : ℕ) → a / 2 ^ suc k ≡ a / 2 / 2 ^ k
div-pow-suc k a = ap (λ t. a / t) (two-pow-suc k) ∙ sym (div-div-eq-div-mul a 2 (2 ^ k))

mod-pow-suc : (k a : ℕ) → a % 2 ^ suc k ≡ a / 2 % 2 ^ k * 2 + a % 2
mod-pow-suc k a = omega (
  arith,
  mod-eq-sub-mul-div a (2 ^ suc k),
  mod-eq-sub-mul-div (a / 2) (2 ^ k),
  ap₂ ◌*◌ (two-pow-suc k) (div-pow-suc k a),
  div-mul-le_self (a / 2) (2 ^ k),
)

-- A shift to the right and a low part go through `^`.
pub bit_xor-div : (k a b : ℕ) → bit_xor a b / 2 ^ k ≡ bit_xor (a / 2 ^ k) (b / 2 ^ k)
bit_xor-div zero a b =
    div-pow-zero (bit_xor a b) ∙ sym (ap₂ bit_xor (div-pow-zero a) (div-pow-zero b))
bit_xor-div (suc k) a b =
    div-pow-suc k (bit_xor a b)
    ∙ ap (λ t. t / 2 ^ k) (bit_xor-half a b)
    ∙ bit_xor-div k (a / 2) (b / 2)
    ∙ sym (ap₂ bit_xor (div-pow-suc k a) (div-pow-suc k b))

pub bit_xor-mod : (k a b : ℕ) → bit_xor a b % 2 ^ k ≡ bit_xor (a % 2 ^ k) (b % 2 ^ k)
bit_xor-mod zero a b =
    mod-pow-zero (bit_xor a b) ∙ sym (ap₂ bit_xor (mod-pow-zero a) (mod-pow-zero b))
bit_xor-mod (suc k) a b =
    mod-pow-suc k (bit_xor a b)
    ∙ ap₂ (λ t u. t * 2 + u)
        (ap (λ t. t % 2 ^ k) (bit_xor-half a b) ∙ bit_xor-mod k (a / 2) (b / 2))
        (bit_xor-parity a b)
    ∙ sym (bit_xor-pair (a / 2 % 2 ^ k) (b / 2 % 2 ^ k) (a % 2) (b % 2) (omega arith) (omega arith))
    ∙ sym (ap₂ bit_xor (mod-pow-suc k a) (mod-pow-suc k b))

mask_half : (k : ℕ) → (2 ^ suc k - 1) / 2 ≡ 2 ^ k - 1
mask_half k = omega (arith, pow-suc 2 k, one-le-pow k 2 (omega arith))

mask_parity : (k : ℕ) → (2 ^ suc k - 1) % 2 ≡ 1
mask_parity k = omega (arith, pow-suc 2 k, one-le-pow k 2 (omega arith))

bit_and-zero_below : (n a : ℕ) → a ≤ n → bit_and a 0 ≡ 0
bit_and-zero_below n zero h = refl
bit_and-zero_below zero (suc a) h = absurd (omega arith)
bit_and-zero_below (suc n) (suc a) h =
    omega (arith, bit_and_step (suc a) 0, bit_and-zero_below n (suc a / 2) (omega arith))

-- The low mask of `k` bits.
pub bit_and-mask : (k a : ℕ) → bit_and a (2 ^ k - 1) ≡ a % 2 ^ k
bit_and-mask zero a = bit_and-zero_below a a (omega arith) ∙ sym (mod-pow-zero a)
bit_and-mask (suc k) a =
    bit_and_step a (2 ^ suc k - 1)
    ∙ ap₂ (λ t u. t * 2 + u) (ap (bit_and (a / 2)) (mask_half k) ∙ bit_and-mask k (a / 2))
        (ap (min (a % 2)) (mask_parity k) ∙ omega arith)
    ∙ sym (mod-pow-suc k a)

bits_assoc : (p q r : ℕ) → p < 2 → q < 2 → r < 2 → differ (differ p q) r ≡ differ p (differ q r)
bits_assoc zero q r hp hq hr = refl
bits_assoc (suc zero) zero r hp hq hr = refl
bits_assoc (suc zero) (suc zero) zero hp hq hr = refl
bits_assoc (suc zero) (suc zero) (suc zero) hp hq hr = refl
bits_assoc (suc zero) (suc zero) (suc (suc r)) hp hq hr = absurd (omega arith)
bits_assoc (suc zero) (suc (suc q)) r hp hq hr = absurd (omega arith)
bits_assoc (suc (suc p)) q r hp hq hr = absurd (omega arith)

xor_assoc_below :
    (n a b c : ℕ) → a ≤ n → b ≤ n → c ≤ n → bit_xor (bit_xor a b) c ≡ bit_xor a (bit_xor b c)
xor_assoc_below zero a b c ha hb hc = zeros a b c (omega arith) (omega arith) (omega arith)
  where
    zeros : (a b c : ℕ) → a ≡ 0 → b ≡ 0 → c ≡ 0 → bit_xor (bit_xor a b) c ≡ bit_xor a (bit_xor b c)
    zeros a b c p q r = rw (p, q, r) refl
xor_assoc_below (suc n) a b c ha hb hc =
    bit_xor_step (bit_xor a b) c
    ∙ ap₂ (λ t u. t * 2 + u)
        (ap (λ t. bit_xor t (c / 2)) (bit_xor-half a b)
          ∙ xor_assoc_below n (a / 2) (b / 2) (c / 2) (omega arith) (omega arith) (omega arith)
          ∙ ap (bit_xor (a / 2)) (sym (bit_xor-half b c)))
        (ap (λ t. differ t (c % 2)) (bit_xor-parity a b)
          ∙ bits_assoc (a % 2) (b % 2) (c % 2) (omega arith) (omega arith) (omega arith)
          ∙ ap (differ (a % 2)) (sym (bit_xor-parity b c)))
    ∙ sym (bit_xor_step a (bit_xor b c))

pub xor_assoc : (a b c : ℕ) → bit_xor (bit_xor a b) c ≡ bit_xor a (bit_xor b c)
xor_assoc a b c = xor_assoc_below (a + b + c) a b c (omega arith) (omega arith) (omega arith)

pub bit_xor-lt : (k a b : ℕ) → a < 2 ^ k → b < 2 ^ k → bit_xor a b < 2 ^ k
bit_xor-lt k a b ha hb =
    let e : bit_xor a b % 2 ^ k ≡ bit_xor a b =
      bit_xor-mod k a b ∙ ap₂ bit_xor (mod-eq_of_lt ha) (mod-eq_of_lt hb) in
    omega (arith, mod-lt (bit_xor a b) (one-le-pow k 2 (omega arith)))

bits_comm : (p q : ℕ) → p < 2 → q < 2 → differ p q ≡ differ q p
bits_comm zero zero hp hq = refl
bits_comm zero (suc q) hp hq = refl
bits_comm (suc p) zero hp hq = refl
bits_comm (suc zero) (suc zero) hp hq = refl
bits_comm (suc zero) (suc (suc q)) hp hq = absurd (omega arith)
bits_comm (suc (suc p)) (suc q) hp hq = absurd (omega arith)

xor_comm_below : (n a b : ℕ) → a ≤ n → b ≤ n → bit_xor a b ≡ bit_xor b a
xor_comm_below zero a b ha hb =
    let a0 : a ≡ 0 = omega arith in let b0 : b ≡ 0 = omega arith in rw (a0, b0) refl
xor_comm_below (suc n) a b ha hb =
    bit_xor_step a b
    ∙ ap₂ (λ t u. t * 2 + u) (xor_comm_below n (a / 2) (b / 2) (omega arith) (omega arith))
        (bits_comm (a % 2) (b % 2) (omega arith) (omega arith))
    ∙ sym (bit_xor_step b a)

pub xor_comm : (a b : ℕ) → bit_xor a b ≡ bit_xor b a
xor_comm a b = xor_comm_below (a + b) a b (omega arith) (omega arith)

pub zero-xor : (a : ℕ) → bit_xor 0 a ≡ a
zero-xor a = bit_xor-bitwise 0 a

pub xor-zero : (a : ℕ) → bit_xor a 0 ≡ a
xor-zero a = xor_comm a 0 ∙ zero-xor a

-- Pairs of operands can be exchanged.
pub xor_exchange :
    (a b c d : ℕ) → bit_xor (bit_xor a b) (bit_xor c d) ≡ bit_xor (bit_xor a c) (bit_xor b d)
xor_exchange a b c d =
    xor_assoc a b (bit_xor c d)
    ∙ ap (bit_xor a)
        (sym (xor_assoc b c d) ∙ ap (λ t. bit_xor t d) (xor_comm b c) ∙ xor_assoc c b d)
    ∙ sym (xor_assoc a c (bit_xor b d))

-- `^` of disjoint fields is their sum.
pub xor_fields : (k q r : ℕ) → r < 2 ^ k → bit_xor (q * 2 ^ k) r ≡ q * 2 ^ k + r
xor_fields k q r h =
    let p : 0 < 2 ^ k = one-le-pow k 2 (omega arith) in
    let high : bit_xor (q * 2 ^ k) r / 2 ^ k ≡ q =
      bit_xor-div k (q * 2 ^ k) r ∙ ap₂ bit_xor (mul-div_left q p) (div-eq_of_lt h) ∙ xor-zero q in
    let low : bit_xor (q * 2 ^ k) r % 2 ^ k ≡ r =
      bit_xor-mod k (q * 2 ^ k) r
      ∙ ap₂ bit_xor (mul-mod_left q (2 ^ k)) (mod-eq_of_lt h)
      ∙ zero-xor r in
    omega (arith, low, ap (λ t. t * 2 ^ k) high, div-add-mod (bit_xor (q * 2 ^ k) r) (2 ^ k))
