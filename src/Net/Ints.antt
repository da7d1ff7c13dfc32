-- ===== src/Net/Ints.antt =====
-- The integers of include/NetBuffer.h.
use annety.Prelude.{
  ℕ, ◌%◌, ◌^◌, ◌≤◌, ◌<◌, ◌≡◌, sym, ap, ◌∙◌, List, [], ◌++◌, arith, length, take, drop, take_front,
  drop_front, length-append, subst,
}
use native.Mathlib.Nat.{one-le-pow, mod-eq_of_lt}
use annety.Prelude.Int.{ℤ, pos, negsuc}
use annety.Buffer.{
  ByteBuffer, IsValid, initial_size, readable_bytes, has_read, read_at, to_string, append,
}
use annety.Buffer.Inv.{length-to_string}
use annety.Buffer.View.{to_string-has_read, read_at-take}
use annety.Buffer.Refine.{Shows, append-Shows, make-Shows}
use annety.Net.{
  empty, to_unsigned, to_signed, InRange, append_int, append_int8, peek_int, peek_int8, read_int,
}
use annety.Net.Order.{
  Endian, store, load, host_to_net, net_to_host, to_be, length-to_be, store-host_to_net,
  net_to_host-load, store_byte, load_byte,
}

to_unsigned-lt : (w : ℕ) (x : ℤ) → to_unsigned w x < 256 ^ w
to_unsigned-lt w (pos n) = omega (arith, one-le-pow w 256)
to_unsigned-lt w (negsuc n) = omega (arith, one-le-pow w 256)

pub to_signed-to_unsigned : (w : ℕ) (x : ℤ) → InRange w x → to_signed w (to_unsigned w x) ≡ x
to_signed-to_unsigned w (pos n) h =
    let e : n % 256 ^ w ≡ n = mod-eq_of_lt (omega arith) in rw e (ground arith)
to_signed-to_unsigned w (negsuc n) h =
    let e : n % 256 ^ w ≡ n = mod-eq_of_lt (omega arith) in rw e (ground arith)

-- The bytes on the wire of a `w`-byte integer.
abbrev pub wire : ℕ → ℤ → List ℕ
wire w x = to_be w (to_unsigned w x)

pub append_int-Shows :
    (e : Endian) (w : ℕ) (b : ByteBuffer) (q : List ℕ) (x : ℤ)
    → Shows b q
    → Shows (append_int e w b x) (q ++ wire w x)
unfolding append_int
append_int-Shows e w b q x s =
    subst (λ t. Shows (append_int e w b x) (q ++ t)) (store-host_to_net e w (to_unsigned w x))
      (append-Shows b q s (store e w (host_to_net e w (to_unsigned w x)))).0

module _ (w : ℕ) (b : ByteBuffer) (x : ℤ) (rest : List ℕ) (v : IsValid b)
    (h : to_string b ≡ wire w x ++ rest) where
  wire_readable : w ≤ readable_bytes b
  wire_readable = omega (
    arith,
    length-to_string b v,
    ap length h,
    length-append (wire w x) rest,
    length-to_be w (to_unsigned w x),
  )

  pub wire_front : read_at b w ≡ wire w x
  wire_front =
      read_at-take b w wire_readable
      ∙ ap (take w) h
      ∙ take_front w (wire w x) rest (length-to_be w (to_unsigned w x))

  pub has_read-wire : to_string (has_read b w) ≡ rest
  has_read-wire =
      to_string-has_read b w v
      ∙ ap (drop w) h
      ∙ drop_front w (wire w x) rest (length-to_be w (to_unsigned w x))

  pub peek_int_wraps : (e : Endian) → peek_int e w b ≡ to_signed w (to_unsigned w x)
  unfolding peek_int
  peek_int_wraps e =
      ap (λ cs. to_signed w (net_to_host e w (load e cs))) wire_front
      ∙ ap (to_signed w) (net_to_host-load e w (to_unsigned w x) (to_unsigned-lt w x))

  pub peek_int-wire : (e : Endian) → InRange w x → peek_int e w b ≡ x
  peek_int-wire e r = peek_int_wraps e ∙ to_signed-to_unsigned w x r

-- An integer in the range of `w` bytes that a host of either byte order appends to a buffer
-- without limit is read back by a host of either byte order: `read_int` on any valid buffer whose
-- bytes begin with the ones appended gives that integer, and leaves the bytes behind it.
pub read_int-append_int :
    (e e' : Endian) (w : ℕ) (b b' : ByteBuffer) (x : ℤ) (rest : List ℕ)
    → Shows b []
    → IsValid b'
    → InRange w x
    → to_string b' ≡ to_string (append_int e w b x) ++ rest
    → ((read_int e' w b').0 ≡ x) × (to_string (read_int e' w b').1 ≡ rest)
unfolding read_int
read_int-append_int e e' w b b' x rest s v r h =
    (peek_int-wire w b' x rest v h' e' r, has_read-wire w b' x rest v h')
  where
    h' : to_string b' ≡ wire w x ++ rest
    h' = h ∙ ap (λ t. t ++ rest) (append_int-Shows e w b [] x s).content

-- `append_int8` and `read_int8` do without the swap, to the same effect.
pub append_int8-append_int :
    (e : Endian) (b : ByteBuffer) (x : ℤ) → append_int8 e b x ≡ append_int e 1 b x
unfolding append_int8 append_int
append_int8-append_int e b x =
    ap (λ cs. (append b cs).0)
      (store_byte e (to_unsigned 1 x) ∙ sym (store-host_to_net e 1 (to_unsigned 1 x)))

pub peek_int8_wraps :
    (b : ByteBuffer) (x : ℤ) (rest : List ℕ)
    → IsValid b
    → to_string b ≡ wire 1 x ++ rest
    → (e : Endian) → peek_int8 e b ≡ to_signed 1 (to_unsigned 1 x)
unfolding peek_int8
peek_int8_wraps b x rest v h e =
    ap (λ cs. to_signed 1 (load e cs)) (wire_front 1 b x rest v h)
    ∙ ap (to_signed 1) (load_byte e (to_unsigned 1 x) (to_unsigned-lt 1 x))

pub peek_int8-wire :
    (b : ByteBuffer) (x : ℤ) (rest : List ℕ)
    → IsValid b
    → to_string b ≡ wire 1 x ++ rest
    → (e : Endian) → InRange 1 x
    → peek_int8 e b ≡ x
peek_int8-wire b x rest v h e r = peek_int8_wraps b x rest v h e ∙ to_signed-to_unsigned 1 x r

pub empty-Shows : Shows empty []
empty-Shows = unfold empty in make-Shows initial_size
