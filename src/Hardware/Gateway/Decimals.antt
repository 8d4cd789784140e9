-- ===== src/Hardware/Gateway/Decimals.antt =====
-- rci/hardware/robot_gateway.py: `_exact_protocol_integer`. A decimal number is a whole number and
-- a power of ten, as `str` prints a float: `Decimal(str(value))` is the parameter `decimal_of`,
-- whose `none` is the error of the conversion. Of at most seventeen digits, times 100, no product
-- is rounded.
use native.Mathlib.Nat.{div-add-mod'}
use robotic_character_interf.Base.{
  ◌∙◌, refl, ap, subst, arith, arith, ℕ, zero, suc, ◌*◌, ◌/◌, ◌%◌, ◌^◌, ◌≡◌, true, not, ◌&&◌,
  Option, none, some, [], ◌∷◌, ◌++◌, ◌==◌, if◌then◌else◌,
}
use robotic_character_interf.Base.Float.{Float}
use robotic_character_interf.Base.Int.{ℤ, pos, negsuc, leb_ℤ}
use robotic_character_interf.Base.Message.{Message, lit, int}
use robotic_character_interf.Hardware.Gateway.{
  GatewayResult, returns, raises, gateway_protocol_error,
}

pub data Decimal : Type 0 where
  not_finite : Decimal
  whole : ℤ → ℕ → Decimal
  fraction : ℤ → ℕ → Decimal

abbrev pub magnitude : ℤ → ℕ
magnitude (pos n) = n
magnitude (negsuc n) = suc n

abbrev minus : ℕ → ℤ
minus zero = pos 0
minus (suc n) = negsuc n

-- The number of the given size and of the sign of the other.
abbrev pub with_sign : ℤ → ℕ → ℤ
with_sign (pos m) n = pos n
with_sign (negsuc m) n = minus n

-- `scaled`, if it is its own `to_integral_value()`: it is a whole number.
unfoldable pub scaled_integer : Decimal → ℕ → Option ℤ
scaled_integer not_finite scale = none
scaled_integer (whole m e) scale = some (with_sign m (magnitude m * scale * 10 ^ e))
scaled_integer (fraction m e) scale =
    if magnitude m * scale % 10 ^ e == 0
    then some (with_sign m (magnitude m * scale / 10 ^ e))
    else none

abbrev pub int_text : ℤ → Message
int_text (pos n) = int n ∷ []
int_text (negsuc n) = lit "-" ∷ int (suc n) ∷ []

abbrev pub in_range : Message → ℤ → ℤ → Option ℤ → ℕ → GatewayResult ℤ
in_range label minimum maximum none scale = raises (
    gateway_protocol_error
      (label ++ lit " is not exactly representable at protocol scale " ∷ int scale ∷ []))
in_range label minimum maximum (some result) scale =
    if not (leb_ℤ minimum result && leb_ℤ result maximum)
    then raises (
        gateway_protocol_error (
          label
          ++ lit " encoded value must be in ["
            ∷ (int_text minimum ++ lit ", " ∷ (int_text maximum ++ lit "]" ∷ []))))
    else returns result

abbrev pub decimal_integer : Message → Option Decimal → ℕ → ℤ → ℤ → GatewayResult ℤ
decimal_integer label none scale minimum maximum =
    raises (gateway_protocol_error (label ++ lit " is not numeric" ∷ []))
decimal_integer label (some not_finite) scale minimum maximum =
    raises (gateway_protocol_error (label ++ lit " must be finite" ∷ []))
decimal_integer label (some (whole m e)) scale minimum maximum =
    in_range label minimum maximum (scaled_integer (whole m e) scale) scale
decimal_integer label (some (fraction m e)) scale minimum maximum =
    in_range label minimum maximum (scaled_integer (fraction m e) scale) scale

unfoldable pub exact_protocol_integer :
    (Float → Option Decimal) → Message → Float → ℕ → ℤ → ℤ → GatewayResult ℤ
unfolding scaled_integer
exact_protocol_integer decimal_of label value scale minimum maximum =
    decimal_integer label (decimal_of value) scale minimum maximum

-- The integer is the number, times the scale.
abbrev pub IsScaled : Decimal → ℕ → ℤ → Type 0
IsScaled not_finite scale z = ⊥
IsScaled (whole m e) scale z = z ≡ with_sign m (magnitude m * scale * 10 ^ e)
IsScaled (fraction m e) scale z =
    with_sign z (magnitude z * 10 ^ e) ≡ with_sign m (magnitude m * scale)

pub record IsExact (decimal_of : Float → Option Decimal) (value : Float) (scale : ℕ)
    (minimum maximum z : ℤ) : Type 0 where
  pub decimal : Decimal
  pub read : decimal_of value ≡ some decimal
  pub scaled : IsScaled decimal scale z
  pub low : leb_ℤ minimum z ≡ true
  pub high : leb_ℤ z maximum ≡ true

in_range-bounds :
    (label : Message) (minimum maximum : ℤ) (o : Option ℤ) (scale : ℕ) (z : ℤ)
    → in_range label minimum maximum o scale ≡ returns z
    → (o ≡ some z) × (leb_ℤ minimum z ≡ true) × (leb_ℤ z maximum ≡ true)
in_range-bounds label minimum maximum none scale z h = absurd (ground arith)
in_range-bounds label minimum maximum (some r) scale z h =
    (ground arith, ground arith, ground arith)

scaled_integer-whole :
    (m : ℤ) (e scale : ℕ) (z : ℤ)
    → scaled_integer (whole m e) scale ≡ some z
    → IsScaled (whole m e) scale z
unfolding scaled_integer
scaled_integer-whole m e scale z h = ground arith

signed_product :
    (m : ℤ) (q d n : ℕ)
    → q * d ≡ n
    → with_sign (with_sign m q) (magnitude (with_sign m q) * d) ≡ with_sign m n
signed_product (pos m) q d n h = ap (λ k. pos k) h
signed_product (negsuc m) Prim.Native.Nat.zero d n h =
    let none_left : 0 * d ≡ 0 = omega arith in
    let same : 0 ≡ n = omega (arith, h) in ap (λ k. pos k) none_left ∙ ap minus same
signed_product (negsuc m) (Prim.Native.Nat.suc q) d n h = ap minus h

divided : (n d : ℕ) → n % d ≡ 0 → n / d * d ≡ n
divided n d h = omega (arith, div-add-mod' n d, h)

scaled_integer-divides :
    (m : ℤ) (e scale : ℕ) (z : ℤ)
    → scaled_integer (fraction m e) scale ≡ some z
    → (magnitude m * scale % 10 ^ e ≡ 0) × (with_sign m (magnitude m * scale / 10 ^ e) ≡ z)
unfolding scaled_integer
scaled_integer-divides m e scale z h = (ground arith, ground arith)

scaled_integer-fraction :
    (m : ℤ) (e scale : ℕ) (z : ℤ)
    → scaled_integer (fraction m e) scale ≡ some z
    → IsScaled (fraction m e) scale z
scaled_integer-fraction m e scale z h =
    let (divides, same) = scaled_integer-divides m e scale z h in
    subst (IsScaled (fraction m e) scale) same (
      signed_product m (magnitude m * scale / 10 ^ e) (10 ^ e) (magnitude m * scale)
        (divided (magnitude m * scale) (10 ^ e) divides))

IsExact-in_range :
    (decimal_of : Float → Option Decimal) (label : Message) (value : Float) (d : Decimal)
    (scale : ℕ) (minimum maximum z : ℤ)
    → decimal_of value ≡ some d
    → ((y : ℤ) → scaled_integer d scale ≡ some y → IsScaled d scale y)
    → in_range label minimum maximum (scaled_integer d scale) scale ≡ returns z
    → IsExact decimal_of value scale minimum maximum z
IsExact-in_range decimal_of label value d scale minimum maximum z e sound h =
    let (some_z, low, high) =
      in_range-bounds label minimum maximum (scaled_integer d scale) scale z h in
    record { decimal = d; read = e; scaled = sound z some_z; low = low; high = high }

decimal_integer-IsExact :
    (decimal_of : Float → Option Decimal) (label : Message) (value : Float) (o : Option Decimal)
    (scale : ℕ) (minimum maximum z : ℤ)
    → decimal_of value ≡ o
    → decimal_integer label o scale minimum maximum ≡ returns z
    → IsExact decimal_of value scale minimum maximum z
decimal_integer-IsExact decimal_of label value none scale minimum maximum z e h =
    absurd (ground arith)
decimal_integer-IsExact decimal_of label value (some not_finite) scale minimum maximum z e h =
    absurd (ground arith)
decimal_integer-IsExact decimal_of label value (some (whole m k)) scale minimum maximum z e h =
    IsExact-in_range decimal_of label value (whole m k) scale minimum maximum z e
      (scaled_integer-whole m k scale) h
decimal_integer-IsExact decimal_of label value (some (fraction m k)) scale minimum maximum z e h =
    IsExact-in_range decimal_of label value (fraction m k) scale minimum maximum z e
      (scaled_integer-fraction m k scale) h

pub exact_protocol_integer-IsExact :
    (decimal_of : Float → Option Decimal) (label : Message) (value : Float) (scale : ℕ)
    (minimum maximum z : ℤ)
    → exact_protocol_integer decimal_of label value scale minimum maximum ≡ returns z
    → IsExact decimal_of value scale minimum maximum z
unfolding exact_protocol_integer
exact_protocol_integer-IsExact decimal_of label value scale minimum maximum z h =
    decimal_integer-IsExact decimal_of label value (decimal_of value) scale minimum maximum z refl h
