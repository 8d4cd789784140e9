-- ===== src/Protocol/Checksum/Detection.antt =====
-- rci/protocols/checksums.py: the range of the checksum, and the bytes that it tells apart.
use Prim.Native.Nat.{bit_xor}
use robotic_character_interf.Base.{
  ℕ, zero, suc, ◌+◌, ◌*◌, ◌/◌, ◌%◌, ◌^◌, ◌<◌, ◌≡◌, ◌≢◌, refl, sym, ap, ◌∙◌, true, ◌&&◌, List, [],
  ◌∷◌, ◌++◌, arith, ◌==◌, ltb, if◌then◌else◌,
}
use robotic_character_interf.Base.Lists.{All}
use robotic_character_interf.Base.Bits.{
  all_below, all_below_lem, bit_xor_cancel, bit_xor_comm, bit_xor-lt,
}
use robotic_character_interf.Protocol.Checksum.{
  crc_bit, crc_bits, crc_byte, crc_from, crc16_ccitt_false,
}

-- One turn backwards: the low bit of the result is the top bit that was shifted out.
abbrev unshift : ℕ → ℕ
unshift r = if r % 2 == 0 then r / 2 else bit_xor r 0x1021 / 2 + 0x8000

unshift_table : all_below 65536 (λ c. unshift (crc_bit c) == c && ltb (crc_bit c) 65536) ≡ true
unfolding all_below crc_bit
unshift_table = refl

crc_bit-unshift : (c : ℕ) → c < 65536 → (unshift (crc_bit c) ≡ c) × (crc_bit c < 65536)
crc_bit-unshift c h =
    let both =
      all_below_lem 65536 (λ c. unshift (crc_bit c) == c && ltb (crc_bit c) 65536) c unshift_table
        h in
    (ground arith, ground arith)

crc_bits-lt : (n c : ℕ) → c < 65536 → crc_bits n c < 65536
unfolding crc_bits
crc_bits-lt zero c h = h
crc_bits-lt (suc n) c h = crc_bits-lt n (crc_bit c) (crc_bit-unshift c h).1

crc_bit-injective : (c d : ℕ) → c < 65536 → d < 65536 → crc_bit c ≡ crc_bit d → c ≡ d
crc_bit-injective c d hc hd e =
    sym (crc_bit-unshift c hc).0 ∙ ap unshift e ∙ (crc_bit-unshift d hd).0

crc_bits-injective : (n c d : ℕ) → c < 65536 → d < 65536 → crc_bits n c ≡ crc_bits n d → c ≡ d
unfolding crc_bits
crc_bits-injective zero c d hc hd e = e
crc_bits-injective (suc n) c d hc hd e = crc_bit-injective c d hc hd (
    crc_bits-injective n (crc_bit c) (crc_bit d) (crc_bit-unshift c hc).1 (crc_bit-unshift d hd).1
      e)

abbrev pub IsByte : ℕ → Type 0
IsByte b = b < 256

crc_byte-lt : (c b : ℕ) → c < 65536 → IsByte b → crc_byte c b < 65536
unfolding crc_byte
crc_byte-lt c b hc hb = crc_bits-lt 8 _ (bit_xor-lt c (b * 2 ^ 8) hc (omega arith))

crc_from-lt : (c : ℕ) (bytes : List ℕ) → c < 65536 → All IsByte bytes → crc_from c bytes < 65536
unfolding crc_from
crc_from-lt c [] hc h = hc
crc_from-lt c (b ∷ bytes) hc h = crc_from-lt (crc_byte c b) bytes (crc_byte-lt c b hc h.0) h.1

pub crc16-lt : (bytes : List ℕ) → All IsByte bytes → crc16_ccitt_false bytes < 65536
unfolding crc16_ccitt_false
crc16-lt bytes h = crc_from-lt 0xffff bytes (omega arith) h

-- A byte that is combined into the register determines it, and the other way round.
crc_byte-injective_register :
    (c d b : ℕ) → c < 65536 → d < 65536 → IsByte b → crc_byte c b ≡ crc_byte d b → c ≡ d
unfolding crc_byte
crc_byte-injective_register c d b hc hd hb e =
    let shifted : b * 2 ^ 8 < 65536 = omega arith in
    let same = crc_bits-injective 8 _ _ (bit_xor-lt c _ hc shifted) (bit_xor-lt d _ hd shifted) e in
    sym (bit_xor_cancel c (b * 2 ^ 8))
    ∙ ap (λ t. bit_xor t (b * 2 ^ 8)) same
    ∙ bit_xor_cancel d (b * 2 ^ 8)

crc_from-injective :
    (c d : ℕ) (bytes : List ℕ)
    → c < 65536
    → d < 65536
    → All IsByte bytes
    → crc_from c bytes ≡ crc_from d bytes
    → c ≡ d
unfolding crc_from
crc_from-injective c d [] hc hd h e = e
crc_from-injective c d (b ∷ bytes) hc hd h e = crc_byte-injective_register c d b hc hd h.0 (
    crc_from-injective (crc_byte c b) (crc_byte d b) bytes (crc_byte-lt c b hc h.0)
      (crc_byte-lt d b hd h.0) h.1 e)

bit_xor-injective : (a x y : ℕ) → bit_xor a x ≡ bit_xor a y → x ≡ y
bit_xor-injective a x y e =
    sym (bit_xor_cancel x a)
    ∙ ap (λ t. bit_xor t a) (bit_xor_comm x a ∙ e ∙ bit_xor_comm a y)
    ∙ bit_xor_cancel y a

crc_byte-injective :
    (c x y : ℕ) → c < 65536 → IsByte x → IsByte y → crc_byte c x ≡ crc_byte c y → x ≡ y
unfolding crc_byte
crc_byte-injective c x y hc hx hy e =
    let wide : x * 2 ^ 8 < 65536 = omega arith in
    let wide' : y * 2 ^ 8 < 65536 = omega arith in
    let same = crc_bits-injective 8 _ _ (bit_xor-lt c _ hc wide) (bit_xor-lt c _ hc wide') e in
    let shifted = bit_xor-injective c (x * 2 ^ 8) (y * 2 ^ 8) same in omega arith

crc_from-append : (c : ℕ) (xs ys : List ℕ) → crc_from c (xs ++ ys) ≡ crc_from (crc_from c xs) ys
unfolding crc_from
crc_from-append c [] ys = refl
crc_from-append c (x ∷ xs) ys = crc_from-append (crc_byte c x) xs ys

-- The checksum determines any one byte from the others.
pub crc_determines_byte :
    (before after : List ℕ) (x y : ℕ)
    → All IsByte before
    → All IsByte after
    → IsByte x
    → IsByte y
    → crc16_ccitt_false (before ++ x ∷ after) ≡ crc16_ccitt_false (before ++ y ∷ after)
    → x ≡ y
unfolding crc16_ccitt_false
crc_determines_byte before after x y hb ha hx hy e =
    let c = crc_from 0xffff before in
    let hc : c < 65536 = crc_from-lt 0xffff before (omega arith) hb in
    let split = crc_from-append 0xffff before in
    let same : crc_from c (x ∷ after) ≡ crc_from c (y ∷ after) =
      sym (split (x ∷ after)) ∙ e ∙ split (y ∷ after) in
    crc_byte-injective c x y hc hx hy (
      crc_from-injective _ _ after (crc_byte-lt c x hc hx) (crc_byte-lt c y hc hy) ha
        (unfold crc_from in same))

-- Two byte strings that differ in exactly one byte have different checksums.
pub crc_detects_byte :
    (before after : List ℕ) (x y : ℕ)
    → All IsByte before
    → All IsByte after
    → IsByte x
    → IsByte y
    → x ≢ y
    → crc16_ccitt_false (before ++ x ∷ after) ≢ crc16_ccitt_false (before ++ y ∷ after)
crc_detects_byte before after x y hb ha hx hy differs e =
    differs (crc_determines_byte before after x y hb ha hx hy e)
