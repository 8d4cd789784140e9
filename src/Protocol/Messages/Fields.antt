-- ===== src/Protocol/Messages/Fields.antt =====
-- The checks and the binary layout of single fields.
use robotic_character_interf.Base.{
  ℕ, ◌-◌, ◌^◌, ◌%◌, ◌/◌, ◌<◌, ◌≤◌, ◌≡◌, refl, String, Option, none, some, [], ◌∷◌, arith,
}
use robotic_character_interf.Protocol.Messages.{
  after, pack_u32, of_word, unpack_u32, require_uint, require_int16, to_word,
}
use robotic_character_interf.Protocol.Checksum.Detection.{IsByte}
use robotic_character_interf.Protocol.Framing.{pack_u16, Result, ok, unpack_u16, Fault}
use robotic_character_interf.Base.Int.{negsuc, pos, ℤ}

pub ok-injective : {A : Type 0} {x y : A} → ok x ≡ ok y → x ≡ y
ok-injective e = cc

-- A guarded result succeeds only where the guard raises nothing.
pub after_ok :
    {A : Type 0} {o : Option Fault} {r : Result A} {x : A}
    → after o r ≡ ok x
    → (o ≡ none) × (r ≡ ok x)
after_ok {o = none} e = (refl, e)
after_ok {o = some fault} e = ground arith

-- What a passed `_require_uint` says.
pub require_uint_ok :
    (label : String) (value : ℤ) (bits minimum : ℕ)
    → require_uint label value bits minimum ≡ none
    → (n : ℕ) × (value ≡ pos n) × (minimum ≤ n) × (n ≤ 2 ^ bits - 1)
unfolding require_uint
require_uint_ok label (pos n) bits minimum e = (n, refl, ground arith, ground arith)
require_uint_ok label (negsuc n) bits minimum e = ground arith

pub require_uint_of_bounds :
    (label : String) (n bits minimum : ℕ)
    → minimum ≤ n
    → n ≤ 2 ^ bits - 1
    → require_uint label (pos n) bits minimum ≡ none
unfolding require_uint
require_uint_of_bounds label n bits minimum low high = ground arith

-- What a passed `_require_int16` says: two's complement loses nothing.
pub require_int16_ok :
    (label : String) (value : ℤ)
    → require_int16 label value ≡ none
    → (to_word value < 65536) × (of_word (to_word value) ≡ value)
unfolding require_int16
require_int16_ok label (pos n) e = (ground arith, ground arith)
require_int16_ok label (negsuc n) e = (ground arith, ground arith)

pub require_int16-of_word :
    (label : String) (w : ℕ) → w < 65536 → require_int16 label (of_word w) ≡ none
unfolding require_int16
require_int16-of_word label w h = ground arith

pub to_word-of_word : (w : ℕ) → w < 65536 → to_word (of_word w) ≡ w
to_word-of_word w h = ground arith

pub unpack_u16-pack : (n : ℕ) → unpack_u16 (n % 256) (n / 256) ≡ n
unpack_u16-pack n = omega arith

pub pack_u16-unpack : (a b : ℕ) → IsByte a → pack_u16 (unpack_u16 a b) ≡ a ∷ b ∷ []
pack_u16-unpack a b h = ground arith

pub unpack_u32-pack :
    (n : ℕ) → unpack_u32 (n % 256) (n / 256 % 256) (n / 65536 % 256) (n / 16777216) ≡ n
unpack_u32-pack n = omega arith

pub pack_u32-unpack :
    (a b c d : ℕ)
    → IsByte a
    → IsByte b
    → IsByte c
    → pack_u32 (unpack_u32 a b c d) ≡ a ∷ b ∷ c ∷ d ∷ []
pack_u32-unpack a b c d ha hb hc =
    let e0 : unpack_u32 a b c d % 256 ≡ a = omega arith in
    let e1 : unpack_u32 a b c d / 256 % 256 ≡ b = omega arith in
    let e2 : unpack_u32 a b c d / 65536 % 256 ≡ c = omega arith in
    let e3 : unpack_u32 a b c d / 16777216 ≡ d = omega arith in rw (e0, e1, e2, e3) refl
