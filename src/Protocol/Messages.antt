-- ===== src/Protocol/Messages.antt =====
-- rci/protocols/messages.py: what the payload codecs share. The children model one message each.
pub mod Fields
pub mod Control
pub mod RoundTrip
pub mod Motion
pub mod MotionTrip
pub mod Glove
pub mod GloveTrip
pub mod Telemetry
pub mod TelemetryTrip
mod Tests
use robotic_character_interf.Base.{
  ℕ, zero, suc, ◌+◌, ◌-◌, ◌*◌, ◌/◌, ◌%◌, ◌^◌, Bool, true, false, not, ◌&&◌, String, Option, none,
  some, List, [], ◌∷◌, ltb, leb, if◌then◌else◌,
}
use robotic_character_interf.Protocol.Framing.{err, protocol_error, Result, Fault}
use robotic_character_interf.Base.Int.{negsuc, pos, leb_ℤ, ℤ}
use robotic_character_interf.Base.Message.{int, lit}

-- A check that raises before the rest runs.
abbrev pub after : {A : Type 0} → Option Fault → Result A → Result A
after none r = r
after (some fault) r = err fault

-- `_require_uint`
unfoldable pub require_uint : String → ℤ → ℕ → ℕ → Option Fault
require_uint label value bits minimum =
    let maximum = 2 ^ bits - 1 in
    if not (leb_ℤ (pos minimum) value && leb_ℤ value (pos maximum))
    then some (
        protocol_error
          (lit label ∷ lit " must be in [" ∷ int minimum ∷ lit ", " ∷ int maximum ∷ lit "]" ∷ []))
    else none

-- `_require_int16`
unfoldable pub require_int16 : String → ℤ → Option Fault
require_int16 label value =
    if not (leb_ℤ (negsuc 32767) value && leb_ℤ value (pos 32767))
    then some (protocol_error (lit label ∷ lit " must fit int16" ∷ []))
    else none

-- "I": an unsigned 32-bit number, low byte first.
abbrev pub pack_u32 : ℕ → List ℕ
pack_u32 n = n % 256 ∷ n / 256 % 256 ∷ n / 65536 % 256 ∷ n / 16777216 ∷ []

abbrev pub unpack_u32 : ℕ → ℕ → ℕ → ℕ → ℕ
unpack_u32 a b c d = a + 256 * b + 65536 * c + 16777216 * d

-- "h": a signed 16-bit number in two's complement, low byte first.
abbrev pub to_word : ℤ → ℕ
to_word (pos n) = n
to_word (negsuc n) = 65535 - n

abbrev pub of_word : ℕ → ℤ
of_word w = if ltb w 32768 then pos w else negsuc (65535 - w)
