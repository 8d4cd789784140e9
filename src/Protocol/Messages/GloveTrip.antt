-- ===== src/Protocol/Messages/GloveTrip.antt =====
-- rci/protocols/messages.py: `GloveTelemetry.decode` on what `encode` writes.
use robotic_character_interf.Base.{
  String, ℕ, ◌/◌, ◌%◌, ◌≡◌, refl, sym, ap, ◌∙◌, Option, none, some, List, [], ◌∷◌, arith,
}
use robotic_character_interf.Protocol.Framing.{unpack_u16, ok, Fault}
use robotic_character_interf.Protocol.Messages.Glove.{
  glove_payload, glove_checks, first_fault, GloveTelemetry, encode_glove, decode_glove,
}
use robotic_character_interf.Base.Int.{pos_part, pos, ℤ}
use robotic_character_interf.Protocol.Messages.{to_word, of_word, require_uint, require_int16}
use robotic_character_interf.Base.Lists.{length, All}
use robotic_character_interf.Protocol.Messages.Fields.{
  require_int16_ok, ok-injective, require_uint_ok, unpack_u16-pack, after_ok,
}

first_fault-none :
    (checks : List (Option Fault)) → first_fault checks ≡ none → All (λ o. o ≡ none) checks
first_fault-none [] e = tt
first_fault-none (none ∷ checks) e = (refl, first_fault-none checks e)
first_fault-none (some fault ∷ checks) e = ground arith

pub word_kept :
    (label : String) (z : ℤ)
    → require_int16 label z ≡ none
    → of_word (unpack_u16 (to_word z % 256) (to_word z / 256)) ≡ z
word_kept label z e = ap of_word (unpack_u16-pack (to_word z)) ∙ (require_int16_ok label z e).1

number_kept :
    (label : String) (z : ℤ) (bits : ℕ) → require_uint label z bits 0 ≡ none → pos (pos_part z) ≡ z
number_kept label z bits e =
    let (n, is_n, _, _) = require_uint_ok label z bits 0 e in
    ap (λ t. pos (pos_part t)) is_n ∙ sym is_n

-- What passes the checks is read back from the payload.
decode_glove-payload :
    (g : GloveTelemetry)
    → All (λ o. o ≡ none) (glove_checks g)
    → decode_glove (glove_payload g) ≡ ok g
unfolding decode_glove glove_checks
decode_glove-payload g
      (time, (ax, (ay, (az, (gx, (gy, (gz, (pitch, (roll, (battery, (flags, _))))))))))) =
    rw
      (
        unpack_u16-pack (pos_part g.device_time_ms_mod),
        number_kept "device_time_ms_mod" g.device_time_ms_mod 16 time,
        word_kept "accel_x_mg" g.accel_x_mg ax,
        word_kept "accel_y_mg" g.accel_y_mg ay,
        word_kept "accel_z_mg" g.accel_z_mg az,
        word_kept "gyro_x_cdeg_s" g.gyro_x_cdeg_s gx,
        word_kept "gyro_y_cdeg_s" g.gyro_y_cdeg_s gy,
        word_kept "gyro_z_cdeg_s" g.gyro_z_cdeg_s gz,
        word_kept "pitch_cdeg" g.pitch_cdeg pitch,
        word_kept "roll_cdeg" g.roll_cdeg roll,
        unpack_u16-pack (pos_part g.battery_mv),
        number_kept "battery_mv" g.battery_mv 16 battery,
        number_kept "flags" g.flags 8 flags,
      )
      refl

-- Glove telemetry that encodes without an error is decoded from its bytes unchanged, and the
-- payload has 21 bytes.
pub decode_glove-encode :
    (g : GloveTelemetry) (bytes : List ℕ)
    → encode_glove g ≡ ok bytes
    → (decode_glove bytes ≡ ok g) × (length bytes ≡ 21)
unfolding encode_glove
decode_glove-encode g bytes e =
    let (clean, sent) = after_ok e in
    let same = ok-injective sent in
    (
      ap decode_glove (sym same) ∙ decode_glove-payload g (first_fault-none (glove_checks g) clean),
      ap length (sym same),
    )
