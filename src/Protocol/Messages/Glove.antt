-- ===== src/Protocol/Messages/Glove.antt =====
-- rci/protocols/messages.py: GloveTelemetry, the report of the glove's sensors.
use robotic_character_interf.Base.{
  ℕ, not, ◌==◌, if◌then◌else◌, Option, none, some, List, [], ◌∷◌, ◌++◌,
}
use robotic_character_interf.Protocol.Framing.{
  protocol_error, unpack_u16, err, ok, Result, Fault, pack_u16,
}
use robotic_character_interf.Base.Int.{pos, pos_part, ℤ}
use robotic_character_interf.Protocol.Messages.{
  of_word, to_word, require_int16, after, require_uint,
}
use robotic_character_interf.Base.Lists.{length}
use robotic_character_interf.Base.Message.{say}

pub record GloveTelemetry : Type 0 where
  pub device_time_ms_mod : ℤ
  pub accel_x_mg : ℤ
  pub accel_y_mg : ℤ
  pub accel_z_mg : ℤ
  pub gyro_x_cdeg_s : ℤ
  pub gyro_y_cdeg_s : ℤ
  pub gyro_z_cdeg_s : ℤ
  pub pitch_cdeg : ℤ
  pub roll_cdeg : ℤ
  pub battery_mv : ℤ
  pub flags : ℤ

-- Checks one after another; the first that raises ends them.
abbrev pub first_fault : List (Option Fault) → Option Fault
first_fault [] = none
first_fault (none ∷ checks) = first_fault checks
first_fault (some fault ∷ checks) = some fault

unfoldable pub glove_checks : GloveTelemetry → List (Option Fault)
unfolding require_uint require_int16
glove_checks g =
    require_uint "device_time_ms_mod" g.device_time_ms_mod 16 0
    ∷ require_int16 "accel_x_mg" g.accel_x_mg
    ∷ require_int16 "accel_y_mg" g.accel_y_mg
    ∷ require_int16 "accel_z_mg" g.accel_z_mg
    ∷ require_int16 "gyro_x_cdeg_s" g.gyro_x_cdeg_s
    ∷ require_int16 "gyro_y_cdeg_s" g.gyro_y_cdeg_s
    ∷ require_int16 "gyro_z_cdeg_s" g.gyro_z_cdeg_s
    ∷ require_int16 "pitch_cdeg" g.pitch_cdeg
    ∷ require_int16 "roll_cdeg" g.roll_cdeg
    ∷ require_uint "battery_mv" g.battery_mv 16 0
    ∷ require_uint "flags" g.flags 8 0
    ∷ []

-- `_GLOVE.pack`
abbrev pub glove_payload : GloveTelemetry → List ℕ
glove_payload g =
    pack_u16 (pos_part g.device_time_ms_mod)
    ++ (pack_u16 (to_word g.accel_x_mg)
        ++ (pack_u16 (to_word g.accel_y_mg)
            ++ (pack_u16 (to_word g.accel_z_mg)
                ++ (pack_u16 (to_word g.gyro_x_cdeg_s)
                    ++ (pack_u16 (to_word g.gyro_y_cdeg_s)
                        ++ (pack_u16 (to_word g.gyro_z_cdeg_s)
                            ++ (pack_u16 (to_word g.pitch_cdeg)
                                ++ (pack_u16 (to_word g.roll_cdeg)
                                    ++ (pack_u16 (pos_part g.battery_mv)
                                        ++ pos_part g.flags ∷ [])))))))))

unfoldable pub encode_glove : GloveTelemetry → Result (List ℕ)
unfolding glove_checks
encode_glove g = after (first_fault (glove_checks g)) (
    if not (length (glove_payload g) == 21)
    then err (protocol_error (say "internal glove payload size mismatch"))
    else ok (glove_payload g))

unfoldable pub decode_glove : List ℕ → Result GloveTelemetry
decode_glove
      (t0 ∷ t1 ∷ a0 ∷ a1 ∷ b0 ∷ b1 ∷ c0 ∷ c1 ∷ d0 ∷ d1 ∷ e0 ∷ e1 ∷ f0 ∷ f1 ∷ g0 ∷ g1 ∷ h0 ∷ h1 ∷ v0
        ∷ v1 ∷ flags ∷ []) =
    ok (record {
      device_time_ms_mod = pos (unpack_u16 t0 t1);
      accel_x_mg = of_word (unpack_u16 a0 a1);
      accel_y_mg = of_word (unpack_u16 b0 b1);
      accel_z_mg = of_word (unpack_u16 c0 c1);
      gyro_x_cdeg_s = of_word (unpack_u16 d0 d1);
      gyro_y_cdeg_s = of_word (unpack_u16 e0 e1);
      gyro_z_cdeg_s = of_word (unpack_u16 f0 f1);
      pitch_cdeg = of_word (unpack_u16 g0 g1);
      roll_cdeg = of_word (unpack_u16 h0 h1);
      battery_mv = pos (unpack_u16 v0 v1);
      flags = pos flags;
    })
decode_glove _ = err (protocol_error (say "invalid glove telemetry payload length"))
