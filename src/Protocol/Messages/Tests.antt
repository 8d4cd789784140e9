-- ===== src/Protocol/Messages/Tests.antt =====
-- The message codecs on concrete messages.
use robotic_character_interf.Base.{ℕ, ◌≡◌, ◌↔◌, refl, List, [], ◌∷◌, arith}
use robotic_character_interf.Protocol.Messages.Control.{
  decode_ack, decode_heartbeat, decode_estop, encode_estop, Heartbeat, encode_ack, Acknowledgement,
  EmergencyStop, encode_heartbeat,
}
use robotic_character_interf.Protocol.Messages.Glove.{decode_glove, GloveTelemetry, encode_glove}
use robotic_character_interf.Protocol.Messages.Motion.{
  decode_motion, ValidatedMotionCommand, encode_motion,
}
use robotic_character_interf.Protocol.Constants.{
  executing, position, accepted, manual, armed, glove, robot,
}
use robotic_character_interf.Base.Int.{negsuc, pos}
use robotic_character_interf.Protocol.Framing.{ok}
use robotic_character_interf.Protocol.Messages.RoundTrip.{
  heartbeat_iff, acknowledgement_iff, emergency_stop_iff,
}
use robotic_character_interf.Base.Lists.{length}
use robotic_character_interf.Protocol.Messages.MotionTrip.{decode_motion-encode}
use robotic_character_interf.Protocol.Messages.GloveTrip.{decode_glove-encode}
use robotic_character_interf.Protocol.Messages.Telemetry.{
  RobotTelemetry, decode_telemetry, encode_telemetry,
}
use robotic_character_interf.Protocol.Messages.TelemetryTrip.{decode_telemetry-encode}

abbrev seen : Acknowledgement
seen = record { acknowledged_sequence = pos 515; status = accepted }

abbrev beat : Heartbeat
beat = record { source = glove; uptime_ms = pos 66051; state = armed }

abbrev pressed : EmergencyStop
pressed = record { source = robot; reason = manual }

abbrev reach : ValidatedMotionCommand
reach = record {
  command_id = 1 ∷ 2 ∷ 3 ∷ 4 ∷ 5 ∷ 6 ∷ 7 ∷ 8 ∷ 9 ∷ 10 ∷ 11 ∷ 12 ∷ 13 ∷ 14 ∷ 15 ∷ 16 ∷ [];
  ttl_ms = pos 250;
  mode = position;
  targets =
      record { joint_id = pos 1; target_cdeg = negsuc 299 }
      ∷ record { joint_id = pos 2; target_cdeg = pos 4500 }
      ∷ [];
  max_velocity_cdeg_s = pos 3000;
  max_acceleration_cdeg_s2 = pos 6000;
}

abbrev reach_bytes : List ℕ
reach_bytes =
    1 ∷ 2 ∷ 3 ∷ 4 ∷ 5 ∷ 6 ∷ 7 ∷ 8 ∷ 9 ∷ 10 ∷ 11 ∷ 12 ∷ 13 ∷ 14 ∷ 15 ∷ 16 ∷ 250 ∷ 0 ∷ 1 ∷ 2 ∷ 1 ∷ 212
    ∷ 254 ∷ 2 ∷ 148 ∷ 17 ∷ 184 ∷ 11 ∷ 112 ∷ 23 ∷ []

reach_encoded : encode_motion reach ≡ ok reach_bytes
unfolding encode_motion
reach_encoded = refl

abbrev hand : GloveTelemetry
hand = record {
  device_time_ms_mod = pos 1000;
  accel_x_mg = pos 5;
  accel_y_mg = negsuc 0;
  accel_z_mg = pos 981;
  gyro_x_cdeg_s = pos 0;
  gyro_y_cdeg_s = pos 0;
  gyro_z_cdeg_s = negsuc 99;
  pitch_cdeg = pos 1500;
  roll_cdeg = negsuc 1499;
  battery_mv = pos 3700;
  flags = pos 3;
}

abbrev hand_bytes : List ℕ
hand_bytes =
    232 ∷ 3 ∷ 5 ∷ 0 ∷ 255 ∷ 255 ∷ 213 ∷ 3 ∷ 0 ∷ 0 ∷ 0 ∷ 0 ∷ 156 ∷ 255 ∷ 220 ∷ 5 ∷ 36 ∷ 250 ∷ 116
    ∷ 14 ∷ 3 ∷ []

hand_encoded : encode_glove hand ≡ ok hand_bytes
unfolding encode_glove
hand_encoded = refl

acknowledgement_iff_example :
    (encode_ack seen ≡ ok (3 ∷ 2 ∷ 0 ∷ [])) ↔ (decode_ack (3 ∷ 2 ∷ 0 ∷ []) ≡ ok seen)
acknowledgement_iff_example =
    acknowledgement_iff seen (3 ∷ 2 ∷ 0 ∷ []) (omega arith, (omega arith, (omega arith, tt)))

emergency_stop_iff_example :
    (encode_estop pressed ≡ 4 ∷ 1 ∷ []) ↔ (decode_estop (4 ∷ 1 ∷ []) ≡ ok pressed)
emergency_stop_iff_example = emergency_stop_iff pressed (4 ∷ 1 ∷ [])

heartbeat_iff_example :
    (encode_heartbeat beat ≡ ok (2 ∷ 3 ∷ 2 ∷ 1 ∷ 0 ∷ 5 ∷ []))
    ↔ (decode_heartbeat (2 ∷ 3 ∷ 2 ∷ 1 ∷ 0 ∷ 5 ∷ []) ≡ ok beat)
heartbeat_iff_example =
    heartbeat_iff beat (2 ∷ 3 ∷ 2 ∷ 1 ∷ 0 ∷ 5 ∷ [])
      (omega arith, (omega arith, (omega arith, (omega arith, (omega arith, (omega arith, tt))))))

decode_motion-encode_example : decode_motion reach_bytes ≡ ok reach
decode_motion-encode_example = decode_motion-encode reach reach_bytes refl reach_encoded

decode_glove-encode_example : (decode_glove hand_bytes ≡ ok hand) × (length hand_bytes ≡ 21)
decode_glove-encode_example = decode_glove-encode hand hand_bytes hand_encoded

abbrev report : RobotTelemetry
report = record {
  uptime_ms = pos 66051;
  state = executing;
  flags = pos 0;
  supply_mv = pos 7400;
  joints =
      record {
        joint_id = pos 1;
        position_cdeg = pos 100;
        velocity_cdeg_s = negsuc 0;
        current_ma = pos 40;
      }
      ∷ [];
}

abbrev report_bytes : List ℕ
report_bytes = 3 ∷ 2 ∷ 1 ∷ 0 ∷ 6 ∷ 0 ∷ 232 ∷ 28 ∷ 1 ∷ 1 ∷ 100 ∷ 0 ∷ 255 ∷ 255 ∷ 40 ∷ 0 ∷ []

report_encoded : encode_telemetry report ≡ ok report_bytes
unfolding encode_telemetry
report_encoded = refl

decode_telemetry-encode_example : decode_telemetry report_bytes ≡ ok report
decode_telemetry-encode_example = decode_telemetry-encode report report_bytes report_encoded
