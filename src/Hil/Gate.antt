-- ===== src/Hil/Gate.antt =====
-- rci/hil/gate.py: the readiness gate, with the servo settings that it looks at.
pub mod Readiness
pub mod Narrow
use robotic_character_interf.Base.{
  ℕ, Bool, true, false, not, String, Option, none, some, List, [], ◌∷◌, ◌==◌,
}
use text.Mathlib.Text.{◌==◌ as str_eq}
use robotic_character_interf.Base.Dict.{Dict, lookup}
use robotic_character_interf.Base.Float.{Float, eq}
use robotic_character_interf.Hil.{
  SingleServoHilEvidence, ServoCalibrationEvidence, ElectricalEvidence, MechanicalEvidence,
  HilActivationPermit,
}

pub data HilGateReason : Type 0 where
  config_joint_missing config_protocol_id_missing config_protocol_id_mismatch : HilGateReason
  config_channel_mismatch config_driver_mismatch config_pwm_frequency_mismatch : HilGateReason
  common_ground_unverified actuator_logic_rails_not_separate : HilGateReason
  independent_estop_unverified power_cut_unverified servo_not_secured : HilGateReason
  load_path_not_clear manual_range_unverified hard_stop_clearance_unverified : HilGateReason

pub record HilGateDecision : Type 0 where
  pub approved : Bool
  pub reasons : List HilGateReason
  pub permit : Option HilActivationPermit

pub record ServoJointSettings : Type 0 where
  pub channel : ℕ
  pub protocol_id : Option ℕ

pub record ServosSettings : Type 0 where
  pub driver : String
  pub pwm_frequency_hz : Float
  pub joints : Dict ServoJointSettings

-- The reasons: this one first, where the test fails.
abbrev pub unless : Bool → HilGateReason → List HilGateReason → List HilGateReason
unless true reason rest = rest
unless false reason rest = reason ∷ rest

abbrev pub id_reasons : Option ℕ → ℕ → List HilGateReason → List HilGateReason
id_reasons none expected rest = config_protocol_id_missing ∷ rest
id_reasons (some id) expected rest = unless (id == expected) config_protocol_id_mismatch rest

abbrev pub joint_reasons :
    Option ServoJointSettings → ServoCalibrationEvidence → List HilGateReason → List HilGateReason
joint_reasons none c rest = config_joint_missing ∷ rest
joint_reasons (some joint) c rest =
    id_reasons joint.protocol_id c.protocol_id
      (unless (joint.channel == c.channel) config_channel_mismatch rest)

abbrev pub electrical_reasons : ElectricalEvidence → List HilGateReason → List HilGateReason
electrical_reasons e rest = unless e.common_ground_verified common_ground_unverified (
    unless e.actuator_logic_rails_separate actuator_logic_rails_not_separate (
      unless e.independent_estop_verified independent_estop_unverified
        (unless e.power_cut_verified power_cut_unverified rest)))

abbrev pub mechanical_reasons : MechanicalEvidence → List HilGateReason
mechanical_reasons m = unless m.servo_secured servo_not_secured (
    unless m.load_path_clear load_path_not_clear (
      unless m.manual_range_check_verified manual_range_unverified
        (unless m.hard_stop_clearance_verified hard_stop_clearance_unverified [])))

unfoldable pub gate_reasons : ServosSettings → SingleServoHilEvidence → List HilGateReason
gate_reasons s e =
    let c = e.calibration in
    joint_reasons (lookup c.joint_name s.joints) c (
      unless (str_eq s.driver c.driver) config_driver_mismatch (
        unless (eq s.pwm_frequency_hz c.pwm_frequency_hz) config_pwm_frequency_mismatch
          (electrical_reasons e.electrical (mechanical_reasons e.mechanical))))

abbrev pub permit_of : String → ServoCalibrationEvidence → HilActivationPermit
permit_of sha256 c = record {
  evidence_sha256 = sha256;
  joint_name = c.joint_name;
  channel = c.channel;
  protocol_id = c.protocol_id;
  lower_angle_deg = c.lower_angle_deg;
  neutral_angle_deg = c.neutral_angle_deg;
  upper_angle_deg = c.upper_angle_deg;
  lower_pulse_us = c.lower_pulse_us;
  neutral_pulse_us = c.neutral_pulse_us;
  upper_pulse_us = c.upper_pulse_us;
  test_lower_angle_deg = c.test_lower_angle_deg;
  test_upper_angle_deg = c.test_upper_angle_deg;
  max_test_step_deg = c.max_test_step_deg;
}

abbrev pub decide :
    (SingleServoHilEvidence → String)
    → SingleServoHilEvidence
    → List HilGateReason
    → HilGateDecision
decide digest e [] = record {
  approved = true;
  reasons = [];
  permit = some (permit_of (digest e) e.calibration);
}
decide digest e (r ∷ reasons) = record { approved = false; reasons = r ∷ reasons; permit = none }

-- `SingleServoHilGate.evaluate`
unfoldable pub evaluate_evidence :
    (SingleServoHilEvidence → String) → ServosSettings → SingleServoHilEvidence → HilGateDecision
unfolding gate_reasons
evaluate_evidence digest s e = decide digest e (gate_reasons s e)
