-- ===== src/Hil/Tests.antt =====
-- The evidence gate on one record of evidence, with whole degrees.
use robotic_character_interf.Base.{
  refl, false, [], none, some, ◌∷◌, String, true, ℕ, ◌≡◌, ◌↔◌, ◌-◌, if◌then◌else◌,
}
use robotic_character_interf.Base.Float.{Float, fin}
use robotic_character_interf.Base.Int.{pos}
use robotic_character_interf.Hil.{
  pass, SingleServoHilRunResult, evidence_valid, validate_result, ServoCalibrationEvidence,
  SingleServoHilEvidence, wiring, measurement, video,
}
use robotic_character_interf.Hil.Gate.{
  config_channel_mismatch, config_protocol_id_missing, permit_of, evaluate_evidence, ServosSettings,
}
use robotic_character_interf.Hil.Gate.Narrow.{permit-IsNarrow, IsNarrow}
use robotic_character_interf.Hil.Gate.Readiness.{evaluate_evidence-IsReady, IsReady}
use robotic_character_interf.Hil.Outcome.{validate_result-IsShown, IsShown}

abbrev degrees : ℕ → Float
degrees n = fin (pos n)

-- Subtraction of floats that are not negative, where the first is the greater one.
abbrev minus : Float → Float → Float
minus (fin (pos a)) (fin (pos b)) = fin (pos (a - b))
minus a b = a

abbrev calibration : ServoCalibrationEvidence
calibration = record {
  joint_name = "elbow";
  servo_model = "MG996R";
  driver = "pca9685";
  pwm_frequency_hz = degrees 50;
  channel = 3;
  protocol_id = 4;
  lower_angle_deg = degrees 10;
  neutral_angle_deg = degrees 90;
  upper_angle_deg = degrees 170;
  lower_pulse_us = 2400;
  neutral_pulse_us = 1500;
  upper_pulse_us = 600;
  test_lower_angle_deg = degrees 80;
  test_upper_angle_deg = degrees 100;
  max_test_step_deg = degrees 5;
}

abbrev evidence : SingleServoHilEvidence
evidence = record {
  recorded_with_zone = true;
  operator = "operator";
  calibration = calibration;
  electrical = record {
    actuator_supply_voltage_v = degrees 6;
    logic_supply_voltage_v = degrees 5;
    current_limit_a = degrees 2;
    common_ground_verified = true;
    actuator_logic_rails_separate = true;
    independent_estop_verified = true;
    power_cut_verified = true;
  };
  mechanical = record {
    servo_secured = true;
    load_path_clear = true;
    manual_range_check_verified = true;
    hard_stop_clearance_verified = true;
  };
  evidence_refs =
      record { kind = wiring; uri = "a"; sha256 = "1" }
      ∷ record { kind = measurement; uri = "b"; sha256 = "2" }
      ∷ [];
}

abbrev settings : ServosSettings
settings = record {
  driver = "pca9685";
  pwm_frequency_hz = degrees 50;
  joints = ("elbow", record { channel = 3; protocol_id = some 4 }) ∷ [];
}

abbrev joint_settings : ServosSettings
joint_settings = record settings {
  joints = ("elbow", record { channel = 2; protocol_id = none }) ∷ [];
}

abbrev digest : SingleServoHilEvidence → String
digest e = e.operator

approval : (evaluate_evidence digest settings evidence).approved ≡ true
unfolding evaluate_evidence
approval = refl

refusal :
    (evaluate_evidence digest joint_settings evidence).reasons
    ≡ (config_protocol_id_missing ∷ config_channel_mismatch ∷ [])
unfolding evaluate_evidence
refusal = refl

evaluate_evidence-IsReady_example :
    (((evaluate_evidence digest settings evidence).approved ≡ true) ↔ IsReady settings evidence)
    × ((evaluate_evidence digest settings evidence).permit ≡ (
        if (evaluate_evidence digest settings evidence).approved
        then some (permit_of (digest evidence) evidence.calibration)
        else none))
evaluate_evidence-IsReady_example = evaluate_evidence-IsReady digest settings evidence

valid : evidence_valid minus evidence ≡ true
unfolding evidence_valid
valid = refl

permitted :
    (evaluate_evidence digest settings evidence).permit ≡ some (permit_of "operator" calibration)
unfolding evaluate_evidence
permitted = refl

permit-IsNarrow_example : IsNarrow (permit_of "operator" calibration)
permit-IsNarrow_example =
    permit-IsNarrow minus digest settings evidence (permit_of "operator" calibration) valid
      permitted

abbrev run : SingleServoHilRunResult
run = record {
  evidence_sha256 = "operator";
  joint_name = "elbow";
  started_at = 10;
  completed_at = 20;
  timestamps_with_zone = true;
  outcome = pass;
  observations =
      record {
        commanded_angle_deg = degrees 90;
        observed_angle_deg = degrees 91;
        commanded_pulse_us = 1500;
        observed_current_a = degrees 1;
      }
      ∷ [];
  estop_response_verified = true;
  power_cut_response_verified = true;
  unexpected_motion = false;
  operator_notes = "";
  evidence_refs =
      record { kind = measurement; uri = "b"; sha256 = "2" }
      ∷ record { kind = video; uri = "c"; sha256 = "3" }
      ∷ [];
}

accepted : validate_result run ≡ none
unfolding validate_result
accepted = refl

validate_result-IsShown_example : (validate_result run ≡ none) ↔ IsShown run
validate_result-IsShown_example = validate_result-IsShown run refl
