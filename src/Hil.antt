-- ===== src/Hil.antt =====
-- rci/hil/models.py: the evidence for the first attempt with a single servo, and the permit. A text
-- of at least one character is one that is not empty; a digest is a text, and its pattern is not checked. `minus a b` stands for
-- the float `a - b`, and `digest` for `evidence_digest`, which is a hash of the evidence.
pub mod Gate
pub mod Outcome
mod Tests
use robotic_character_interf.Base.{
  is_none, ℕ, Bool, true, false, not, ◌&&◌, ◌||◌, String, Option, none, some, List, [], ◌∷◌, ◌==◌,
  ltb, leb, if◌then◌else◌,
}
use text.Mathlib.Text.{◌==◌ as str_eq}
use robotic_character_interf.Base.Float.{Float, isfinite, lt, le, zero_f}
use robotic_character_interf.Base.Lists.{length}
use robotic_character_interf.Base.Message.{Message, say}
use Prim.Native.Nat.{min, max}

pub data EvidenceKind : Type 0 where
  wiring measurement photo video telemetry : EvidenceKind

pub record EvidenceReference : Type 0 where
  pub kind : EvidenceKind
  pub uri : String
  pub sha256 : String

pub record ElectricalEvidence : Type 0 where
  pub actuator_supply_voltage_v : Float
  pub logic_supply_voltage_v : Float
  pub current_limit_a : Float
  pub common_ground_verified : Bool
  pub actuator_logic_rails_separate : Bool
  pub independent_estop_verified : Bool
  pub power_cut_verified : Bool

pub record MechanicalEvidence : Type 0 where
  pub servo_secured : Bool
  pub load_path_clear : Bool
  pub manual_range_check_verified : Bool
  pub hard_stop_clearance_verified : Bool

pub record ServoCalibrationEvidence : Type 0 where
  pub joint_name : String
  pub servo_model : String
  pub driver : String
  pub pwm_frequency_hz : Float
  pub channel : ℕ
  pub protocol_id : ℕ
  pub lower_angle_deg : Float
  pub neutral_angle_deg : Float
  pub upper_angle_deg : Float
  pub lower_pulse_us : ℕ
  pub neutral_pulse_us : ℕ
  pub upper_pulse_us : ℕ
  pub test_lower_angle_deg : Float
  pub test_upper_angle_deg : Float
  pub max_test_step_deg : Float

abbrev is_positive : Float → Bool
is_positive x = isfinite x && lt zero_f x

abbrev is_text : String → Bool
is_text s = not (str_eq s "")

-- The bounds of the fields.
unfoldable pub electrical_fields_valid : ElectricalEvidence → Bool
electrical_fields_valid e =
    is_positive e.actuator_supply_voltage_v
    && (is_positive e.logic_supply_voltage_v && is_positive e.current_limit_a)

unfoldable pub calibration_fields_valid : ServoCalibrationEvidence → Bool
calibration_fields_valid c =
    (is_text c.joint_name && (is_text c.servo_model && is_text c.driver))
    && ((is_positive c.pwm_frequency_hz
          && (leb c.channel 15 && (leb 1 c.protocol_id && leb c.protocol_id 255)))
        && ((isfinite c.lower_angle_deg
              && (isfinite c.neutral_angle_deg && isfinite c.upper_angle_deg))
            && ((ltb 0 c.lower_pulse_us && (ltb 0 c.neutral_pulse_us && ltb 0 c.upper_pulse_us))
                && (isfinite c.test_lower_angle_deg
                    && (isfinite c.test_upper_angle_deg && is_positive c.max_test_step_deg)))))

-- `ServoCalibrationEvidence.validate_ranges`: the message of its error.
unfoldable pub validate_ranges : (Float → Float → Float) → ServoCalibrationEvidence → Option Message
validate_ranges minus c =
    if not (lt c.lower_angle_deg c.neutral_angle_deg && lt c.neutral_angle_deg c.upper_angle_deg)
    then some (say "measured angles must satisfy lower < neutral < upper")
    else if c.lower_pulse_us == c.upper_pulse_us
    then some (say "measured pulse endpoints must be distinct")
    else if not (
        ltb (min c.lower_pulse_us c.upper_pulse_us) c.neutral_pulse_us
        && ltb c.neutral_pulse_us (max c.lower_pulse_us c.upper_pulse_us))
    then some (say "neutral pulse must lie strictly between measured pulse endpoints")
    else if not (
        le c.lower_angle_deg c.test_lower_angle_deg
        && lt c.test_lower_angle_deg c.test_upper_angle_deg)
    then some (say "test lower angle must lie inside the measured angle range")
    else if not (le c.test_upper_angle_deg c.upper_angle_deg)
    then some (say "test upper angle must lie inside the measured angle range")
    else if not (
        le c.test_lower_angle_deg c.neutral_angle_deg
        && le c.neutral_angle_deg c.test_upper_angle_deg)
    then some (say "neutral angle must lie inside the first-test envelope")
    else if lt (minus c.test_upper_angle_deg c.test_lower_angle_deg) c.max_test_step_deg
    then some (say "max test step cannot exceed the first-test envelope width")
    else none

-- `recorded_at` is here whether it has a time zone.
pub record SingleServoHilEvidence : Type 0 where
  pub recorded_with_zone : Bool
  pub operator : String
  pub calibration : ServoCalibrationEvidence
  pub electrical : ElectricalEvidence
  pub mechanical : MechanicalEvidence
  pub evidence_refs : List EvidenceReference

abbrev pub kind_index : EvidenceKind → ℕ
kind_index wiring = 0
kind_index measurement = 1
kind_index photo = 2
kind_index video = 3
kind_index telemetry = 4

-- `kind in {reference.kind for reference in self.evidence_refs}`
abbrev pub has_kind : EvidenceKind → List EvidenceReference → Bool
has_kind k [] = false
has_kind k (r ∷ refs) = kind_index k == kind_index r.kind || has_kind k refs

-- `SingleServoHilEvidence.require_artifact_classes`: the message of its error.
unfoldable pub require_artifact_classes : SingleServoHilEvidence → Option Message
require_artifact_classes e =
    if not e.recorded_with_zone
    then some (say "recorded_at must be timezone-aware")
    else if not (has_kind wiring e.evidence_refs)
    then some (say "HIL evidence must include a wiring artifact")
    else if not (has_kind measurement e.evidence_refs)
    then some (say "HIL evidence must include a measurement artifact")
    else none

-- Whether the model can be made: the fields, those of the references aside, and both validators.
unfoldable pub evidence_valid : (Float → Float → Float) → SingleServoHilEvidence → Bool
unfolding electrical_fields_valid calibration_fields_valid validate_ranges require_artifact_classes
evidence_valid minus e =
    (is_text e.operator && leb 2 (length e.evidence_refs))
    && ((electrical_fields_valid e.electrical && calibration_fields_valid e.calibration)
        && (is_none (validate_ranges minus e.calibration) && is_none (require_artifact_classes e)))

pub record HilActivationPermit : Type 0 where
  pub evidence_sha256 : String
  pub joint_name : String
  pub channel : ℕ
  pub protocol_id : ℕ
  pub lower_angle_deg : Float
  pub neutral_angle_deg : Float
  pub upper_angle_deg : Float
  pub lower_pulse_us : ℕ
  pub neutral_pulse_us : ℕ
  pub upper_pulse_us : ℕ
  pub test_lower_angle_deg : Float
  pub test_upper_angle_deg : Float
  pub max_test_step_deg : Float

pub data HilRunOutcome : Type 0 where
  pass fail aborted : HilRunOutcome

pub record HilTargetObservation : Type 0 where
  pub commanded_angle_deg : Float
  pub observed_angle_deg : Float
  pub commanded_pulse_us : ℕ
  pub observed_current_a : Float

-- The two timestamps are numbers, with whether they have a time zone.
pub record SingleServoHilRunResult : Type 0 where
  pub evidence_sha256 : String
  pub joint_name : String
  pub started_at : ℕ
  pub completed_at : ℕ
  pub timestamps_with_zone : Bool
  pub outcome : HilRunOutcome
  pub observations : List HilTargetObservation
  pub estop_response_verified : Bool
  pub power_cut_response_verified : Bool
  pub unexpected_motion : Bool
  pub operator_notes : String
  pub evidence_refs : List EvidenceReference

-- What a run that passed has to show.
unfoldable pub validate_pass : SingleServoHilRunResult → Option Message
validate_pass r =
    if length r.observations == 0
    then some (say "PASS requires at least one physical observation")
    else if r.unexpected_motion
    then some (say "PASS cannot include unexpected motion")
    else if not r.estop_response_verified || not r.power_cut_response_verified
    then some (say "PASS requires verified E-stop and power-cut response")
    else if not (has_kind measurement r.evidence_refs)
    then some (say "PASS requires a measurement artifact")
    else if not (has_kind video r.evidence_refs || has_kind telemetry r.evidence_refs)
    then some (say "PASS requires video or telemetry evidence")
    else none

-- `SingleServoHilRunResult.validate_result`: the message of its error.
unfoldable pub validate_result : SingleServoHilRunResult → Option Message
unfolding validate_pass
validate_result r =
    if not r.timestamps_with_zone
    then some (say "run timestamps must be timezone-aware")
    else if ltb r.completed_at r.started_at
    then some (say "completed_at cannot precede started_at")
    else elim r.outcome [ pass ↦ validate_pass r | _ ↦ none ]
