-- ===== src/Hil/Gate/Readiness.antt =====
-- rci/hil/gate.py: what the gate approves, and the permit for evidence that is valid.
use robotic_character_interf.Base.{
  ◌==◌, if◌then◌else◌, ℕ, ◌≡◌, ◌↔◌, refl, ap, arith, Bool, true, false, String, Option, none, some,
  List, [], ◌∷◌,
}
use text.Mathlib.Text.{◌==◌ as str_eq}
use robotic_character_interf.Base.Dict.{lookup}
use robotic_character_interf.Base.Float.{eq}
use robotic_character_interf.Hil.{
  SingleServoHilEvidence, ElectricalEvidence, MechanicalEvidence, ServoCalibrationEvidence,
}
use robotic_character_interf.Hil.Gate.{
  config_channel_mismatch, id_reasons, config_pwm_frequency_mismatch, unless, HilGateReason,
  config_driver_mismatch, ServosSettings, ServoJointSettings, gate_reasons, evaluate_evidence,
  permit_of, decide, joint_reasons, electrical_reasons, mechanical_reasons,
}

-- The joint is wired as the evidence says.
pub record IsWired (s : ServosSettings) (c : ServoCalibrationEvidence) : Type 0 where
  pub joint : ServoJointSettings
  pub known : lookup c.joint_name s.joints ≡ some joint
  pub same_id : joint.protocol_id ≡ some c.protocol_id
  pub same_channel : joint.channel ≡ c.channel

pub record IsElectricallySafe (e : ElectricalEvidence) : Type 0 where
  pub common_ground : e.common_ground_verified ≡ true
  pub separate_rails : e.actuator_logic_rails_separate ≡ true
  pub independent_estop : e.independent_estop_verified ≡ true
  pub power_cut : e.power_cut_verified ≡ true

pub record IsMechanicallySafe (m : MechanicalEvidence) : Type 0 where
  pub secured : m.servo_secured ≡ true
  pub clear : m.load_path_clear ≡ true
  pub manual_range : m.manual_range_check_verified ≡ true
  pub hard_stops : m.hard_stop_clearance_verified ≡ true

pub record IsReady (s : ServosSettings) (e : SingleServoHilEvidence) : Type 0 where
  pub wired : IsWired s e.calibration
  pub same_driver : str_eq s.driver e.calibration.driver ≡ true
  pub same_frequency : eq s.pwm_frequency_hz e.calibration.pwm_frequency_hz ≡ true
  pub electrical : IsElectricallySafe e.electrical
  pub mechanical : IsMechanicallySafe e.mechanical

electrical_part :
    (e : ElectricalEvidence) (rest : List HilGateReason)
    → electrical_reasons e rest ≡ []
    → IsElectricallySafe e × (rest ≡ [])
electrical_part e rest h = (
  record {
    common_ground = ground arith;
    separate_rails = ground arith;
    independent_estop = ground arith;
    power_cut = ground arith;
  },
  ground arith,
)

mechanical_part : (m : MechanicalEvidence) → mechanical_reasons m ≡ [] → IsMechanicallySafe m
mechanical_part m h = record {
  secured = ground arith;
  clear = ground arith;
  manual_range = ground arith;
  hard_stops = ground arith;
}

id_part :
    (o : Option ℕ) (id : ℕ) (rest : List HilGateReason)
    → id_reasons o id rest ≡ []
    → (o ≡ some id) × (rest ≡ [])
id_part none id rest h = absurd (ground arith)
id_part (some n) id rest h = (ap (λ k. some k) (ground arith), ground arith)

unless_part :
    (b : Bool) (r : HilGateReason) (rest : List HilGateReason)
    → unless b r rest ≡ []
    → (b ≡ true) × (rest ≡ [])
unless_part true r rest h = (refl, h)
unless_part false r rest h = absurd (ground arith)

joint_part :
    (s : ServosSettings) (c : ServoCalibrationEvidence) (o : Option ServoJointSettings)
    (rest : List HilGateReason)
    → lookup c.joint_name s.joints ≡ o
    → joint_reasons o c rest ≡ []
    → IsWired s c × (rest ≡ [])
joint_part s c none rest e h = absurd (ground arith)
joint_part s c (some joint) rest e h =
    let (id, h1) =
      id_part joint.protocol_id c.protocol_id
        (unless (joint.channel == c.channel) config_channel_mismatch rest) h in
    let (channel, left) =
      unless_part (joint.channel == c.channel) config_channel_mismatch rest h1 in
    (record { joint = joint; known = e; same_id = id; same_channel = ground arith }, left)

no_reason-IsReady :
    (s : ServosSettings) (e : SingleServoHilEvidence) → gate_reasons s e ≡ [] → IsReady s e
unfolding gate_reasons
no_reason-IsReady s e h =
    let c = e.calibration in
    let (wired, h1) = joint_part s c (lookup c.joint_name s.joints) _ refl h in
    let (driver, h2) = unless_part (str_eq s.driver c.driver) config_driver_mismatch _ h1 in
    let (frequency, h3) =
      unless_part (eq s.pwm_frequency_hz c.pwm_frequency_hz) config_pwm_frequency_mismatch _ h2 in
    let (electrical, h4) = electrical_part e.electrical (mechanical_reasons e.mechanical) h3 in
    record {
      wired = wired;
      same_driver = driver;
      same_frequency = frequency;
      electrical = electrical;
      mechanical = mechanical_part e.mechanical h4;
    }

IsReady-no_reason :
    (s : ServosSettings) (e : SingleServoHilEvidence) → IsReady s e → gate_reasons s e ≡ []
unfolding gate_reasons
IsReady-no_reason s e r =
    rw
      (
        r.wired.known, r.wired.same_id, r.wired.same_channel, r.same_driver, r.same_frequency,
        r.electrical.common_ground, r.electrical.separate_rails, r.electrical.independent_estop,
        r.electrical.power_cut, r.mechanical.secured, r.mechanical.clear, r.mechanical.manual_range,
        r.mechanical.hard_stops,
      )
      (ground arith)

decide-approved :
    (digest : SingleServoHilEvidence → String) (e : SingleServoHilEvidence)
    (reasons : List HilGateReason)
    → (((decide digest e reasons).approved ≡ true) ↔ (reasons ≡ []))
      × ((decide digest e reasons).permit ≡ (
          if (decide digest e reasons).approved
          then some (permit_of (digest e) e.calibration)
          else none))
decide-approved digest e [] = ((λ _. refl, λ _. refl), refl)
decide-approved digest e (r ∷ reasons) =
    ((λ h. absurd (ground arith), λ h. absurd (ground arith)), refl)

-- The gate approves evidence exactly when it is ready: the joint is configured with the protocol id
-- and the channel of the evidence, the driver and the PWM frequency are those of the configuration,
-- and every electrical and mechanical check is confirmed. There is a permit exactly with an
-- approval, and it has the digest of the evidence and the measured calibration.
pub evaluate_evidence-IsReady :
    (digest : SingleServoHilEvidence → String) (s : ServosSettings) (e : SingleServoHilEvidence)
    → (((evaluate_evidence digest s e).approved ≡ true) ↔ IsReady s e)
      × ((evaluate_evidence digest s e).permit ≡ (
          if (evaluate_evidence digest s e).approved
          then some (permit_of (digest e) e.calibration)
          else none))
unfolding evaluate_evidence
evaluate_evidence-IsReady digest s e =
    let ((to, from), permit) = decide-approved digest e (gate_reasons s e) in
    ((λ h. no_reason-IsReady s e (to h), λ r. from (IsReady-no_reason s e r)), permit)
