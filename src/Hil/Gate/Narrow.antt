-- ===== src/Hil/Gate/Narrow.antt =====
-- rci/hil: the ranges that a permit allows.
use robotic_character_interf.Base.{
  &&_true, ◌<◌, ◌∷◌, subst, arith, some, none, true, is_none, ◌≡◌, List, [], refl, ◌≤◌, Option,
  Bool, ◌&&◌, ℕ, leb, String,
}
use robotic_character_interf.Hil.{
  ServoCalibrationEvidence, validate_ranges, HilActivationPermit, evidence_valid,
  calibration_fields_valid, SingleServoHilEvidence,
}
use robotic_character_interf.Hil.Gate.{
  gate_reasons, permit_of, decide, HilGateReason, ServosSettings, evaluate_evidence,
}
use robotic_character_interf.Base.Message.{Message}
use robotic_character_interf.Base.Float.{le, lt, Float}
use Prim.Native.Nat.{min, max}

-- A measured envelope and, inside it, the one of the first test.
pub record IsOrdered (p : HilActivationPermit) : Type 0 where
  pub low : lt p.lower_angle_deg p.neutral_angle_deg ≡ true
  pub high : lt p.neutral_angle_deg p.upper_angle_deg ≡ true
  pub test_low : le p.lower_angle_deg p.test_lower_angle_deg ≡ true
  pub test_width : lt p.test_lower_angle_deg p.test_upper_angle_deg ≡ true
  pub test_high : le p.test_upper_angle_deg p.upper_angle_deg ≡ true
  pub neutral_low : le p.test_lower_angle_deg p.neutral_angle_deg ≡ true
  pub neutral_high : le p.neutral_angle_deg p.test_upper_angle_deg ≡ true
  pub pulse_low : min p.lower_pulse_us p.upper_pulse_us < p.neutral_pulse_us
  pub pulse_high : p.neutral_pulse_us < max p.lower_pulse_us p.upper_pulse_us

ranges_ordered :
    (minus : Float → Float → Float) (sha256 : String) (c : ServoCalibrationEvidence)
    → validate_ranges minus c ≡ none
    → IsOrdered (permit_of sha256 c)
unfolding validate_ranges
ranges_ordered minus sha256 c ranges = record {
  low = ground arith;
  high = ground arith;
  test_low = ground arith;
  test_width = ground arith;
  test_high = ground arith;
  neutral_low = ground arith;
  neutral_high = ground arith;
  pulse_low = ground arith;
  pulse_high = ground arith;
}

-- The bounds of the wiring, and the envelopes.
pub record IsNarrow (p : HilActivationPermit) : Type 0 where
  pub channel : p.channel ≤ 15
  pub id_low : 1 ≤ p.protocol_id
  pub id_high : p.protocol_id ≤ 255
  pub ordered : IsOrdered p

bounds_of :
    (channel id : ℕ) (p q t : Bool)
    → (p && ((q && (leb channel 15 && (leb 1 id && leb id 255))) && t)) ≡ true
    → (channel ≤ 15) × (1 ≤ id) × (id ≤ 255)
bounds_of channel id p q t h = (ground arith, ground arith, ground arith)

valid-IsNarrow :
    (minus : Float → Float → Float) (sha256 : String) (c : ServoCalibrationEvidence)
    → calibration_fields_valid c ≡ true
    → validate_ranges minus c ≡ none
    → IsNarrow (permit_of sha256 c)
unfolding calibration_fields_valid
valid-IsNarrow minus sha256 c fields ranges =
    let (channel, low, high) = bounds_of c.channel c.protocol_id _ _ _ fields in
    record {
      channel = channel;
      id_low = low;
      id_high = high;
      ordered = ranges_ordered minus sha256 c ranges;
    }

is_none-none : (o : Option Message) → is_none o ≡ true → o ≡ none
is_none-none none h = refl
is_none-none (some m) h = absurd (ground arith)

evidence-valid_parts :
    (minus : Float → Float → Float) (e : SingleServoHilEvidence)
    → evidence_valid minus e ≡ true
    → (calibration_fields_valid e.calibration ≡ true) × (validate_ranges minus e.calibration ≡ none)
unfolding evidence_valid
evidence-valid_parts minus e h =
    let (_, rest) = &&_true _ _ h in
    let (fields, validators) = &&_true _ _ rest in
    let (_, calibration) = &&_true _ _ fields in
    let (ranges, _) = &&_true _ _ validators in
    (calibration, is_none-none (validate_ranges minus e.calibration) ranges)

decide-permit :
    (digest : SingleServoHilEvidence → String) (e : SingleServoHilEvidence)
    (reasons : List HilGateReason) (p : HilActivationPermit)
    → (decide digest e reasons).permit ≡ some p
    → permit_of (digest e) e.calibration ≡ p
decide-permit digest e [] p h = ground arith
decide-permit digest e (r ∷ reasons) p h = absurd (ground arith)

-- A permit for evidence that passes the model's validation is narrow: the neutral angle is strictly
-- inside the measured range, the first test's envelope is a range of its own, inside the
-- measured one and around the neutral angle, the neutral pulse is strictly between the measured
-- endpoints, and the channel and the protocol id are within their bounds.
pub permit-IsNarrow :
    (minus : Float → Float → Float) (digest : SingleServoHilEvidence → String) (s : ServosSettings)
    (e : SingleServoHilEvidence) (p : HilActivationPermit)
    → evidence_valid minus e ≡ true
    → (evaluate_evidence digest s e).permit ≡ some p
    → IsNarrow p
unfolding evaluate_evidence
permit-IsNarrow minus digest s e p valid h =
    let (fields, ranges) = evidence-valid_parts minus e valid in
    subst (λ q. IsNarrow q) (decide-permit digest e (gate_reasons s e) p h)
      (valid-IsNarrow minus (digest e) e.calibration fields ranges)
