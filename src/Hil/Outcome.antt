-- ===== src/Hil/Outcome.antt =====
-- rci/hil/models.py: what the result of a run that passed has shown.
use robotic_character_interf.Base.{
  ◌||◌, inr, suc, inl, ◌⊎◌, ◌∙◌, sym, ◌≡◌, ◌<◌, ◌≤◌, ◌↔◌, refl, ap, ◌==◌, arith, ℕ, Bool, true,
  false, none, List, [], ◌∷◌,
}
use Prim.Native.Nat.{zero, suc}
use robotic_character_interf.Hil.{
  EvidenceKind, EvidenceReference, kind_index, has_kind, SingleServoHilRunResult, validate_result,
  validate_pass, pass, measurement, video, telemetry, wiring, photo,
}
use robotic_character_interf.Base.Lists.{length}

pub data HasReference (k : EvidenceKind) : List EvidenceReference → Type 0 where
  here :
      (r : EvidenceReference) (refs : List EvidenceReference)
      → r.kind ≡ k
      → HasReference k (r ∷ refs)
  there :
      (r : EvidenceReference) (refs : List EvidenceReference)
      → HasReference k refs
      → HasReference k (r ∷ refs)

abbrev kind_of : ℕ → EvidenceKind
kind_of zero = wiring
kind_of (suc zero) = measurement
kind_of (suc (suc zero)) = photo
kind_of (suc (suc (suc zero))) = video
kind_of (suc (suc (suc (suc n)))) = telemetry

kind_of-index : (k : EvidenceKind) → kind_of (kind_index k) ≡ k
kind_of-index wiring = refl
kind_of-index measurement = refl
kind_of-index photo = refl
kind_of-index video = refl
kind_of-index telemetry = refl

index_injective : (k l : EvidenceKind) → kind_index k ≡ kind_index l → l ≡ k
index_injective k l h = sym (kind_of-index l) ∙ sym (ap kind_of h) ∙ kind_of-index k

or_cases : (a b : Bool) → (a || b) ≡ true → (a ≡ true) ⊎ (b ≡ true)
or_cases true b h = inl refl
or_cases false b h = inr h

or_left : (a b : Bool) → a ≡ true → (a || b) ≡ true
or_left a b h = ground arith

or_right : (a b : Bool) → b ≡ true → (a || b) ≡ true
or_right a b h = ground arith

index_same : (k l : EvidenceKind) → l ≡ k → (kind_index k == kind_index l) ≡ true
index_same k l h = ground arith

has-HasReference :
    (k : EvidenceKind) (refs : List EvidenceReference)
    → has_kind k refs ≡ true
    → HasReference k refs
has-HasReference k [] h = absurd (ground arith)
has-HasReference k (r ∷ refs) h =
    elim (or_cases (kind_index k == kind_index r.kind) (has_kind k refs) h) [
      | inl e ↦ here r refs (index_injective k r.kind (ground arith))
      | inr e ↦ there r refs (has-HasReference k refs e)
    ]

HasReference-has :
    (k : EvidenceKind) (refs : List EvidenceReference)
    → HasReference k refs
    → has_kind k refs ≡ true
HasReference-has k [] m = elim m [ ]
HasReference-has k (r ∷ refs) (here _ _ e) = or_left _ _ (index_same k r.kind e)
HasReference-has k (r ∷ refs) (there _ _ m) = or_right _ _ (HasReference-has k refs m)

pub record IsShown (r : SingleServoHilRunResult) : Type 0 where
  pub zoned : r.timestamps_with_zone ≡ true
  pub in_order : r.started_at ≤ r.completed_at
  pub observed : 0 < length r.observations
  pub expected : r.unexpected_motion ≡ false
  pub estop : r.estop_response_verified ≡ true
  pub power_cut : r.power_cut_response_verified ≡ true
  pub measured : HasReference measurement r.evidence_refs
  pub recorded : HasReference video r.evidence_refs ⊎ HasReference telemetry r.evidence_refs

has-recorded :
    (refs : List EvidenceReference)
    → (has_kind video refs || has_kind telemetry refs) ≡ true
    → HasReference video refs ⊎ HasReference telemetry refs
has-recorded refs h = elim (or_cases (has_kind video refs) (has_kind telemetry refs) h) [
  | inl e ↦ inl (has-HasReference video refs e)
  | inr e ↦ inr (has-HasReference telemetry refs e)
]

recorded-has :
    (refs : List EvidenceReference)
    → HasReference video refs ⊎ HasReference telemetry refs
    → (has_kind video refs || has_kind telemetry refs) ≡ true
recorded-has refs (inl m) = or_left _ _ (HasReference-has video refs m)
recorded-has refs (inr m) = or_right _ _ (HasReference-has telemetry refs m)

pass_parts :
    (r : SingleServoHilRunResult)
    → validate_pass r ≡ none
    → (0 < length r.observations)
      × (r.unexpected_motion ≡ false)
      × (r.estop_response_verified ≡ true)
      × (r.power_cut_response_verified ≡ true)
      × (has_kind measurement r.evidence_refs ≡ true)
      × ((has_kind video r.evidence_refs || has_kind telemetry r.evidence_refs) ≡ true)
unfolding validate_pass
pass_parts r h =
    (ground arith, ground arith, ground arith, ground arith, ground arith, ground arith)

parts-pass :
    (r : SingleServoHilRunResult)
    → 0 < length r.observations
    → r.unexpected_motion ≡ false
    → r.estop_response_verified ≡ true
    → r.power_cut_response_verified ≡ true
    → has_kind measurement r.evidence_refs ≡ true
    → (has_kind video r.evidence_refs || has_kind telemetry r.evidence_refs) ≡ true
    → validate_pass r ≡ none
unfolding validate_pass
parts-pass r a b c d e f = ground arith

result_parts :
    (r : SingleServoHilRunResult)
    → r.outcome ≡ pass
    → validate_result r ≡ none
    → (r.timestamps_with_zone ≡ true) × (r.started_at ≤ r.completed_at) × (validate_pass r ≡ none)
unfolding validate_result
result_parts r e h = (ground arith, ground arith, ground arith)

parts-result :
    (r : SingleServoHilRunResult)
    → r.outcome ≡ pass
    → r.timestamps_with_zone ≡ true
    → r.started_at ≤ r.completed_at
    → validate_pass r ≡ none
    → validate_result r ≡ none
unfolding validate_result
parts-result r e z t h = ground arith

-- A result that says that the run passed is accepted exactly when it shows it: the times have a zone
-- and are in order, there is an observation, nothing moved unexpectedly, the E-stop and the
-- power cut were seen to work, and there is a measurement and a video or telemetry to look at.
pub validate_result-IsShown :
    (r : SingleServoHilRunResult) → r.outcome ≡ pass → (validate_result r ≡ none) ↔ IsShown r
validate_result-IsShown r p = (
  λ h.
      let (zoned, in_order, passed) = result_parts r p h in
      let (observed, expected, estop, power_cut, measured, recorded) = pass_parts r passed in
      record {
        zoned = zoned;
        in_order = in_order;
        observed = observed;
        expected = expected;
        estop = estop;
        power_cut = power_cut;
        measured = has-HasReference measurement r.evidence_refs measured;
        recorded = has-recorded r.evidence_refs recorded;
      },
  λ s. parts-result r p s.zoned s.in_order (
      parts-pass r s.observed s.expected s.estop s.power_cut
        (HasReference-has measurement r.evidence_refs s.measured)
        (recorded-has r.evidence_refs s.recorded)),
)
