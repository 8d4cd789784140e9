-- ===== src/Safety/Dynamics/Soundness.antt =====
-- rci/safety/dynamics.py: each group of checks compared with its part of Safety/Dynamics/Spec.
use robotic_character_interf.Base.{
  String, ◌≡◌, ◌↔◌, refl, Bool, true, false, not, ◌||◌, List, [], ◌∷◌, arith, Bool-cases, inl, inr,
  ◌∙◌, if◌then◌else◌,
}
use robotic_character_interf.Base.Float.{
  Float, fin, isfinite, lt, abs, zero_f, FiniteLe, finite_le, FiniteLe-of_not_gt,
}
use robotic_character_interf.Base.Dict.{Dict, elem}
use robotic_character_interf.Base.Names.{
  difference, sorted, sorted-eq-nil, IsIn, difference-All, difference_of_All,
}
use robotic_character_interf.Base.Lists.{All, append-eq-nil}
use robotic_character_interf.Safety.Models.{
  MotionSafetyPolicy, MotionDynamics, SafetyViolation, SafetyViolationCode,
}
use robotic_character_interf.Safety.Dynamics.{
  command_check, heartbeat_check, for_each_name, sample_check, samples_check,
}
use robotic_character_interf.Safety.Dynamics.Spec.{SampleAllowed, untargeted, bounded}

isfinite-abs : (x : Float) → isfinite (abs x) ≡ isfinite x
isfinite-abs (fin z) = refl
isfinite-abs _ = refl

pub tests_of_FiniteLe :
    {a b : Float} → FiniteLe a b → (isfinite a ≡ true) × (isfinite b ≡ true) × (lt b a ≡ false)
tests_of_FiniteLe (finite_le h) = ground arith

-- A check of an age against its limit, as both freshness checks make it.
abbrev pub age_failed : Float → Float → Bool
age_failed age limit = (not (isfinite age) || lt age zero_f) || lt limit age

pub FiniteLe-of_age :
    (age limit : Float)
    → isfinite limit ≡ true
    → age_failed age limit ≡ false
    → FiniteLe zero_f age × FiniteLe age limit
FiniteLe-of_age age limit f h =
    let finite : isfinite age ≡ true = ground arith in
    let started : lt age zero_f ≡ false = ground arith in
    let fresh : lt limit age ≡ false = ground arith in
    (FiniteLe-of_not_gt zero_f age refl finite started, FiniteLe-of_not_gt age limit finite f fresh)

pub age_of_FiniteLe :
    {age limit : Float} → FiniteLe zero_f age → FiniteLe age limit → age_failed age limit ≡ false
age_of_FiniteLe started fresh = ground (arith, tests_of_FiniteLe started, tests_of_FiniteLe fresh)

pub command_check-eq-nil :
    (p : MotionSafetyPolicy) (d : MotionDynamics)
    → (command_check p d ≡ []) ↔ (age_failed d.command_age_ms p.command_ttl_ms ≡ false)
unfolding command_check
command_check-eq-nil p d = ground arith

pub heartbeat_check-eq-nil :
    (p : MotionSafetyPolicy) (d : MotionDynamics)
    → (heartbeat_check p d ≡ []) ↔ (age_failed d.heartbeat_age_ms p.heartbeat_timeout_ms ≡ false)
unfolding heartbeat_check
heartbeat_check-eq-nil p d = ground arith

for_each_name-eq-nil :
    (f : String → SafetyViolation) (s : List String) → for_each_name f s ≡ [] → s ≡ []
unfolding for_each_name
for_each_name-eq-nil f [] h = refl
for_each_name-eq-nil f (k ∷ s) h = cc

sorted_nil : sorted [] ≡ []
unfolding sorted
sorted_nil = refl

-- A loop over a sorted difference adds nothing exactly when every name is in the other set.
pub difference_check :
    (f : String → SafetyViolation) (s t : List String)
    → (for_each_name f (sorted (difference s t)) ≡ []) ↔ All (IsIn t) s
unfolding for_each_name
difference_check f s t = (
  (λ h. difference-All s t (sorted-eq-nil _ (for_each_name-eq-nil f _ h))),
  (λ h. rw (difference_of_All s t h, sorted_nil)),
)

SampleAllowed-of_check :
    (targets : List String) (code : SafetyViolationCode) (quantity unit : String) (limit : Float)
    (joint : String) (value : Float)
    → isfinite limit ≡ true
    → sample_check code quantity unit limit joint value ≡ []
    → SampleAllowed targets limit (joint, value)
unfolding sample_check
SampleAllowed-of_check targets code quantity unit limit joint value f h =
    let finite : isfinite value ≡ true = ground arith in
    bounded (FiniteLe-of_not_gt (abs value) limit (isfinite-abs value ∙ finite) f (ground arith))

pub samples_check-eq-nil :
    (code : SafetyViolationCode) (quantity unit : String) (limit : Float) (targets : List String)
    (samples : Dict Float)
    → isfinite limit ≡ true
    → samples_check (sample_check code quantity unit limit) targets samples ≡ []
    → All (SampleAllowed targets limit) samples
unfolding samples_check
samples_check-eq-nil code quantity unit limit targets [] f h = tt
samples_check-eq-nil code quantity unit limit targets ((joint, value) ∷ rest) f h =
    let (first, later) =
      append-eq-nil
        (if not (elem joint targets) then [] else sample_check code quantity unit limit joint value)
        _ h in
    (
      elim (Bool-cases (elem joint targets)) [
        | inl targeted ↦
            SampleAllowed-of_check targets code quantity unit limit joint value f
              (rw targeted at first)
        | inr other ↦ untargeted other
      ],
      samples_check-eq-nil code quantity unit limit targets rest f later,
    )

sample_check_of_allowed :
    (code : SafetyViolationCode) (quantity unit : String) (limit : Float) (targets : List String)
    (joint : String) (value : Float)
    → SampleAllowed targets limit (joint, value)
    → (if not (elem joint targets) then [] else sample_check code quantity unit limit joint value)
      ≡ []
unfolding sample_check
sample_check_of_allowed code quantity unit limit targets joint value (untargeted h) = rw h
sample_check_of_allowed code quantity unit limit targets joint value (bounded h) =
    let (finite, _, within) = tests_of_FiniteLe h in ground (arith, isfinite-abs value)

pub samples_check_of_All :
    (code : SafetyViolationCode) (quantity unit : String) (limit : Float) (targets : List String)
    (samples : Dict Float)
    → All (SampleAllowed targets limit) samples
    → samples_check (sample_check code quantity unit limit) targets samples ≡ []
unfolding samples_check
samples_check_of_All code quantity unit limit targets [] h = refl
samples_check_of_All code quantity unit limit targets ((joint, value) ∷ rest) h =
    rw (sample_check_of_allowed code quantity unit limit targets joint value h.0)
      (samples_check_of_All code quantity unit limit targets rest h.1)
