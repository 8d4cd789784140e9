-- ===== src/Safety/Eligibility/Soundness.antt =====
-- rci/safety/eligibility.py: the static checks compared with Safety/Eligibility/Spec.
use robotic_character_interf.Base.{
  String, ◌≡◌, ◌↔◌, refl, Bool, true, false, not, Option, none, some, List, [], ◌∷◌, arith,
}
use robotic_character_interf.Base.Float.{Float, isfinite}
use robotic_character_interf.Base.Dict.{Dict, lookup, is_empty}
use robotic_character_interf.Base.Lists.{All, append-eq-nil}
use robotic_character_interf.Domain.{in_states, Memᴰ_of_in_states, in_states_of_Memᴰ}
use robotic_character_interf.Safety.Models.{
  JointConstraint, joint_contains, ordered, between, below, CartesianPoint, WorkspaceBounds,
  workspace_verified, workspace_contains, SafetyEnvelope, MotionCandidate, SafetyViolation,
  eligibility_approved,
}
use robotic_character_interf.Safety.Eligibility.{
  append_if, verdict, constraint_check, target_check, targets_check, point_check, workspace_check,
  joints_check, static_violations, assess_motion_eligibility,
}
use robotic_character_interf.Safety.Eligibility.Spec.{
  InRange, in_range, Admits, admits, TargetAllowed, PointAllowed, point_allowed, PoseAllowed,
}

InRange-of_tests :
    (a : Option Float) (x : Float) (b : Option Float)
    → isfinite x ≡ true
    → below a b ≡ true
    → between a x b ≡ true
    → InRange a x b
InRange-of_tests none x b f p q = cc
InRange-of_tests (some lo) x none f p q = cc
InRange-of_tests (some lo) x (some hi) f p q = in_range f p (ground arith) (ground arith)

tests_of_InRange :
    {a : Option Float} {x : Float} {b : Option Float}
    → InRange a x b
    → (isfinite x ≡ true) × (below a b ≡ true) × (between a x b ≡ true)
tests_of_InRange (in_range f p q r) = ground arith

Admits-of_tests :
    (c : JointConstraint) (x : Float) (a m b : Option Float)
    → c.min_deg ≡ a
    → c.neutral_deg ≡ m
    → c.max_deg ≡ b
    → c.verified ≡ true
    → ordered a m b ≡ true
    → isfinite x ≡ true
    → between a x b ≡ true
    → Admits c x
Admits-of_tests c x (some lo) (some mid) (some hi) p q r v o f h =
    admits v p q r (ground arith) (ground arith) f (ground arith) (ground arith)
Admits-of_tests c x (some lo) (some mid) none p q r v o f h = cc
Admits-of_tests c x (some lo) none b p q r v o f h = cc
Admits-of_tests c x none m b p q r v o f h = cc

joint_contains-Admits : (c : JointConstraint) (x : Float) → joint_contains c x ≡ true → Admits c x
unfolding joint_contains
joint_contains-Admits c x h =
    Admits-of_tests c x c.min_deg c.neutral_deg c.max_deg refl refl refl (ground arith)
      (ground arith) (ground arith) (ground arith)

joint_contains_of_Admits :
    (c : JointConstraint) (x : Float) → Admits c x → joint_contains c x ≡ true
unfolding joint_contains
joint_contains_of_Admits c x (admits v p q r o o' f l h) = ground arith

constraint_check-nil :
    (joint : String) (x : Float) (o : Option JointConstraint)
    → constraint_check joint x o ≡ []
    → (c : JointConstraint) × (o ≡ some c) × (joint_contains c x ≡ true)
unfolding constraint_check
constraint_check-nil joint x none h = cc
constraint_check-nil joint x (some c) h = (c, refl, ground arith)

target_check-TargetAllowed :
    (joints : Dict JointConstraint) (joint : String) (x : Float)
    → target_check joints joint x ≡ []
    → TargetAllowed joints (joint, x)
unfolding target_check
target_check-TargetAllowed joints joint x h =
    let (c, found, inside) =
      constraint_check-nil joint x (lookup joint joints)
        (unfold constraint_check in ground arith) in
    (c, found, joint_contains-Admits c x inside)

target_check_of_TargetAllowed :
    (joints : Dict JointConstraint) (joint : String) (x : Float)
    → TargetAllowed joints (joint, x)
    → target_check joints joint x ≡ []
unfolding target_check joint_contains
target_check_of_TargetAllowed joints joint x (c, found, a) =
    rw found (ground (arith, joint_contains_of_Admits c x a))

targets_check-All :
    (joints : Dict JointConstraint) (targets : Dict Float)
    → targets_check joints targets ≡ []
    → All (TargetAllowed joints) targets
unfolding targets_check
targets_check-All joints [] h = tt
targets_check-All joints ((joint, x) ∷ rest) h =
    let (first, later) =
      append-eq-nil (target_check joints joint x) (targets_check joints rest) h in
    (target_check-TargetAllowed joints joint x first, targets_check-All joints rest later)

targets_check_of_All :
    (joints : Dict JointConstraint) (targets : Dict Float)
    → All (TargetAllowed joints) targets
    → targets_check joints targets ≡ []
unfolding targets_check
targets_check_of_All joints [] h = refl
targets_check_of_All joints ((joint, x) ∷ rest) h =
    rw (target_check_of_TargetAllowed joints joint x h.0, targets_check_of_All joints rest h.1)

point_check-PointAllowed :
    (e : SafetyEnvelope) (o : Option CartesianPoint)
    → point_check e o ≡ []
    → PointAllowed e.workspace o
unfolding point_check workspace_contains
point_check-PointAllowed e none h = cc
point_check-PointAllowed e (some p) h =
    point_allowed (InRange-of_tests _ _ _ (ground arith) (ground arith) (ground arith))
      (InRange-of_tests _ _ _ (ground arith) (ground arith) (ground arith))
      (InRange-of_tests _ _ _ (ground arith) (ground arith) (ground arith))

point_check_of_PointAllowed :
    (e : SafetyEnvelope) {o : Option CartesianPoint}
    → e.workspace.verified ≡ true
    → PointAllowed e.workspace o
    → (workspace_verified e.workspace ≡ true) × (point_check e o ≡ [])
unfolding point_check workspace_contains
point_check_of_PointAllowed e v (point_allowed x y z) =
    let (fx, ox, bx) = tests_of_InRange x in
    let (fy, oy, b_y) = tests_of_InRange y in
    let (fz, oz, bz) = tests_of_InRange z in (ground arith, ground arith)

joints_check-eq-nil :
    (e : SafetyEnvelope) (c : MotionCandidate)
    → joints_check e c ≡ []
    → (e.servos_verified ≡ true) × (targets_check e.joints c.joint_targets_deg ≡ [])
unfolding joints_check
joints_check-eq-nil e c h = ground arith

workspace_check-eq-nil :
    (e : SafetyEnvelope) (c : MotionCandidate)
    → workspace_check e c ≡ []
    → (e.robot_verified ≡ true)
      × (workspace_verified e.workspace ≡ true)
      × (point_check e c.workspace_point_mm ≡ [])
unfolding workspace_check
workspace_check-eq-nil e c h = ground arith

workspace_verified-verified :
    (w : WorkspaceBounds) → workspace_verified w ≡ true → w.verified ≡ true
unfolding workspace_verified
workspace_verified-verified w h = ground arith

pub verdict-eq-nil :
    (vs : List SafetyViolation) → eligibility_approved (verdict vs) ≡ true → vs ≡ []
unfolding eligibility_approved
verdict-eq-nil [] h = refl
verdict-eq-nil (v ∷ vs) h = cc

pub append_if-eq-nil : (b : Bool) (v : SafetyViolation) → append_if (not b) v ≡ [] → b ≡ true
append_if-eq-nil true v h = refl
append_if-eq-nil false v h = cc

-- The violations are none exactly when the four groups of tests find none.
static_violations-eq-nil :
    (e : SafetyEnvelope) (c : MotionCandidate)
    → static_violations e c ≡ []
    → (in_states c.system_state e.allowed_states ≡ true)
      × (is_empty c.joint_targets_deg ≡ false)
      × (joints_check e c ≡ [])
      × (workspace_check e c ≡ [])
unfolding static_violations
static_violations-eq-nil e c h =
    let (state, rest) =
      append-eq-nil (append_if (not (in_states c.system_state e.allowed_states)) _) _ h in
    let (targets, rest') = append-eq-nil (append_if (is_empty c.joint_targets_deg) _) _ rest in
    let (joints, workspace) = append-eq-nil (joints_check e c) (workspace_check e c) rest' in
    (append_if-eq-nil _ _ state, ground arith, joints, workspace)

static_violations_none :
    (e : SafetyEnvelope) (c : MotionCandidate)
    → in_states c.system_state e.allowed_states ≡ true
    → is_empty c.joint_targets_deg ≡ false
    → joints_check e c ≡ []
    → workspace_check e c ≡ []
    → static_violations e c ≡ []
unfolding static_violations
static_violations_none e c state targets joints workspace = rw (state, targets, joints, workspace)

-- An approval is the clear E-stop and an empty list of violations.
pub approved_iff_none :
    (e : SafetyEnvelope) (c : MotionCandidate)
    → (eligibility_approved (assess_motion_eligibility e c) ≡ true)
      ↔ ((c.estop_active ≡ false) × (static_violations e c ≡ []))
unfolding eligibility_approved assess_motion_eligibility
approved_iff_none e c = (
  (λ h. (ground arith, ground (arith, verdict-eq-nil (static_violations e c)))),
  (λ h. ground arith),
)

parts_clear :
    (e : SafetyEnvelope) (c : MotionCandidate)
    → PoseAllowed e c
    → (joints_check e c ≡ []) × (workspace_check e c ≡ [])
unfolding joints_check workspace_check
parts_clear e c p =
    let (measured, inside) = point_check_of_PointAllowed e p.workspace_measured p.point_inside in
    let targets = targets_check_of_All e.joints c.joint_targets_deg p.targets_allowed in
    (rw (p.servos_measured) targets, rw (p.robot_measured, measured) inside)

-- The static checks approve a candidate exactly when the specification permits its pose: no E-stop,
-- an allowed system state, at least one target, each target finite and within the measured limits
-- of a known joint, and a finite workspace point inside the measured envelope.
pub approved_iff_PoseAllowed :
    (e : SafetyEnvelope) (c : MotionCandidate)
    → (eligibility_approved (assess_motion_eligibility e c) ≡ true) ↔ PoseAllowed e c
approved_iff_PoseAllowed e c = (sound, complete)
  where
    sound : eligibility_approved (assess_motion_eligibility e c) ≡ true → PoseAllowed e c
    sound h =
        let (clear, quiet) = (approved_iff_none e c).0 h in
        let (state, some_target, joints, workspace) = static_violations-eq-nil e c quiet in
        let (servos, targets) = joints_check-eq-nil e c joints in
        let (robot, measured, point) = workspace_check-eq-nil e c workspace in
        record {
          estop_clear = clear;
          state_allowed = Memᴰ_of_in_states _ _ state;
          some_target = some_target;
          servos_measured = servos;
          targets_allowed = targets_check-All _ _ targets;
          robot_measured = robot;
          workspace_measured = workspace_verified-verified _ measured;
          point_inside = point_check-PointAllowed e _ point;
        }

    complete : PoseAllowed e c → eligibility_approved (assess_motion_eligibility e c) ≡ true
    complete p =
        let (joints, workspace) = parts_clear e c p in
        let state = in_states_of_Memᴰ _ p.state_allowed in
        (approved_iff_none e c).1
          (p.estop_clear, static_violations_none e c state p.some_target joints workspace)
