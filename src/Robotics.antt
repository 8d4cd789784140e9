-- ===== src/Robotics.antt =====
-- rci/robotics/models.py and model.py: the joints of the reference profile, and the check of joint
-- positions against them.
use robotic_character_interf.Base.{
  is_none, Bool, true, false, not, ◌&&◌, ◌||◌, String, Option, none, some, List, [], ◌∷◌,
  if◌then◌else◌,
}
use robotic_character_interf.Base.Dict.{Dict, lookup, keys, elem}
use robotic_character_interf.Base.Float.{Float, isfinite, lt, le, zero_f}
use robotic_character_interf.Base.Int.{ℤ, pos, leb_ℤ, eqb_ℤ}
use robotic_character_interf.Base.Message.{Message, lit, name, num, say}

pub record ReferenceJoint : Type 0 where
  pub protocol_id : ℤ
  pub lower_deg : Float
  pub upper_deg : Float
  pub home_deg : Float
  pub max_velocity_deg_s : Float
  pub max_acceleration_deg_s2 : Float

-- The fields' bounds and `validate_range`.
unfoldable pub joint_valid : ReferenceJoint → Bool
joint_valid j =
    leb_ℤ (pos 1) j.protocol_id
    && (leb_ℤ j.protocol_id (pos 255)
        && (isfinite j.lower_deg
            && (isfinite j.upper_deg
                && (isfinite j.home_deg
                    && (isfinite j.max_velocity_deg_s
                        && (isfinite j.max_acceleration_deg_s2
                            && (lt zero_f j.max_velocity_deg_s
                                && (lt zero_f j.max_acceleration_deg_s2
                                    && (lt j.lower_deg j.home_deg
                                        && lt j.home_deg j.upper_deg)))))))))

abbrev pub Joints : Type 0
Joints = Dict ReferenceJoint

abbrev pub joints_valid : Joints → Bool
joints_valid [] = true
joints_valid ((joint, j) ∷ d) = joint_valid j && joints_valid d

abbrev pub has_id : ℤ → Joints → Bool
has_id id [] = false
has_id id ((joint, j) ∷ d) = eqb_ℤ id j.protocol_id || has_id id d

abbrev pub ids_shared : Joints → Bool
ids_shared [] = false
ids_shared ((joint, j) ∷ d) = has_id j.protocol_id d || ids_shared d

-- Whether every name of the first is among the second.
abbrev pub all_in : List String → List String → Bool
all_in [] t = true
all_in (k ∷ s) t = elem k t && all_in s t

-- `set(a) == set(b)`
abbrev pub same_names : List String → List String → Bool
same_names a b = all_in a b && all_in b a

-- `ReferenceRobotProfile.validate_joint_set`, after the joints' own validators.
unfoldable pub profile_valid : Joints → Bool
unfolding joint_valid
profile_valid joints =
    joints_valid joints
    && (same_names (keys joints) ("base" ∷ "shoulder" ∷ "elbow" ∷ "gripper" ∷ [])
        && not (ids_shared joints))

-- `RobotModel.home`
abbrev pub home : Joints → Dict Float
home [] = []
home ((joint, j) ∷ d) = (joint, j.home_deg) ∷ home d

-- One turn of the loop, with the joint's entry; the lookup succeeds after the test of the names.
unfoldable pub position_fault : String → Float → Option ReferenceJoint → Option Message
position_fault joint value none = some (lit "joint " ∷ name joint ∷ [])
position_fault joint value (some spec) =
    if not (isfinite value)
    then some (lit "joint " ∷ name joint ∷ lit " is not finite" ∷ [])
    else if not (le spec.lower_deg value && le value spec.upper_deg)
    then some (
        lit "joint "
        ∷ name joint
        ∷ lit " target "
        ∷ num value
        ∷ lit " is outside ["
        ∷ num spec.lower_deg
        ∷ lit ", "
        ∷ num spec.upper_deg
        ∷ lit "]"
        ∷ [])
    else none

abbrev pub or_else : Option Message → Option Message → Option Message
or_else (some m) later = some m
or_else none later = later

abbrev pub positions_fault : Joints → Dict Float → Option Message
positions_fault joints [] = none
positions_fault joints ((joint, value) ∷ d) =
    or_else (position_fault joint value (lookup joint joints)) (positions_fault joints d)

-- `RobotModel.validate_joint_positions`: the message of the error.
unfoldable pub validate_joint_positions : Joints → Dict Float → Option Message
unfolding position_fault
validate_joint_positions joints joints_deg =
    if not (same_names (keys joints_deg) (keys joints))
    then some (say "joint vector must contain exactly the reference robot joints")
    else positions_fault joints joints_deg

-- `RobotModel.within_limits`
unfoldable pub within_limits : Joints → Dict Float → Bool
unfolding validate_joint_positions
within_limits joints joints_deg = is_none (validate_joint_positions joints joints_deg)
