-- ===== src/Safety/Dynamics/Spec.antt =====
-- What the dynamic checks promise, stated without their control flow.
use robotic_character_interf.Base.{String, ◌≡◌, true, false, some, List}
use robotic_character_interf.Base.Float.{Float, abs, zero_f, FiniteLe}
use robotic_character_interf.Base.Dict.{keys, elem}
use robotic_character_interf.Base.Names.{IsIn}
use robotic_character_interf.Base.Lists.{All}
use robotic_character_interf.Safety.Models.{
  MotionSafetyPolicy, policy_valid, SafetyEnvelope, MotionCandidate, MotionDynamics,
}
use robotic_character_interf.Safety.Eligibility.Spec.{PoseAllowed}

-- A sample of a joint that is no target, or a finite one whose size is within the limit.
pub data SampleAllowed (targets : List String) (limit : Float) : String × Float → Type 0 where
  untargeted :
      {joint : String} {value : Float}
      → elem joint targets ≡ false
      → SampleAllowed targets limit (joint, value)
  bounded :
      {joint : String} {value : Float}
      → FiniteLe (abs value) limit
      → SampleAllowed targets limit (joint, value)

pub record DynamicsAllowed (e : SafetyEnvelope) (p : MotionSafetyPolicy) (c : MotionCandidate)
    (d : MotionDynamics) : Type 0 where
  pub command_started : FiniteLe zero_f d.command_age_ms
  pub command_fresh : FiniteLe d.command_age_ms p.command_ttl_ms
  pub heartbeat_started : FiniteLe zero_f d.heartbeat_age_ms
  pub heartbeat_fresh : FiniteLe d.heartbeat_age_ms p.heartbeat_timeout_ms
  pub velocities_given : All (IsIn (keys d.joint_velocities_deg_s)) (keys c.joint_targets_deg)
  pub accelerations_given :
      All (IsIn (keys d.joint_accelerations_deg_s2)) (keys c.joint_targets_deg)
  pub velocities_known : All (IsIn (keys e.joints)) (keys d.joint_velocities_deg_s)
  pub accelerations_known : All (IsIn (keys e.joints)) (keys d.joint_accelerations_deg_s2)
  pub velocities_bounded :
      All (SampleAllowed (keys c.joint_targets_deg) p.max_velocity_deg_s) d.joint_velocities_deg_s
  pub accelerations_bounded :
      All
        (SampleAllowed (keys c.joint_targets_deg) p.max_acceleration_deg_s2)
        d.joint_accelerations_deg_s2

-- A motion that the static and the dynamic safety rules permit under a valid policy.
pub record MotionAllowed (e : SafetyEnvelope) (c : MotionCandidate) (d : MotionDynamics)
    : Type 0 where
  pub policy : MotionSafetyPolicy
  pub pose_allowed : PoseAllowed e c
  pub configured : e.motion_policy ≡ some policy
  pub policy_usable : policy_valid policy ≡ true
  pub dynamics_allowed : DynamicsAllowed e policy c d
