-- ===== src/State/Models.antt =====
-- rci/state/models.py: the immutable snapshots. A time stamp is a number of clock ticks.
use robotic_character_interf.Base.{ℕ, String, Bool, false, Option, none, []}
use robotic_character_interf.Base.Float.{Float, zero_f}
use robotic_character_interf.Base.Dict.{Dict}
use robotic_character_interf.Domain.{SystemState, boot}

pub data RobotMode : Type 0 where
  disabled ready moving safe fault : RobotMode

pub data VoiceState : Type 0 where
  idle listening recognizing speaking failed : VoiceState

pub data CharacterName : Type 0 where
  aurelia kanzaki : CharacterName

pub data GestureType : Type 0 where
  unknown tilt_left tilt_right tilt_forward tilt_backward wave flick_left flick_right : GestureType
  rotation hold double_movement circular_movement : GestureType

pub record SystemSnapshot : Type 0 where
  pub state : SystemState
  pub sequence : ℕ
  pub reason : Option String
  pub updated_at : ℕ

pub record RobotSnapshot : Type 0 where
  pub mode : RobotMode
  pub connected : Bool
  pub joint_positions_deg : Dict Float
  pub active_trajectory_id : Option String
  pub updated_at : ℕ

pub record GestureSnapshot : Type 0 where
  pub connected : Bool
  pub latest_gesture : GestureType
  pub confidence : Float
  pub updated_at : ℕ

pub record VoiceSnapshot : Type 0 where
  pub state : VoiceState
  pub latest_transcript : Option String
  pub updated_at : ℕ

pub record CharacterSnapshot : Type 0 where
  pub active_character : Option CharacterName
  pub emotion : Option String
  pub updated_at : ℕ

pub record SafetySnapshot : Type 0 where
  pub estop_active : Bool
  pub motion_authorized : Bool
  pub violation_count : ℕ
  pub latest_violation : Option String
  pub updated_at : ℕ

pub record StateSnapshot : Type 0 where
  pub revision : ℕ
  pub captured_at : ℕ
  pub system : SystemSnapshot
  pub robot : RobotSnapshot
  pub gesture : GestureSnapshot
  pub voice : VoiceSnapshot
  pub character : CharacterSnapshot
  pub safety : SafetySnapshot

-- `StateSnapshot()`, with every default factory called at time `now`.
abbrev pub default_snapshot : ℕ → StateSnapshot
default_snapshot now = record {
  revision = 0;
  captured_at = now;
  system = record { state = boot; sequence = 0; reason = none; updated_at = now };
  robot = record {
    mode = RobotMode.disabled;
    connected = false;
    joint_positions_deg = [];
    active_trajectory_id = none;
    updated_at = now;
  };
  gesture = record {
    connected = false;
    latest_gesture = GestureType.unknown;
    confidence = zero_f;
    updated_at = now;
  };
  voice = record { state = VoiceState.idle; latest_transcript = none; updated_at = now };
  character = record { active_character = none; emotion = none; updated_at = now };
  safety = record {
    estop_active = false;
    motion_authorized = false;
    violation_count = 0;
    latest_violation = none;
    updated_at = now;
  };
}
