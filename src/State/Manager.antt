-- ===== src/State/Manager.antt =====
-- rci/state/manager.py: the state manager, one call at a time (its lock admits one). The bus is
-- seen through the way that `publish` ends: it accepts the event, it raises (the bus does not
-- run), or the waiting task is cancelled, which `except Exception` does not catch.
use robotic_character_interf.Base.{ℕ, ◌+◌, String, Option, List, [], ◌∷◌, if◌then◌else◌}
use robotic_character_interf.Domain.{SystemState, fault, in_states}
use robotic_character_interf.State.Models.{
  SystemSnapshot, RobotSnapshot, GestureSnapshot, VoiceSnapshot, CharacterSnapshot, SafetySnapshot,
  StateSnapshot,
}
use robotic_character_interf.State.{can_transition}

pub data EventPriority : Type 0 where
  critical high normal low : EventPriority

pub record SystemStateChanged : Type 0 where
  pub source : String
  pub previous_state : SystemState
  pub current_state : SystemState
  pub reason : Option String
  pub priority : EventPriority

pub data PublishOutcome : Type 0 where
  accepted raised cancelled : PublishOutcome

pub data Error : Type 0 where
  invalid_transition : SystemState → SystemState → Error
  publish_failed task_cancelled : Error

pub data Result (A : Type 0) : Type 0 where
  ok : A → Result A
  err : Error → Result A

-- The manager's snapshot, and the events that the bus has accepted from it, newest first.
pub record Manager : Type 0 where
  pub snapshot : StateSnapshot
  pub published : List SystemStateChanged

-- The arguments of one `transition_system` call, with what the clock and the bus answer to it.
pub record Request : Type 0 where
  pub target : SystemState
  pub reason : Option String
  pub source : String
  pub updated_at : ℕ
  pub captured_at : ℕ
  pub outcome : PublishOutcome

abbrev pub priority_of : SystemState → EventPriority
priority_of target = if in_states target (fault ∷ SystemState.estop ∷ []) then critical else high

-- The end of `transition_system`, where `publish` is awaited under `try`.
abbrev publish_or_restore :
    PublishOutcome
    → Manager
    → StateSnapshot
    → SystemStateChanged
    → SystemSnapshot
    → Manager × Result SystemSnapshot
publish_or_restore accepted m s e updated =
    (record { snapshot = s; published = e ∷ m.published }, ok updated)
publish_or_restore raised m s e updated = (m, err publish_failed)
publish_or_restore cancelled m s e updated =
    (record { snapshot = s; published = m.published }, err task_cancelled)

unfoldable pub transition_system : Request → Manager → Manager × Result SystemSnapshot
transition_system r m =
    let previous_snapshot = m.snapshot in
    let current = previous_snapshot.system in
    let updated : SystemSnapshot = record {
      state = r.target;
      sequence = current.sequence + 1;
      reason = r.reason;
      updated_at = r.updated_at;
    } in
    let snapshot : StateSnapshot = record previous_snapshot {
      system = updated;
      revision = previous_snapshot.revision + 1;
      captured_at = r.captured_at;
    } in
    let event : SystemStateChanged = record {
      source = r.source;
      previous_state = current.state;
      current_state = r.target;
      reason = r.reason;
      priority = priority_of r.target;
    } in
    if can_transition current.state r.target
    then publish_or_restore r.outcome m snapshot event updated
    else (m, err (invalid_transition current.state r.target))

pub data Component : Type 0 where
  robot : RobotSnapshot → Component
  gesture : GestureSnapshot → Component
  voice : VoiceSnapshot → Component
  character : CharacterSnapshot → Component
  safety : SafetySnapshot → Component

abbrev with_component : Component → StateSnapshot → StateSnapshot
with_component (robot v) s = record s { robot = v }
with_component (gesture v) s = record s { gesture = v }
with_component (voice v) s = record s { voice = v }
with_component (character v) s = record s { character = v }
with_component (safety v) s = record s { safety = v }

-- `update_robot`, `update_gesture` and so on, through `_replace_component` at time `now`.
unfoldable pub replace_component : Component → ℕ → Manager → Manager
replace_component c now m =
    let current = m.snapshot in
    record m {
      snapshot = record (with_component c current) {
        revision = current.revision + 1;
        captured_at = now;
      };
    }

-- The calls that other components make on the manager.
pub data Call : Type 0 where
  transition : Request → Call
  replace : Component → ℕ → Call

unfoldable pub apply : Call → Manager → Manager
unfolding transition_system replace_component
apply (transition r) m = (transition_system r m).0
apply (replace c now) m = replace_component c now m

unfoldable pub run : List Call → Manager → Manager
run [] m = m
run (c ∷ cs) m = run cs (apply c m)
