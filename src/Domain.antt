-- ===== src/Domain.antt =====
-- rci/domain/enums.py: the enumerations that the modelled subsystems share, and what a raise of
-- rci/domain/errors.py carries.
use mathlib.Core.List.{Memᴰ}
use robotic_character_interf.Base.{
  Bool-cases, String, ◌≡◌, true, false, inl, inr, arith, ℕ, Bool, false, ◌||◌, List, [], ◌∷◌, ◌==◌,
}

pub data SystemState : Type 0 where
  boot self_test calibrating idle armed executing degraded fault estop shutdown : SystemState

pub data MotionDecision : Type 0 where
  approve reject estop : MotionDecision

pub data SafetySeverity : Type 0 where
  info warning critical : SafetySeverity

-- Enum members are compared by identity; their positions tell them apart.
abbrev pub state_index : SystemState → ℕ
state_index SystemState.boot = 0
state_index SystemState.self_test = 1
state_index SystemState.calibrating = 2
state_index SystemState.idle = 3
state_index SystemState.armed = 4
state_index SystemState.executing = 5
state_index SystemState.degraded = 6
state_index SystemState.fault = 7
state_index SystemState.estop = 8
state_index SystemState.shutdown = 9

-- `state in states`, for a frozenset of states.
abbrev pub in_states : SystemState → List SystemState → Bool
in_states s [] = false
in_states s (t ∷ ts) = state_index s == state_index t || in_states s ts

-- `state.value`
abbrev pub state_value : SystemState → String
state_value SystemState.boot = "BOOT"
state_value SystemState.self_test = "SELF_TEST"
state_value SystemState.calibrating = "CALIBRATING"
state_value SystemState.idle = "IDLE"
state_value SystemState.armed = "ARMED"
state_value SystemState.executing = "EXECUTING"
state_value SystemState.degraded = "DEGRADED"
state_value SystemState.fault = "FAULT"
state_value SystemState.estop = "ESTOP"
state_value SystemState.shutdown = "SHUTDOWN"

state_index-injective : (s t : SystemState) → state_index s ≡ state_index t → s ≡ t
state_index-injective s t h = ground arith

pub Memᴰ_of_in_states :
    (s : SystemState) (ts : List SystemState) → in_states s ts ≡ true → Memᴰ s ts
Memᴰ_of_in_states s [] h = cc
Memᴰ_of_in_states s (t ∷ ts) h = elim (Bool-cases (state_index s == state_index t)) [
  | inl e ↦ Memᴰ.head (state_index-injective s t (ground arith))
  | inr n ↦ Memᴰ.tail (Memᴰ_of_in_states s ts (ground arith))
]

pub in_states_of_Memᴰ :
    (s : SystemState) {ts : List SystemState} → Memᴰ s ts → in_states s ts ≡ true
in_states_of_Memᴰ s (Memᴰ.head e) = ground arith
in_states_of_Memᴰ s (Memᴰ.tail m) = ground (arith, in_states_of_Memᴰ s m)
