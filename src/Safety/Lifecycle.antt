-- ===== src/Safety/Lifecycle.antt =====
-- rci/safety/lifecycle.py: the latched E-stop and watchdog controller. A method returns the new
-- snapshot, which the source both stores and returns.
pub mod Invariant
pub mod Latch
pub mod Freshness
use robotic_character_interf.Base.{
  ℕ, ◌+◌, Bool, true, false, not, ◌&&◌, ◌||◌, Option, none, some, List, [], ◌∷◌, ◌++◌, ◌==◌,
  if◌then◌else◌,
}
use robotic_character_interf.Base.Float.{Float, isfinite, lt, zero_f}
use robotic_character_interf.Base.Message.{Message, say, lit, text, num}
use robotic_character_interf.Base.Text.{strip}

pub data SafetyStopCause : Type 0 where
  hardware_estop software_estop watchdog_timeout watchdog_invalid : SafetyStopCause

pub data SafetyResetDenial : Type 0 where
  no_latch physical_estop_active watchdog_not_armed watchdog_unhealthy : SafetyResetDenial

pub record SafetyLifecyclePolicy : Type 0 where
  pub heartbeat_timeout_ms : Float
  pub require_manual_reset : Bool

-- `SafetyLifecyclePolicy.valid`
unfoldable pub lifecycle_policy_valid : SafetyLifecyclePolicy → Bool
lifecycle_policy_valid p =
    isfinite p.heartbeat_timeout_ms && lt zero_f p.heartbeat_timeout_ms && p.require_manual_reset

abbrev pub cause_index : SafetyStopCause → ℕ
cause_index hardware_estop = 0
cause_index software_estop = 1
cause_index watchdog_timeout = 2
cause_index watchdog_invalid = 3

-- A frozenset of causes.
abbrev pub has_cause : SafetyStopCause → List SafetyStopCause → Bool
has_cause c [] = false
has_cause c (x ∷ xs) = cause_index c == cause_index x || has_cause c xs

-- `frozenset((*causes, cause))`
abbrev pub add_cause : SafetyStopCause → List SafetyStopCause → List SafetyStopCause
add_cause c cs = if has_cause c cs then cs else c ∷ cs

pub record SafetyLifecycleSnapshot : Type 0 where
  pub sequence : ℕ
  pub watchdog_armed : Bool
  pub watchdog_healthy : Bool
  pub physical_estop_active : Bool
  pub estop_latched : Bool
  pub causes : List SafetyStopCause
  pub latest_reason : Option Message

-- `SafetyLifecycleSnapshot()`
abbrev pub initial_snapshot : SafetyLifecycleSnapshot
initial_snapshot = record {
  sequence = 0;
  watchdog_armed = false;
  watchdog_healthy = false;
  physical_estop_active = false;
  estop_latched = false;
  causes = [];
  latest_reason = none;
}

-- `SafetyLifecycleSnapshot.motion_blocked`
unfoldable pub motion_blocked : SafetyLifecycleSnapshot → Bool
motion_blocked s =
    s.estop_latched || s.physical_estop_active || not s.watchdog_armed || not s.watchdog_healthy

pub record SafetyResetResult : Type 0 where
  pub cleared : Bool
  pub snapshot : SafetyLifecycleSnapshot
  pub denials : List SafetyResetDenial

-- The keyword arguments of `_commit`; `none` leaves a field as it is.
pub record Changes : Type 0 where
  pub watchdog_armed : Option Bool
  pub watchdog_healthy : Option Bool
  pub physical_estop_active : Option Bool
  pub estop_latched : Option Bool
  pub causes : Option (List SafetyStopCause)
  pub latest_reason : Option Message

abbrev pub no_changes : Changes
no_changes = record {
  watchdog_armed = none;
  watchdog_healthy = none;
  physical_estop_active = none;
  estop_latched = none;
  causes = none;
  latest_reason = none;
}

abbrev pub given_or {ℓ} : {A : Type ℓ} → A → Option A → A
given_or current none = current
given_or current (some new) = new

abbrev pub reason_or : Option Message → Option Message → Option Message
reason_or current none = current
reason_or current (some new) = some new

unfoldable pub commit : Changes → SafetyLifecycleSnapshot → SafetyLifecycleSnapshot
commit k current = record {
  sequence = current.sequence + 1;
  watchdog_armed = given_or current.watchdog_armed k.watchdog_armed;
  watchdog_healthy = given_or current.watchdog_healthy k.watchdog_healthy;
  physical_estop_active = given_or current.physical_estop_active k.physical_estop_active;
  estop_latched = given_or current.estop_latched k.estop_latched;
  causes = given_or current.causes k.causes;
  latest_reason = reason_or current.latest_reason k.latest_reason;
}

unfoldable pub latch :
    SafetyStopCause
    → Message
    → Option Bool
    → Option Bool
    → SafetyLifecycleSnapshot
    → SafetyLifecycleSnapshot
unfolding commit
latch cause reason watchdog_healthy physical s =
    commit
      (record no_changes {
        estop_latched = some true;
        causes = some (add_cause cause s.causes);
        latest_reason = some reason;
        watchdog_healthy = watchdog_healthy;
        physical_estop_active = physical;
      })
      s

unfoldable pub arm_watchdog : SafetyLifecycleSnapshot → SafetyLifecycleSnapshot
unfolding commit
arm_watchdog s =
    if s.watchdog_armed
    then s
    else commit (record no_changes { watchdog_armed = some true; watchdog_healthy = some false }) s

unfoldable pub disarm_watchdog : SafetyLifecycleSnapshot → SafetyLifecycleSnapshot
unfolding commit
disarm_watchdog s =
    if not s.watchdog_armed && not s.watchdog_healthy
    then s
    else commit (record no_changes { watchdog_armed = some false; watchdog_healthy = some false }) s

unfoldable pub observe_heartbeat_age :
    SafetyLifecyclePolicy → Float → SafetyLifecycleSnapshot → SafetyLifecycleSnapshot
unfolding latch
observe_heartbeat_age policy age s =
    if not s.watchdog_armed
    then s
    else if not (isfinite age) || lt age zero_f
    then latch watchdog_invalid (say "watchdog heartbeat age must be finite and non-negative")
        (some false) none s
    else if lt policy.heartbeat_timeout_ms age
    then latch watchdog_timeout
        (lit "watchdog heartbeat age "
          ∷ num age
          ∷ lit " ms exceeds timeout "
          ∷ num policy.heartbeat_timeout_ms
          ∷ lit " ms"
          ∷ [])
        (some false) none s
    else if s.watchdog_healthy
    then s
    else commit (record no_changes { watchdog_healthy = some true }) s

unfoldable pub set_physical_estop : Bool → SafetyLifecycleSnapshot → SafetyLifecycleSnapshot
unfolding latch
set_physical_estop active s =
    if active
    then latch hardware_estop (say "physical emergency stop asserted") none (some true) s
    else if not s.physical_estop_active
    then s
    else commit (record no_changes { physical_estop_active = some false }) s

-- `reason.strip() or "software emergency stop requested"`
abbrev pub normalized_reason : List ℕ → Message
normalized_reason [] = say "software emergency stop requested"
normalized_reason (c ∷ s) = text (c ∷ s) ∷ []

unfoldable pub trigger_software_estop : List ℕ → SafetyLifecycleSnapshot → SafetyLifecycleSnapshot
unfolding latch
trigger_software_estop reason s =
    latch software_estop (normalized_reason (strip reason)) none none s

-- The denials that the three tests of a latched snapshot append.
abbrev reset_denials : SafetyLifecycleSnapshot → List SafetyResetDenial
reset_denials s =
    (if s.physical_estop_active then SafetyResetDenial.physical_estop_active ∷ [] else [])
    ++ (if not s.watchdog_armed
        then watchdog_not_armed ∷ []
        else if not s.watchdog_healthy
        then watchdog_unhealthy ∷ []
        else [])

-- The end of `request_manual_reset`, by whether there are denials.
abbrev clear_or_deny : List SafetyResetDenial → SafetyLifecycleSnapshot → SafetyResetResult
clear_or_deny (x ∷ xs) s = record { cleared = false; snapshot = s; denials = x ∷ xs }
clear_or_deny [] s = record {
  cleared = true;
  snapshot =
      commit
        (record no_changes {
          estop_latched = some false;
          causes = some [];
          latest_reason = some (say "manual emergency-stop reset completed");
        })
        s;
  denials = [];
}

unfoldable pub request_manual_reset : SafetyLifecycleSnapshot → SafetyResetResult
unfolding commit
request_manual_reset s =
    if not s.estop_latched
    then record { cleared = false; snapshot = s; denials = no_latch ∷ [] }
    else clear_or_deny (reset_denials s) s
