-- ===== src/State/Atomicity.antt =====
-- What one call of the manager does on every path, and the history that the bus receives.
use robotic_character_interf.Base.{ℕ, ◌≢◌, ◌+◌, ◌≡◌, refl, true, false, List, [], ◌∷◌, arith}
use robotic_character_interf.Base.Lists.{length}
use robotic_character_interf.Domain.{SystemState}
use robotic_character_interf.State.Models.{SystemSnapshot, StateSnapshot}
use robotic_character_interf.State.{can_transition}
use robotic_character_interf.State.Manager.{
  SystemStateChanged, raised, cancelled, invalid_transition, publish_failed, task_cancelled, Result,
  ok, err, Manager, Request, priority_of, transition_system, Component, replace_component, Call,
  transition, replace, apply, run,
}

-- What is left as it was by a system transition.
abbrev pub SameComponents : StateSnapshot → StateSnapshot → Type 0
SameComponents s t =
    (t.robot ≡ s.robot)
    × (t.gesture ≡ s.gesture)
    × (t.voice ≡ s.voice)
    × (t.character ≡ s.character)
    × (t.safety ≡ s.safety)

-- The contract of one transition, by the way it ends.
abbrev pub Contract : Request → Manager → Manager × Result SystemSnapshot → Type 0
Contract r m (m', ok updated) =
    (can_transition m.snapshot.system.state r.target ≡ true)
    × (m'.snapshot.system ≡ updated)
    × (updated.state ≡ r.target)
    × (updated.sequence ≡ m.snapshot.system.sequence + 1)
    × (m'.snapshot.revision ≡ m.snapshot.revision + 1)
    × SameComponents m.snapshot m'.snapshot
    × (m'.published
        ≡ record {
          source = r.source;
          previous_state = m.snapshot.system.state;
          current_state = r.target;
          reason = r.reason;
          priority = priority_of r.target;
        }
          ∷ m.published)
Contract r m (m', err (invalid_transition a b)) =
    (can_transition m.snapshot.system.state r.target ≡ false) × (m' ≡ m)
Contract r m (m', err publish_failed) = (r.outcome ≡ raised) × (m' ≡ m)
Contract r m (m', err task_cancelled) =
    (r.outcome ≡ cancelled) × (m'.snapshot.system.state ≡ r.target) × (m'.published ≡ m.published)

-- Every call of `transition_system` ends in one of four ways. A success is a legal transition: it
-- installs the returned system snapshot with the target state, adds one to the sequence and to the
-- revision, leaves the other five components alone and publishes exactly one event for it. An
-- illegal target, and a bus that raises, leave the snapshot and the published events as they were.
-- A cancelled publication leaves the new state in place and publishes nothing.
pub transition_system-Contract : (r : Request) (m : Manager) → Contract r m (transition_system r m)
unfolding transition_system
transition_system-Contract r m = ground arith

-- No call of the list has its publication cancelled.
abbrev pub NoneCancelled : List Call → Type 0
NoneCancelled [] = Unit
NoneCancelled (transition r ∷ cs) = (r.outcome ≢ cancelled) × NoneCancelled cs
NoneCancelled (replace c now ∷ cs) = NoneCancelled cs

-- The events, newest first, are the steps of a legal path from one state to another.
abbrev pub IsPath : SystemState → List SystemStateChanged → SystemState → Type 0
IsPath start [] last = start ≡ last
IsPath start (e ∷ es) last =
    (e.current_state ≡ last)
    × (can_transition e.previous_state e.current_state ≡ true)
    × IsPath start es e.previous_state

record IsRecorded (start : StateSnapshot) (m : Manager) : Type 0 where
  path : IsPath start.system.state m.published m.snapshot.system.state
  counted : m.snapshot.system.sequence ≡ start.system.sequence + length m.published

transition-IsRecorded :
    (start : StateSnapshot) (r : Request) (m : Manager)
    → r.outcome ≢ cancelled
    → IsRecorded start m
    → IsRecorded start (transition_system r m).0
unfolding transition_system
transition-IsRecorded start r m h rec = ground arith

replace-IsRecorded :
    (start : StateSnapshot) (c : Component) (now : ℕ) (m : Manager)
    → IsRecorded start m
    → IsRecorded start (replace_component c now m)
unfolding replace_component
replace-IsRecorded start c now m rec = ground arith

run-IsRecorded :
    (start : StateSnapshot) (cs : List Call) (m : Manager)
    → NoneCancelled cs
    → IsRecorded start m
    → IsRecorded start (run cs m)
unfolding run apply
run-IsRecorded start [] m h rec = rec
run-IsRecorded start (transition r ∷ cs) m h rec =
    run-IsRecorded start cs (transition_system r m).0 h.1 (transition-IsRecorded start r m h.0 rec)
run-IsRecorded start (replace c now ∷ cs) m h rec =
    run-IsRecorded start cs (replace_component c now m) h (replace-IsRecorded start c now m rec)

-- A manager that has not yet published anything.
abbrev pub fresh : StateSnapshot → Manager
fresh s = record { snapshot = s; published = [] }

-- After any calls on a new manager, none of them with its publication cancelled, the published
-- events are exactly the steps of a legal path from the initial system state to the present one,
-- and the sequence number has grown by their number.
pub published-IsPath :
    (start : StateSnapshot) (cs : List Call)
    → NoneCancelled cs
    → let m = run cs (fresh start) in
      IsPath start.system.state m.published m.snapshot.system.state
      × (m.snapshot.system.sequence ≡ start.system.sequence + length m.published)
published-IsPath start cs h =
    let rec =
      run-IsRecorded start cs (fresh start) h (record { path = refl; counted = omega arith }) in
    (rec.path, rec.counted)
