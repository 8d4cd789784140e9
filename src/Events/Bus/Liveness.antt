-- ===== src/Events/Bus/Liveness.antt =====
-- rci/events/bus.py: the workers, when nothing is published and nothing stops them any more.
use robotic_character_interf.Base.{
  ℕ, ◌+◌, ◌≤◌, ◌≡◌, refl, ap, ◌∙◌, arith, Bool, Option, none, some, List, [], ◌∷◌, ◌++◌, if_both,
}
use robotic_character_interf.Base.Lists.{length, length-append}
use robotic_character_interf.Events.Bus.{
  EventBus, Event, Entry, Dispatch, RegisteredHandler, HandlerOutcome, make_bus, take_first,
  continue_with, take_event, continue_dispatch, has,
}
use robotic_character_interf.Events.Bus.Invariant.{Step, run, takes, continues, or_same, IsSound}
use robotic_character_interf.Events.Bus.Runs.{run-IsSound, step-IsSound}
use robotic_character_interf.Events.Bus.Schedule.{
  Choice, Call, spun, taken, continued, first_of, with_calls, outcome_of, calls_of, turn,
  turn_first, work, count_calls, owed_busy, owed_queue, owed, any_call, turns_left,
}
use robotic_character_interf.Events.Bus.Spins.{length-spin, owed_busy-spin, spun-IsSound}
use robotic_character_interf.Events.Bus.Turns.{IsTurned, take_turn, busy_turn}

-- Of a turn that can be made.
abbrev Holds : (List Call × EventBus → Type 0) → Option (List Call × EventBus) → Type 0
Holds P none = Unit
Holds P (some r) = P r

first_of_holds :
    (P : List Call × EventBus → Type 0) (x y : Option (List Call × EventBus)) (b : EventBus)
    → Holds P x
    → Holds P y
    → (x ≡ none → y ≡ none → P ([], b))
    → P (first_of x y b)
first_of_holds P (some r) y b px py stuck = px
first_of_holds P none (some r) b px py stuck = py
first_of_holds P none none b px py stuck = stuck refl refl

turn_holds :
    (P : List Call × EventBus → Type 0) (is_a : ℕ → ℕ → Bool) (c : Choice) (b : EventBus)
    → Holds P (taken is_a b)
    → Holds P (continued c b)
    → (taken is_a b ≡ none → continued c b ≡ none → P ([], b))
    → P (turn_first is_a c b)
turn_holds P is_a c b pt pc stuck =
    if_both P c.takes (first_of_holds P (taken is_a b) (continued c b) b pt pc stuck)
      (first_of_holds P (continued c b) (taken is_a b) b pc pt (λ hc ht. stuck ht hc))

sound_calls :
    (calls : List Call) (b : EventBus) (o : Option EventBus)
    → IsSound (or_same b o)
    → Holds (λ r. IsSound r.1) (with_calls calls o)
sound_calls calls b none s = tt
sound_calls calls b (some c) s = s

turn-IsSound :
    (is_a : ℕ → ℕ → Bool) (c : Choice) (b : EventBus) → IsSound b → IsSound (turn is_a c b).1
turn-IsSound is_a c b s =
    let b' = spun c b in
    let s' = spun-IsSound c b s in
    turn_holds (λ r. IsSound r.1) is_a c b'
      (sound_calls [] b' (take_event is_a b') (step-IsSound is_a takes b' s'))
      (sound_calls (calls_of b'.busy) b' (continue_dispatch (outcome_of c.failure) b')
        (step-IsSound is_a (continues (outcome_of c.failure)) b' s'))
      (λ ht hc. s')

no_element {ℓ} : {A : Type ℓ} (xs : List A) → length xs ≡ 0 → xs ≡ []
no_element [] h = refl
no_element (x ∷ xs) h = absurd (omega (arith, h))

continue_with-some :
    (calls : List Call) (o : HandlerOutcome) (b : EventBus) (busy : List Dispatch)
    → with_calls calls (continue_with o b busy) ≡ none
    → length busy ≡ 0
continue_with-some calls o b [] h = refl
continue_with-some calls o b (d ∷ busy) h = absurd (ground (arith, h))

take_first-some :
    (is_a : ℕ → ℕ → Bool) (b : EventBus) (idle : List ℕ) (queue : List Entry)
    → b.cancelled ≡ []
    → 1 ≤ length idle
    → with_calls [] (take_first is_a b idle queue) ≡ none
    → length queue ≡ 0
take_first-some is_a b [] queue calm some_idle h = absurd (omega (arith, some_idle))
take_first-some is_a b (w ∷ idle) [] calm some_idle h = refl
take_first-some is_a b (w ∷ idle) (e ∷ queue) calm some_idle h =
    absurd (ground (arith, h, ap (has w) calm))

nothing_left :
    (is_a : ℕ → ℕ → Bool) (b : EventBus)
    → length b.busy ≡ 0
    → length b.queue ≡ 0
    → turns_left is_a b ≡ 0
nothing_left is_a b idle empty = omega (
  arith,
  idle,
  empty,
  ap (owed_busy any_call) (no_element b.busy idle),
  ap (owed_queue any_call is_a b.handlers) (no_element b.queue empty),
)

first-IsTurned :
    (is_a : ℕ → ℕ → Bool) (c : Choice) (b : EventBus)
    → b.cancelled ≡ []
    → 1 ≤ length b.idle + length b.busy
    → IsTurned is_a b (turn_first is_a c b)
unfolding take_event continue_dispatch
first-IsTurned is_a c b calm some_live =
    turn_holds (IsTurned is_a b) is_a c b (take_turn is_a b b.idle b.queue refl refl)
      (busy_turn is_a c b b.busy refl calm)
      (λ ht hc.
        let idle = continue_with-some (calls_of b.busy) (outcome_of c.failure) b b.busy hc in
        let empty =
          take_first-some is_a b b.idle b.queue calm (omega (arith, some_live, idle)) ht in
        record {
          fewer = omega (arith, nothing_left is_a b idle empty);
          kept = λ q. omega arith;
          counted = omega arith;
          live = refl;
          calm = refl;
        })

turn-IsTurned :
    (is_a : ℕ → ℕ → Bool) (c : Choice) (b : EventBus)
    → b.cancelled ≡ []
    → 1 ≤ length b.idle + length b.busy
    → IsTurned is_a b (turn is_a c b)
turn-IsTurned is_a c b calm some_live =
    let idle = length-spin c.idle_spins b.idle in
    let busy = length-spin c.busy_spins b.busy in
    let t = first-IsTurned is_a c (spun c b) calm (omega (arith, idle, busy, some_live)) in
    record {
      fewer = omega (arith, t.fewer, busy, owed_busy-spin any_call c.busy_spins b.busy);
      kept = λ q. omega (arith, t.kept q, owed_busy-spin q c.busy_spins b.busy);
      counted = omega (arith, t.counted);
      live = omega (arith, t.live, idle, busy);
      calm = t.calm;
    }

-- All is done, by these calls: each that was owed has been made, once, and counted.
pub record IsDrained (is_a : ℕ → ℕ → Bool) (b : EventBus) (r : List Call × EventBus) : Type 0 where
  pub empty : r.1.queue ≡ []
  pub idle : r.1.busy ≡ []
  pub finished : r.1.unfinished ≡ 0
  pub each_once : (q : Event → RegisteredHandler → Bool) → count_calls q r.0 ≡ owed q is_a b
  pub all_counted :
      r.1.delivered + r.1.handler_failures ≡ b.delivered + b.handler_failures + length r.0

IsDrained-now :
    (is_a : ℕ → ℕ → Bool) (b : EventBus)
    → turns_left is_a b ≡ 0
    → IsSound b
    → IsDrained is_a b ([], b)
IsDrained-now is_a b none_left s =
    let busy = no_element b.busy (omega (arith, none_left)) in
    let queue = no_element b.queue (omega (arith, none_left)) in
    record {
      empty = queue;
      idle = busy;
      finished = omega (arith, none_left, s.accounted);
      each_once =
          λ q. omega (arith, ap (owed_busy q) busy, ap (owed_queue q is_a b.handlers) queue);
      all_counted = omega arith;
    }

count_calls-append :
    (q : Event → RegisteredHandler → Bool) (xs ys : List Call)
    → count_calls q (xs ++ ys) ≡ count_calls q xs + count_calls q ys
count_calls-append q [] ys = omega arith
count_calls-append q ((event, h) ∷ xs) ys = omega (arith, count_calls-append q xs ys)

work-IsDrained_from :
    (is_a : ℕ → ℕ → Bool) (schedule : List Choice) (b : EventBus)
    → b.cancelled ≡ []
    → 1 ≤ length b.idle + length b.busy
    → turns_left is_a b ≤ length schedule
    → IsSound b
    → IsDrained is_a b (work is_a schedule b)
work-IsDrained_from is_a [] b calm some_live enough s =
    IsDrained-now is_a b (omega (arith, enough)) s
work-IsDrained_from is_a (c ∷ schedule) b calm some_live enough s =
    let t = turn-IsTurned is_a c b calm some_live in
    let done = (turn is_a c b).0 in
    let later = (work is_a schedule (turn is_a c b).1).0 in
    let r =
      work-IsDrained_from is_a schedule (turn is_a c b).1 (t.calm ∙ calm)
        (omega (arith, t.live, some_live)) (omega (arith, t.fewer, enough))
        (turn-IsSound is_a c b s) in
    record {
      empty = r.empty;
      idle = r.idle;
      finished = r.finished;
      each_once = λ q. omega (arith, r.each_once q, t.kept q, count_calls-append q done later);
      all_counted = omega (arith, r.all_counted, t.counted, length-append done later);
    }

-- A bus in any state that is reached by steps from its construction, with a task that lives and none
-- that is cancelled, and from there on alone with its workers: whichever worker goes on and
-- whichever takes an event in each turn, and whichever of the handlers fail, after as many turns as
-- there are calls to make, dispatches to end and twice the events in the queue (or more turns), the
-- queue is empty, no worker is busy and nothing is left that `join` waits for. The calls that were
-- made are those that were owed, each the same number of times, whatever is asked of the event and
-- the handler: of the handlers that were left in a dispatch one each, and of each queued event one
-- for each subscription to one of its classes. Each call is counted as delivered or as a failure.
-- No handler ends with a CancelledError, and no subscription is made or removed meanwhile.
pub work-IsDrained :
    (is_a : ℕ → ℕ → Bool) (schedule : List Choice) (queue_size worker_count history : ℕ)
    (new : EventBus) (steps : List Step)
    → make_bus queue_size worker_count history ≡ some new
    → (run is_a steps new).cancelled ≡ []
    → 1 ≤ length (run is_a steps new).idle + length (run is_a steps new).busy
    → turns_left is_a (run is_a steps new) ≤ length schedule
    → IsDrained is_a (run is_a steps new) (work is_a schedule (run is_a steps new))
work-IsDrained is_a schedule queue_size worker_count history new steps made calm some_live enough =
    work-IsDrained_from is_a schedule (run is_a steps new) calm some_live enough
      (run-IsSound is_a queue_size worker_count history new steps made)
