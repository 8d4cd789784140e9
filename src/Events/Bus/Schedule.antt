-- ===== src/Events/Bus/Schedule.antt =====
-- rci/events/bus.py: the workers alone, in the order that a schedule gives, and the calls that they
-- make of handlers.
use robotic_character_interf.Base.{
  ℕ, zero, suc, ◌+◌, Bool, true, ◌&&◌, if◌then◌else◌, Option, none, some, List, [], ◌∷◌, ◌++◌,
  String,
}
use robotic_character_interf.Base.Lists.{length}
use robotic_character_interf.Events.Bus.{
  EventBus, Event, Entry, Dispatch, RegisteredHandler, HandlerOutcome, returned, failed, rotated,
  take_event, continue_dispatch,
}
use robotic_character_interf.Events.Bus.Invariant.{one}

-- A turn of a schedule: which of the idle and of the busy workers come first, whether one of the
-- idle takes an event or one of the busy goes on, where both can, and how a handler that ends in
-- this turn ends: it returns, or fails with the type and the message of an exception.
pub record Choice : Type 0 where
  pub idle_spins : ℕ
  pub busy_spins : ℕ
  pub takes : Bool
  pub failure : Option (String × String)

abbrev pub Call : Type 0
Call = Event × RegisteredHandler

abbrev pub outcome_of : Option (String × String) → HandlerOutcome
outcome_of none = returned
outcome_of (some (error_type, message)) = failed error_type message

-- The call that the first of the busy workers is in, when it goes on.
abbrev pub call_of : Event → List RegisteredHandler → List Call
call_of event [] = []
call_of event (h ∷ matched) = (event, h) ∷ []

abbrev pub calls_of : List Dispatch → List Call
calls_of [] = []
calls_of (d ∷ busy) = call_of d.event d.matched

abbrev pub with_calls : List Call → Option EventBus → Option (List Call × EventBus)
with_calls calls none = none
with_calls calls (some b) = some (calls, b)

abbrev pub first_of :
    Option (List Call × EventBus) → Option (List Call × EventBus) → EventBus → List Call × EventBus
first_of (some r) later b = r
first_of none (some r) b = r
first_of none none b = ([], b)

abbrev pub spin {ℓ} : {A : Type ℓ} → ℕ → List A → List A
spin zero xs = xs
spin (suc n) xs = spin n (rotated xs)

abbrev pub spun : Choice → EventBus → EventBus
spun c b = record b { idle = spin c.idle_spins b.idle; busy = spin c.busy_spins b.busy }

abbrev pub taken : (ℕ → ℕ → Bool) → EventBus → Option (List Call × EventBus)
taken is_a b = with_calls [] (take_event is_a b)

abbrev pub continued : Choice → EventBus → Option (List Call × EventBus)
continued c b = with_calls (calls_of b.busy) (continue_dispatch (outcome_of c.failure) b)

abbrev pub turn_first : (ℕ → ℕ → Bool) → Choice → EventBus → List Call × EventBus
turn_first is_a c b =
    if c.takes
    then first_of (taken is_a b) (continued c b) b
    else first_of (continued c b) (taken is_a b) b

abbrev pub turn : (ℕ → ℕ → Bool) → Choice → EventBus → List Call × EventBus
turn is_a c b = turn_first is_a c (spun c b)

-- The calls in their order, and the bus after the schedule.
abbrev pub work : (ℕ → ℕ → Bool) → List Choice → EventBus → List Call × EventBus
work is_a [] b = ([], b)
work is_a (c ∷ schedule) b =
    let r = turn is_a c b in let later = work is_a schedule r.1 in (r.0 ++ later.0, later.1)

-- How many of the calls a test picks.
abbrev pub count_calls : (Event → RegisteredHandler → Bool) → List Call → ℕ
count_calls q [] = 0
count_calls q ((event, h) ∷ calls) = one (q event h) + count_calls q calls

abbrev pub count_handlers_of :
    (Event → RegisteredHandler → Bool) → Event → List RegisteredHandler → ℕ
count_handlers_of q event [] = 0
count_handlers_of q event (h ∷ hs) = one (q event h) + count_handlers_of q event hs

-- The calls that the dispatches still owe.
abbrev pub owed_busy : (Event → RegisteredHandler → Bool) → List Dispatch → ℕ
owed_busy q [] = 0
owed_busy q (d ∷ busy) = count_handlers_of q d.event d.matched + owed_busy q busy

-- A subscription of the class `k` is to be called for an event that is of this class.
abbrev pub owed_class :
    (Event → RegisteredHandler → Bool) → (ℕ → ℕ → Bool) → Event → ℕ → List RegisteredHandler → ℕ
owed_class q is_a event k [] = 0
owed_class q is_a event k (h ∷ hs) =
    one (is_a event.event_class k && q event h) + owed_class q is_a event k hs

abbrev pub owed_event :
    (Event → RegisteredHandler → Bool)
    → (ℕ → ℕ → Bool)
    → Event
    → List (ℕ × List RegisteredHandler)
    → ℕ
owed_event q is_a event [] = 0
owed_event q is_a event ((k, hs) ∷ table) =
    owed_class q is_a event k hs + owed_event q is_a event table

abbrev pub owed_queue :
    (Event → RegisteredHandler → Bool)
    → (ℕ → ℕ → Bool)
    → List (ℕ × List RegisteredHandler)
    → List Entry
    → ℕ
owed_queue q is_a table [] = 0
owed_queue q is_a table (e ∷ queue) =
    owed_event q is_a e.event table + owed_queue q is_a table queue

-- The calls that are still to be made: one of each handler that is left in a dispatch, and, for each
-- queued event, one of each subscription to one of its classes.
abbrev pub owed : (Event → RegisteredHandler → Bool) → (ℕ → ℕ → Bool) → EventBus → ℕ
owed q is_a b = owed_busy q b.busy + owed_queue q is_a b.handlers b.queue

abbrev pub any_call : Event → RegisteredHandler → Bool
any_call event h = true

-- The turns that are left: one for each call, one for the end of each dispatch and one for each
-- event that is to be taken.
abbrev pub turns_left : (ℕ → ℕ → Bool) → EventBus → ℕ
turns_left is_a b = owed any_call is_a b + length b.busy + (length b.queue + length b.queue)
