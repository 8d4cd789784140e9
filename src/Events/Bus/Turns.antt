-- ===== src/Events/Bus/Turns.antt =====
-- rci/events/bus.py: one turn of the workers.
use robotic_character_interf.Base.{
  inr, inl, Bool-cases, ℕ, ◌+◌, ◌-◌, ◌≤◌, ◌≡◌, refl, sym, ap, ◌∙◌, arith, Bool, true, false, Option,
  none, some, List, [], ◌∷◌, ◌++◌, String, if_both,
}
use robotic_character_interf.Base.Lists.{length, length-append}
use robotic_character_interf.Events.Bus.{
  EventBus, Event, Entry, Dispatch, RegisteredHandler, matching, dispatch_of, take_first,
  continue_with, after_handler, record_handler_failure, has, remove,
}
use robotic_character_interf.Events.Bus.Invariant.{one}
use robotic_character_interf.Events.Bus.Schedule.{
  Choice, Call, count_calls, count_handlers_of, owed_busy, owed_class, owed_event, owed_queue, owed,
  any_call, turns_left, outcome_of, call_of, calls_of, with_calls,
}

-- What a turn does: it takes one off the turns that are left, makes calls that were owed, and counts
-- each of them as delivered or failed. As many tasks live as before, and none is cancelled.
pub record IsTurned (is_a : ℕ → ℕ → Bool) (b : EventBus) (r : List Call × EventBus) : Type 0 where
  pub fewer : turns_left is_a r.1 ≤ turns_left is_a b - 1
  pub kept :
      (q : Event → RegisteredHandler → Bool) → count_calls q r.0 + owed q is_a r.1 ≡ owed q is_a b
  pub counted : r.1.delivered + r.1.handler_failures ≡ b.delivered + b.handler_failures + length r.0
  pub live : length r.1.idle + length r.1.busy ≡ length b.idle + length b.busy
  pub calm : r.1.cancelled ≡ b.cancelled

-- A turn that can be made has been, or nothing changes.
abbrev pub Turned : (ℕ → ℕ → Bool) → EventBus → Option (List Call × EventBus) → Type 0
Turned is_a b none = Unit
Turned is_a b (some r) = IsTurned is_a b r

pub owed_busy-append :
    (q : Event → RegisteredHandler → Bool) (xs ys : List Dispatch)
    → owed_busy q (xs ++ ys) ≡ owed_busy q xs + owed_busy q ys
owed_busy-append q [] ys = omega arith
owed_busy-append q (d ∷ xs) ys = omega (arith, owed_busy-append q xs ys)

count_handlers_of-append :
    (q : Event → RegisteredHandler → Bool) (event : Event) (xs ys : List RegisteredHandler)
    → count_handlers_of q event (xs ++ ys)
      ≡ count_handlers_of q event xs + count_handlers_of q event ys
count_handlers_of-append q event [] ys = omega arith
count_handlers_of-append q event (h ∷ xs) ys = omega (arith, count_handlers_of-append q event xs ys)

owed_class-true :
    (q : Event → RegisteredHandler → Bool) (is_a : ℕ → ℕ → Bool) (event : Event) (k : ℕ)
    (hs : List RegisteredHandler)
    → is_a event.event_class k ≡ true
    → owed_class q is_a event k hs ≡ count_handlers_of q event hs
owed_class-true q is_a event k [] e = refl
owed_class-true q is_a event k (h ∷ hs) e =
    rw e (ap (λ n. one (q event h) + n) (owed_class-true q is_a event k hs e))

owed_class-false :
    (q : Event → RegisteredHandler → Bool) (is_a : ℕ → ℕ → Bool) (event : Event) (k : ℕ)
    (hs : List RegisteredHandler)
    → is_a event.event_class k ≡ false
    → owed_class q is_a event k hs ≡ 0
owed_class-false q is_a event k [] e = refl
owed_class-false q is_a event k (h ∷ hs) e =
    rw e (omega (arith, owed_class-false q is_a event k hs e))

-- The handlers that a dispatch collects are those of the subscriptions to the event's classes.
count-matching :
    (q : Event → RegisteredHandler → Bool) (is_a : ℕ → ℕ → Bool) (event : Event)
    (table : List (ℕ × List RegisteredHandler))
    → count_handlers_of q event (matching is_a event.event_class table)
      ≡ owed_event q is_a event table
count-matching q is_a event [] = refl
count-matching q is_a event ((k, hs) ∷ table) =
    let rest = matching is_a event.event_class table in
    let later = count-matching q is_a event table in
    elim (Bool-cases (is_a event.event_class k)) [
      | inl yes_it ↦ rw yes_it (
          omega (
            arith,
            later,
            owed_class-true q is_a event k hs yes_it,
            count_handlers_of-append q event hs rest,
          ))
      | inr not_it ↦ rw not_it (omega (arith, later, owed_class-false q is_a event k hs not_it))
    ]

pub take_turn :
    (is_a : ℕ → ℕ → Bool) (b : EventBus) (idle : List ℕ) (queue : List Entry)
    → b.idle ≡ idle
    → b.queue ≡ queue
    → Turned is_a b (with_calls [] (take_first is_a b idle queue))
take_turn is_a b [] queue first front = tt
take_turn is_a b (w ∷ idle) [] first front = tt
take_turn is_a b (w ∷ idle) (e ∷ queue) first front =
    let d = dispatch_of is_a w e b in
    if_both (λ r. Turned is_a b (with_calls [] r)) (has w b.cancelled) tt
      (record {
        fewer = omega (
          arith,
          ap length front,
          ap (owed_queue any_call is_a b.handlers) front,
          length-append b.busy (d ∷ []),
          owed_busy-append any_call b.busy (d ∷ []),
          count-matching any_call is_a e.event b.handlers,
        );
        kept = λ q. omega (
          arith,
          ap (owed_queue q is_a b.handlers) front,
          owed_busy-append q b.busy (d ∷ []),
          count-matching q is_a e.event b.handlers,
        );
        counted = omega arith;
        live = omega (arith, ap length first, length-append b.busy (d ∷ []));
        calm = refl;
      })

handler_turn :
    (is_a : ℕ → ℕ → Bool) (r : Option (String × String)) (d : Dispatch) (h : RegisteredHandler)
    (matched : List RegisteredHandler) (busy : List Dispatch) (b : EventBus)
    → b.busy ≡ d ∷ busy
    → d.matched ≡ h ∷ matched
    → b.cancelled ≡ []
    → IsTurned is_a b ((d.event, h) ∷ [], after_handler (outcome_of r) d h matched busy b)
unfolding after_handler record_handler_failure
handler_turn is_a none d h matched busy b front left calm = record {
  fewer = omega (
    arith,
    ap length front,
    ap (owed_busy any_call) front,
    ap (count_handlers_of any_call d.event) left,
  );
  kept = λ q. omega (arith, ap (owed_busy q) front, ap (count_handlers_of q d.event) left);
  counted = omega arith;
  live = omega (arith, ap length front);
  calm = ap (remove d.worker) calm ∙ sym calm;
}
handler_turn is_a (some (error_type, message)) d h matched busy b front left calm = record {
  fewer = omega (
    arith,
    ap length front,
    ap (owed_busy any_call) front,
    ap (count_handlers_of any_call d.event) left,
  );
  kept = λ q. omega (arith, ap (owed_busy q) front, ap (count_handlers_of q d.event) left);
  counted = omega arith;
  live = omega (arith, ap length front);
  calm = ap (remove d.worker) calm ∙ sym calm;
}

dispatch_turn :
    (is_a : ℕ → ℕ → Bool) (c : Choice) (d : Dispatch) (hs : List RegisteredHandler)
    (busy : List Dispatch) (b : EventBus)
    → b.busy ≡ d ∷ busy
    → d.matched ≡ hs
    → b.cancelled ≡ []
    → Turned is_a b
        (with_calls (call_of d.event hs) (continue_with (outcome_of c.failure) b (d ∷ busy)))
dispatch_turn is_a c d [] busy b front left calm = rw left (record {
  fewer = omega (
    arith,
    ap length front,
    ap (owed_busy any_call) front,
    ap (count_handlers_of any_call d.event) left,
  );
  kept = λ q. omega (arith, ap (owed_busy q) front, ap (count_handlers_of q d.event) left);
  counted = omega arith;
  live = omega (arith, ap length front, length-append b.idle (d.worker ∷ []));
  calm = refl;
})
dispatch_turn is_a c d (h ∷ hs) busy b front left calm =
    rw left (handler_turn is_a c.failure d h hs busy b front left calm)

pub busy_turn :
    (is_a : ℕ → ℕ → Bool) (c : Choice) (b : EventBus) (busy : List Dispatch)
    → b.busy ≡ busy
    → b.cancelled ≡ []
    → Turned is_a b (with_calls (calls_of busy) (continue_with (outcome_of c.failure) b busy))
busy_turn is_a c b [] front calm = tt
busy_turn is_a c b (d ∷ busy) front calm = dispatch_turn is_a c d d.matched busy b front refl calm
