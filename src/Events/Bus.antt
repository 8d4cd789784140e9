-- ===== src/Events/Bus.antt =====
-- rci/events/bus.py and handlers.py: the bounded bus. What runs between two awaits is one function;
-- the workers' tasks that live, and the dispatches that they are in the middle of, are part of the
-- state. A task is a number, in the order of creation. A class of events is a number, and `is_a`
-- tells of which other classes it is a subclass; how a handler ends is an argument.
pub mod Invariant
pub mod Steps
pub mod Runs
pub mod Schedule
pub mod Turns
pub mod Spins
pub mod Liveness
use robotic_character_interf.Base.{
  ℕ, zero, suc, ◌+◌, ◌-◌, Bool, true, false, not, ◌&&◌, ◌||◌, String, Option, none, some, List, [],
  ◌∷◌, ◌++◌, ◌==◌, ltb, leb, if◌then◌else◌,
}
use robotic_character_interf.Base.Lists.{length, drop}
use robotic_character_interf.State.Manager.{EventPriority, critical, high, normal, low}

-- `int(priority)`
abbrev pub priority_value : EventPriority → ℕ
priority_value critical = 0
priority_value high = 10
priority_value normal = 20
priority_value low = 30

pub record Event : Type 0 where
  pub event_id : ℕ
  pub event_type : String
  pub event_class : ℕ

pub record Subscription : Type 0 where
  pub subscription_id : ℕ
  pub event_class : ℕ

pub record RegisteredHandler : Type 0 where
  pub subscription_id : ℕ
  pub handler_name : String

pub record HandlerFailure : Type 0 where
  pub event_id : ℕ
  pub event_type : String
  pub subscription_id : ℕ
  pub handler_name : String
  pub error_type : String
  pub message : String

-- An item of the priority queue, which the event itself never decides the order of.
pub record Entry : Type 0 where
  pub priority : ℕ
  pub sequence : ℕ
  pub event : Event

-- A worker's dispatch: the event, and the handlers that it is still to be given to.
pub record Dispatch : Type 0 where
  pub worker : ℕ
  pub event : Event
  pub matched : List RegisteredHandler

-- `workers` is `self._workers`. The tasks that live wait for an event (`idle`) or are in a dispatch
-- (`busy`), whether or not `self._workers` has them; `cancelled` are those of them that have a
-- CancelledError coming.
pub record EventBus : Type 0 where
  pub queue_size : ℕ
  pub worker_count : ℕ
  pub failure_history_size : ℕ
  pub queue : List Entry
  pub unfinished : ℕ
  pub handlers : List (ℕ × List RegisteredHandler)
  pub workers : List ℕ
  pub idle : List ℕ
  pub busy : List Dispatch
  pub cancelled : List ℕ
  pub tasks : ℕ
  pub sequence : ℕ
  pub running : Bool
  pub published : ℕ
  pub delivered : ℕ
  pub handler_failures : ℕ
  pub rejected_full : ℕ
  pub failures : List HandlerFailure

-- The construction; `none` is its `ValueError`.
unfoldable pub make_bus : ℕ → ℕ → ℕ → Option EventBus
make_bus queue_size worker_count failure_history_size =
    if queue_size == 0
    then none
    else if worker_count == 0
    then none
    else if failure_history_size == 0
    then none
    else some (record {
      queue_size = queue_size;
      worker_count = worker_count;
      failure_history_size = failure_history_size;
      queue = [];
      unfinished = 0;
      handlers = [];
      workers = [];
      idle = [];
      busy = [];
      cancelled = [];
      tasks = 0;
      sequence = 0;
      running = false;
      published = 0;
      delivered = 0;
      handler_failures = 0;
      rejected_full = 0;
      failures = [];
    })

-- The tasks that `create_task` makes.
abbrev pub new_tasks : ℕ → ℕ → List ℕ
new_tasks first zero = []
new_tasks first (suc n) = first ∷ new_tasks (suc first) n

unfoldable pub start : EventBus → EventBus
start b = if b.running then b else record b {
  running = true;
  workers = new_tasks b.tasks b.worker_count;
  idle = b.idle ++ new_tasks b.tasks b.worker_count;
  tasks = b.tasks + b.worker_count;
}

abbrev pub has : ℕ → List ℕ → Bool
has w [] = false
has w (v ∷ tasks) = v == w || has w tasks

abbrev pub remove : ℕ → List ℕ → List ℕ
remove w [] = []
remove w (v ∷ tasks) = let rest = remove w tasks in if v == w then rest else v ∷ rest

abbrev pub in_dispatch : ℕ → List Dispatch → Bool
in_dispatch w [] = false
in_dispatch w (d ∷ busy) = d.worker == w || in_dispatch w busy

-- Those of the tasks that have not ended.
abbrev pub living : EventBus → List ℕ → List ℕ
living b [] = []
living b (w ∷ tasks) =
    let rest = living b tasks in if has w b.idle || in_dispatch w b.busy then w ∷ rest else rest

-- How a call of `stop` goes: it is done, it waits in `join`, or it waits in `gather` for tasks.
pub data Stopping : Type 0 where
  stopped joining : Stopping
  gathering : List ℕ → Stopping

abbrev pub gather : List ℕ → Stopping
gather [] = stopped
gather (w ∷ tasks) = gathering (w ∷ tasks)

-- `worker.cancel()` of each worker, which does nothing to a task that has ended; what `stop` does up
-- to its next await.
abbrev pub cancel_workers : EventBus → Stopping × EventBus
cancel_workers b =
    (gather b.workers, record b { running = false; cancelled = living b b.workers ++ b.cancelled })

unfoldable pub stop : Bool → EventBus → Stopping × EventBus
stop drain b =
    if not b.running
    then (stopped, b)
    else if drain && not (b.unfinished == 0)
    then (joining, b)
    else cancel_workers b

-- `stop` from the end of `join` on. asyncio lets it go on once nothing was unfinished, and by then
-- there may be new events; `running` is not looked at again.
unfoldable pub after_join : EventBus → Stopping × EventBus
after_join b = cancel_workers b

abbrev pub clear_workers : EventBus → List ℕ → Option EventBus
clear_workers b [] = some (record b { workers = [] })
clear_workers b (w ∷ tasks) = none

-- `stop` from the end of `gather` on; `none` while one of its tasks lives.
unfoldable pub after_gather : List ℕ → EventBus → Option EventBus
after_gather awaited b = clear_workers b (living b awaited)

-- `self._handlers[event_type].append(...)`
abbrev pub add_handler :
    ℕ → RegisteredHandler → List (ℕ × List RegisteredHandler) → List (ℕ × List RegisteredHandler)
add_handler c h [] = (c, h ∷ []) ∷ []
add_handler c h ((k, hs) ∷ table) =
    let rest = add_handler c h table in if k == c then (k, hs ++ h ∷ []) ∷ table else (k, hs) ∷ rest

-- `subscribe`, with the identifier that `uuid4` gives.
unfoldable pub subscribe : ℕ → String → ℕ → EventBus → Subscription × EventBus
subscribe event_class handler_name uuid b = (
  record { subscription_id = uuid; event_class = event_class },
  record b {
    handlers =
        add_handler event_class (record { subscription_id = uuid; handler_name = handler_name })
          b.handlers;
  },
)

abbrev pub without : ℕ → List RegisteredHandler → List RegisteredHandler
without id [] = []
without id (h ∷ hs) = let rest = without id hs in if h.subscription_id == id then rest else h ∷ rest

-- The class's entry in the table goes when no handler is left in it.
abbrev pub put_back :
    ℕ
    → List RegisteredHandler
    → List (ℕ × List RegisteredHandler)
    → List (ℕ × List RegisteredHandler)
put_back k [] table = table
put_back k (h ∷ hs) table = (k, h ∷ hs) ∷ table

-- Whether there was such a subscription, and the table without it.
abbrev pub remove_handler :
    ℕ → ℕ → List (ℕ × List RegisteredHandler) → Bool × List (ℕ × List RegisteredHandler)
remove_handler c id [] = (false, [])
remove_handler c id ((k, hs) ∷ table) =
    let rest = remove_handler c id table in
    if k == c
    then (not (length (without id hs) == length hs), put_back k (without id hs) table)
    else (rest.0, (k, hs) ∷ rest.1)

unfoldable pub unsubscribe : Subscription → EventBus → Bool × EventBus
unsubscribe s b =
    let removed = remove_handler s.event_class s.subscription_id b.handlers in
    (removed.0, record b { handlers = removed.1 })

-- The order of the tuples in the queue.
abbrev pub leb_entry : Entry → Entry → Bool
leb_entry a b = ltb a.priority b.priority || (a.priority == b.priority && leb a.sequence b.sequence)

abbrev pub insert_entry : Entry → List Entry → List Entry
insert_entry e [] = e ∷ []
insert_entry e (f ∷ queue) =
    let rest = insert_entry e queue in if leb_entry e f then e ∷ f ∷ queue else f ∷ rest

abbrev pub is_full : EventBus → Bool
is_full b = leb b.queue_size (length b.queue)

-- How a publication goes: accepted, waiting with its entry for room, or refused by an error.
pub data Publication : Type 0 where
  accepted : Publication
  waiting : Entry → Publication
  not_running : Publication
  queue_full : Publication

abbrev pub enqueue : Entry → EventBus → EventBus
enqueue e b = record b {
  queue = insert_entry e b.queue;
  unfinished = b.unfinished + 1;
  published = b.published + 1;
}

-- `queue.put`, when it is called and when a waiting call is resumed.
unfoldable pub put : Entry → EventBus → Publication × EventBus
put e b = if is_full b then (waiting e, b) else (accepted, enqueue e b)

abbrev pub count_sequence : EventBus → EventBus
count_sequence b = record b { sequence = b.sequence + 1 }

abbrev pub entry_of : Event → EventPriority → EventBus → Entry
entry_of event priority b = record {
  priority = priority_value priority;
  sequence = b.sequence;
  event = event;
}

unfoldable pub publish : Event → EventPriority → EventBus → Publication × EventBus
unfolding put
publish event priority b =
    if not b.running then (not_running, b) else put (entry_of event priority b) (count_sequence b)

unfoldable pub publish_nowait : Event → EventPriority → EventBus → Publication × EventBus
publish_nowait event priority b =
    if not b.running
    then (not_running, b)
    else if is_full b
    then (queue_full, record b { sequence = b.sequence + 1; rejected_full = b.rejected_full + 1 })
    else (accepted, enqueue (entry_of event priority b) (count_sequence b))

-- The handlers of the classes that the event is of, in the table's order.
abbrev pub matching :
    (ℕ → ℕ → Bool) → ℕ → List (ℕ × List RegisteredHandler) → List RegisteredHandler
matching is_a c [] = []
matching is_a c ((k, hs) ∷ table) =
    let rest = matching is_a c table in if is_a c k then hs ++ rest else rest

abbrev pub dispatch_of : (ℕ → ℕ → Bool) → ℕ → Entry → EventBus → Dispatch
dispatch_of is_a w e b = record {
  worker = w;
  event = e.event;
  matched = matching is_a e.event.event_class b.handlers;
}

abbrev pub take_first : (ℕ → ℕ → Bool) → EventBus → List ℕ → List Entry → Option EventBus
take_first is_a b [] queue = none
take_first is_a b (w ∷ idle) [] = none
take_first is_a b (w ∷ idle) (e ∷ queue) =
    if has w b.cancelled
    then none
    else some
        (record b { queue = queue; idle = idle; busy = b.busy ++ dispatch_of is_a w e b ∷ [] })

-- The first of the idle workers takes the first entry and collects its handlers; `none`: it has been
-- cancelled, or there is no idle worker or no entry.
unfoldable pub take_event : (ℕ → ℕ → Bool) → EventBus → Option EventBus
take_event is_a b = take_first is_a b b.idle b.queue

abbrev pub end_first : EventBus → List ℕ → Option EventBus
end_first b [] = none
end_first b (w ∷ idle) =
    if has w b.cancelled
    then some (record b { idle = idle; cancelled = remove w b.cancelled })
    else none

-- The first of the idle workers ends, where it has been cancelled.
unfoldable pub end_idle : EventBus → Option EventBus
end_idle b = end_first b b.idle

-- How a handler ends; `cancelled` is a CancelledError, which is passed on and ends the worker.
pub data HandlerOutcome : Type 0 where
  returned cancelled : HandlerOutcome
  failed : String → String → HandlerOutcome

-- `deque(maxlen=...).append`
abbrev pub append_bounded : ℕ → HandlerFailure → List HandlerFailure → List HandlerFailure
append_bounded size f failures = drop (suc (length failures) - size) (failures ++ f ∷ [])

-- `_record_handler_failure`, but for the log.
unfoldable pub record_handler_failure :
    Event → RegisteredHandler → String → String → EventBus → EventBus
record_handler_failure event h error_type message b = record b {
  handler_failures = b.handler_failures + 1;
  failures =
      append_bounded b.failure_history_size
        (record {
          event_id = event.event_id;
          event_type = event.event_type;
          subscription_id = h.subscription_id;
          handler_name = h.handler_name;
          error_type = error_type;
          message = message;
        })
        b.failures;
}

-- `task_done`, after which the worker waits for the next event.
abbrev pub end_dispatch : Dispatch → List Dispatch → EventBus → EventBus
end_dispatch d busy b = record b {
  idle = b.idle ++ d.worker ∷ [];
  busy = busy;
  unfinished = b.unfinished - 1;
}

-- A handler that goes on after a CancelledError that came from `stop` has used it up.
abbrev pub next_handler : Dispatch → List RegisteredHandler → List Dispatch → EventBus → EventBus
next_handler d matched busy b = record b {
  busy = record { worker = d.worker; event = d.event; matched = matched } ∷ busy;
  cancelled = remove d.worker b.cancelled;
}

-- What becomes of a dispatch whose handler has ended; `task_done` ends it when the worker ends.
unfoldable pub after_handler :
    HandlerOutcome
    → Dispatch
    → RegisteredHandler
    → List RegisteredHandler
    → List Dispatch
    → EventBus
    → EventBus
unfolding record_handler_failure
after_handler returned d h matched busy b = record (next_handler d matched busy b) {
  delivered = b.delivered + 1;
}
after_handler (failed error_type message) d h matched busy b =
    record_handler_failure d.event h error_type message (next_handler d matched busy b)
after_handler cancelled d h matched busy b = record b {
  busy = busy;
  cancelled = remove d.worker b.cancelled;
  unfinished = b.unfinished - 1;
}

abbrev pub continue_with : HandlerOutcome → EventBus → List Dispatch → Option EventBus
continue_with outcome b [] = none
continue_with outcome b (d ∷ busy) = elim d.matched [
  | [] ↦ some (end_dispatch d busy b)
  | h ∷ matched ↦ some (after_handler outcome d h matched busy b)
]

-- The first of the busy workers goes on: its next handler ends as given, or, after the last one,
-- `task_done` ends the dispatch. `none`: no worker is busy.
unfoldable pub continue_dispatch : HandlerOutcome → EventBus → Option EventBus
unfolding after_handler
continue_dispatch outcome b = continue_with outcome b b.busy

abbrev pub rotated {ℓ} : {A : Type ℓ} → List A → List A
rotated [] = []
rotated (x ∷ xs) = xs ++ x ∷ []

-- Another of the busy workers, or of the idle ones, comes to be the first.
abbrev pub rotate_busy : EventBus → EventBus
rotate_busy b = record b { busy = rotated b.busy }

abbrev pub rotate_idle : EventBus → EventBus
rotate_idle b = record b { idle = rotated b.idle }

pub record EventBusStats : Type 0 where
  pub published : ℕ
  pub delivered : ℕ
  pub handler_failures : ℕ
  pub rejected_full : ℕ
  pub queue_depth : ℕ
  pub subscriptions : ℕ

abbrev pub count_handlers : List (ℕ × List RegisteredHandler) → ℕ
count_handlers [] = 0
count_handlers ((k, hs) ∷ table) = length hs + count_handlers table

unfoldable pub stats : EventBus → EventBusStats
stats b = record {
  published = b.published;
  delivered = b.delivered;
  handler_failures = b.handler_failures;
  rejected_full = b.rejected_full;
  queue_depth = length b.queue;
  subscriptions = count_handlers b.handlers;
}
