-- ===== src/Events/Tests.antt =====
-- The event bus on concrete steps.
use robotic_character_interf.Base.{
  ℕ, ◌≡◌, refl, Bool, true, false, Option, none, some, List, [], ◌∷◌, String, ◌==◌, if◌then◌else◌,
  arith, ◌++◌,
}
use robotic_character_interf.State.Manager.{critical, normal}
use robotic_character_interf.Events.Bus.{
  start, stop, end_idle, after_gather, subscribe, publish_nowait, publish, EventBus, Event,
  make_bus,
}
use robotic_character_interf.Events.Bus.Invariant.{
  Step, starts, stops, gathers, ends, subscribes, publishes, publishes_nowait, run, IsSound,
}
use robotic_character_interf.Events.Bus.Runs.{run-IsSound}
use robotic_character_interf.Events.Bus.Liveness.{work-IsDrained, IsDrained}
use robotic_character_interf.Events.Bus.Schedule.{Choice, work}

abbrev small_bus : EventBus
small_bus = record {
  queue_size = 2;
  worker_count = 1;
  failure_history_size = 1;
  queue = [];
  unfinished = 0;
  handlers = [];
  workers = [];
  idle = [];
  busy = [];
  cancelled = [];
  tasks = 0;
  sequence = 0;
  running = false;
  published = 0;
  delivered = 0;
  handler_failures = 0;
  rejected_full = 0;
  failures = [];
}

small_bus-made : make_bus 2 1 1 ≡ some small_bus
unfolding make_bus
small_bus-made = refl

abbrev event_of : ℕ → Event
event_of n = record { event_id = n; event_type = "state.changed"; event_class = 1 }

-- Every class is a subclass of the class 0.
abbrev under_zero : ℕ → ℕ → Bool
under_zero c k = if k == 0 then true else c == k

-- A turn of a schedule that brings another busy worker to the front.
abbrev choice : Bool → Option (String × String) → Choice
choice takes failure = record { idle_spins = 0; busy_spins = 1; takes = takes; failure = failure }

abbrev no : Option (String × String)
no = some ("ValueError", "no")

abbrev ten_turns : List Choice
ten_turns =
    choice true none
    ∷ choice true none
    ∷ choice false none
    ∷ choice true no
    ∷ choice false none
    ∷ choice true no
    ∷ choice true no
    ∷ choice false no
    ∷ choice false no
    ∷ choice false no
    ∷ []

abbrev three_published : List Step
three_published =
    starts
    ∷ subscribes 1 "log" 7
    ∷ subscribes 0 "audit" 8
    ∷ publishes (event_of 100) normal
    ∷ publishes_nowait (event_of 101) critical
    ∷ publishes_nowait (event_of 102) critical
    ∷ []

run-IsSound_example : IsSound (run under_zero three_published small_bus)
run-IsSound_example = run-IsSound under_zero 2 1 1 small_bus three_published small_bus-made

-- The critical event goes first, and the third is refused.
critical_first : run under_zero three_published small_bus ≡ record small_bus {
  running = true;
  workers = 0 ∷ [];
  idle = 0 ∷ [];
  tasks = 1;
  handlers =
      (1, record { subscription_id = 7; handler_name = "log" } ∷ [])
      ∷ (0, record { subscription_id = 8; handler_name = "audit" } ∷ [])
      ∷ [];
  queue =
      record { priority = 0; sequence = 1; event = event_of 101 }
      ∷ record { priority = 20; sequence = 0; event = event_of 100 }
      ∷ [];
  unfinished = 2;
  sequence = 3;
  published = 2;
  rejected_full = 1;
}
unfolding publish publish_nowait subscribe start
critical_first = refl

work-IsDrained_example :
    IsDrained under_zero
      (run under_zero three_published small_bus)
      (work under_zero ten_turns (run under_zero three_published small_bus))
unfolding publish publish_nowait subscribe start
work-IsDrained_example =
    work-IsDrained under_zero ten_turns 2 1 1 small_bus three_published small_bus-made refl
      (omega arith) (omega arith)

-- A call of `start` while a call of `stop` is in `gather`: two tasks live, of a bus with one worker,
-- and after the end of `stop` the bus runs and knows of none of its tasks.
abbrev overlapping : List Step
overlapping = starts ∷ stops false ∷ starts ∷ []

two_tasks : (run under_zero overlapping small_bus).idle ≡ 0 ∷ 1 ∷ []
unfolding start stop
two_tasks = refl

forgotten :
    run under_zero (overlapping ++ ends ∷ gathers (0 ∷ []) ∷ []) small_bus
    ≡ record small_bus { running = true; idle = 1 ∷ []; tasks = 2 }
unfolding start stop end_idle after_gather
forgotten = refl

-- From there on, `stop` and `start` add a worker each time.
too_many :
    (run under_zero
      (overlapping ++ ends ∷ gathers (0 ∷ []) ∷ stops false ∷ starts ∷ [])
      small_bus).idle
    ≡ 1 ∷ 2 ∷ []
unfolding start stop end_idle after_gather
too_many = refl
