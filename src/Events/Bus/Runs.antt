-- ===== src/Events/Bus/Runs.antt =====
-- rci/events/bus.py: runs of the bus.
use robotic_character_interf.Base.{
  ℕ, ◌≤◌, ◌≡◌, refl, sym, ap, subst, arith, Bool, some, List, [], ◌∷◌,
}
use robotic_character_interf.Base.Lists.{length, length-append}
use robotic_character_interf.Events.Bus.{
  living, after_gather, after_join, rotate_idle, rotate_busy, end_idle, unsubscribe, subscribe,
  continue_dispatch, take_event, EventBus, Dispatch, make_bus, rotated,
}
use robotic_character_interf.Events.Bus.Invariant.{
  count_busy, count_idle, InOrder, IsSound, Step, starts, stops, subscribes, unsubscribes,
  publishes, resumes, publishes_nowait, takes, continues, joins, gathers, ends, rotates_busy,
  rotates_idle, step, run,
}
use robotic_character_interf.Events.Bus.Steps.{
  count_idle-append, count_busy-append, end_first-IsSound, clear_workers-IsSound,
  cancel_workers-IsSound, continue_with-IsSound, take_first-IsSound, publish_nowait-IsSound,
  put-IsSound, publish-IsSound, same-IsSound, stop-IsSound, start-IsSound,
}

pub length-rotated : {A : Type 0} (xs : List A) → length (rotated xs) ≡ length xs
length-rotated [] = refl
length-rotated (x ∷ xs) = omega (arith, length-append xs (x ∷ []))

count_busy-rotated :
    (w : ℕ) (busy : List Dispatch) → count_busy w (rotated busy) ≡ count_busy w busy
count_busy-rotated w [] = refl
count_busy-rotated w (d ∷ busy) = omega (arith, count_busy-append w busy (d ∷ []))

count_idle-rotated : (w : ℕ) (idle : List ℕ) → count_idle w (rotated idle) ≡ count_idle w idle
count_idle-rotated w [] = refl
count_idle-rotated w (v ∷ idle) = omega (arith, count_idle-append w idle (v ∷ []))

pub rotate_busy-IsSound : (b : EventBus) → IsSound b → IsSound (rotate_busy b)
rotate_busy-IsSound b s = record {
  bounded = s.bounded;
  in_order = s.in_order;
  accounted = omega (arith, length-rotated b.busy, s.accounted);
  one_place = λ w. omega (arith, count_busy-rotated w b.busy, s.one_place w);
  few_workers = s.few_workers;
  some_history = s.some_history;
  few_failures = s.few_failures;
}

pub rotate_idle-IsSound : (b : EventBus) → IsSound b → IsSound (rotate_idle b)
rotate_idle-IsSound b s = record {
  bounded = s.bounded;
  in_order = s.in_order;
  accounted = s.accounted;
  one_place = λ w. omega (arith, count_idle-rotated w b.idle, s.one_place w);
  few_workers = s.few_workers;
  some_history = s.some_history;
  few_failures = s.few_failures;
}

pub step-IsSound :
    (is_a : ℕ → ℕ → Bool) (s : Step) (b : EventBus) → IsSound b → IsSound (step is_a s b)
unfolding take_event end_idle continue_dispatch subscribe unsubscribe after_join after_gather
step-IsSound is_a starts b i = start-IsSound b i
step-IsSound is_a (stops drain) b i = stop-IsSound drain b i
step-IsSound is_a (subscribes c name id) b i =
    same-IsSound refl refl refl refl refl refl (omega arith) refl refl refl i
step-IsSound is_a (unsubscribes s) b i =
    same-IsSound refl refl refl refl refl refl (omega arith) refl refl refl i
step-IsSound is_a (publishes event priority) b i = publish-IsSound event priority b i
step-IsSound is_a (resumes e) b i = put-IsSound e b i
step-IsSound is_a (publishes_nowait event priority) b i = publish_nowait-IsSound event priority b i
step-IsSound is_a joins b i = cancel_workers-IsSound b i
step-IsSound is_a (gathers awaited) b i = clear_workers-IsSound b (living b awaited) i
step-IsSound is_a takes b i = take_first-IsSound is_a b b.idle b.queue refl refl i
step-IsSound is_a ends b i = end_first-IsSound b b.idle refl i
step-IsSound is_a (continues outcome) b i = continue_with-IsSound outcome b b.busy refl i
step-IsSound is_a rotates_busy b i = rotate_busy-IsSound b i
step-IsSound is_a rotates_idle b i = rotate_idle-IsSound b i

run-IsSound_from :
    (is_a : ℕ → ℕ → Bool) (steps : List Step) (b : EventBus)
    → IsSound b
    → IsSound (run is_a steps b)
run-IsSound_from is_a [] b i = i
run-IsSound_from is_a (s ∷ steps) b i =
    run-IsSound_from is_a steps (step is_a s b) (step-IsSound is_a s b i)

new_bus :
    (queue_size worker_count history : ℕ) (b : EventBus)
    → make_bus queue_size worker_count history ≡ some b
    → (b.queue ≡ [])
      × (b.unfinished ≡ 0)
      × (b.busy ≡ [])
      × (b.idle ≡ [])
      × (b.workers ≡ [])
      × (b.failures ≡ [])
      × (1 ≤ b.failure_history_size)
unfolding make_bus
new_bus queue_size worker_count history b e = (
  ground arith,
  ground arith,
  ground arith,
  ground arith,
  ground arith,
  ground arith,
  ground arith,
)

make_bus-IsSound :
    (queue_size worker_count history : ℕ) (b : EventBus)
    → make_bus queue_size worker_count history ≡ some b
    → IsSound b
make_bus-IsSound queue_size worker_count history b e =
    let (queue, unfinished, busy, idle, workers, failures, some_history) =
      new_bus queue_size worker_count history b e in
    record {
      bounded = omega (arith, ap length queue);
      in_order = subst InOrder (sym queue) tt;
      accounted = omega (arith, unfinished, ap length queue, ap length busy);
      one_place = λ w. omega (arith, ap (count_busy w) busy, ap (count_idle w) idle);
      few_workers = omega (arith, ap length workers);
      some_history = some_history;
      few_failures = omega (arith, ap length failures);
    }

-- Over any interleaving of calls of the bus (waiting publications and waiting calls of `stop` go on
-- or not, and other calls of `start` and `stop` may come between), of workers that take events or
-- end when they are cancelled and of handlers that end in any way, from a bus that was constructed
-- without an error: the queue is no longer than its size and in the order of dispatch, by priority
-- and then by sequence number, so a worker takes a first one; the events that `join` waits for are
-- those in the queue and in a dispatch; a task that was created is in one place at most, waiting for
-- an event or in a single dispatch, and others are in none; `self._workers` has no more tasks than
-- the number given; and no more failures are kept than the history's size.
pub run-IsSound :
    (is_a : ℕ → ℕ → Bool) (queue_size worker_count history : ℕ) (b : EventBus) (steps : List Step)
    → make_bus queue_size worker_count history ≡ some b
    → IsSound (run is_a steps b)
run-IsSound is_a queue_size worker_count history b steps e =
    run-IsSound_from is_a steps b (make_bus-IsSound queue_size worker_count history b e)
