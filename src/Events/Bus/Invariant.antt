-- ===== src/Events/Bus/Invariant.antt =====
-- rci/events/bus.py: what every step of the bus keeps.
use robotic_character_interf.Base.{
  ℕ, ltb, ◌==◌, suc, ◌+◌, ◌≤◌, ◌≡◌, refl, ap, arith, Bool, true, false, Option, none, some, List,
  [], ◌∷◌, String, if_both, Bool-cases, inl, inr,
}
use robotic_character_interf.Base.Lists.{length, All}
use robotic_character_interf.State.Manager.{EventPriority}
use robotic_character_interf.Events.Bus.{
  EventBus, Event, Entry, Dispatch, Subscription, HandlerOutcome, start, stop, subscribe,
  unsubscribe, put, publish, publish_nowait, after_join, after_gather, take_event, end_idle,
  continue_dispatch, rotate_busy, rotate_idle, leb_entry, insert_entry,
}

-- The steps of the callers, and of the workers. An identifier of `subscribe` is what `uuid4` gives;
-- `joins` and `gathers` go on with a call of `stop`, at any time, so any number of calls of `stop`
-- and of `start` may be on their way at once.
pub data Step : Type 0 where
  starts : Step
  stops : Bool → Step
  joins : Step
  gathers : List ℕ → Step
  subscribes : ℕ → String → ℕ → Step
  unsubscribes : Subscription → Step
  publishes : Event → EventPriority → Step
  resumes : Entry → Step
  publishes_nowait : Event → EventPriority → Step
  takes : Step
  ends : Step
  continues : HandlerOutcome → Step
  rotates_busy : Step
  rotates_idle : Step

abbrev pub or_same : EventBus → Option EventBus → EventBus
or_same b none = b
or_same b (some c) = c

-- A step that waits, or is not possible, changes nothing.
abbrev pub step : (ℕ → ℕ → Bool) → Step → EventBus → EventBus
step is_a starts b = start b
step is_a (stops drain) b = (stop drain b).1
step is_a joins b = (after_join b).1
step is_a (gathers awaited) b = or_same b (after_gather awaited b)
step is_a (subscribes c name id) b = (subscribe c name id b).1
step is_a (unsubscribes s) b = (unsubscribe s b).1
step is_a (publishes event priority) b = (publish event priority b).1
step is_a (resumes e) b = (put e b).1
step is_a (publishes_nowait event priority) b = (publish_nowait event priority b).1
step is_a takes b = or_same b (take_event is_a b)
step is_a ends b = or_same b (end_idle b)
step is_a (continues outcome) b = or_same b (continue_dispatch outcome b)
step is_a rotates_busy b = rotate_busy b
step is_a rotates_idle b = rotate_idle b

abbrev pub run : (ℕ → ℕ → Bool) → List Step → EventBus → EventBus
run is_a [] b = b
run is_a (s ∷ steps) b = run is_a steps (step is_a s b)

-- In the order in which they are to be dispatched.
abbrev pub InOrder : List Entry → Type 0
InOrder [] = Unit
InOrder (e ∷ queue) = All (λ f. leb_entry e f ≡ true) queue × InOrder queue

abbrev pub one : Bool → ℕ
one true = 1
one false = 0

abbrev pub count_idle : ℕ → List ℕ → ℕ
count_idle w [] = 0
count_idle w (v ∷ tasks) = one (v == w) + count_idle w tasks

abbrev pub count_busy : ℕ → List Dispatch → ℕ
count_busy w [] = 0
count_busy w (d ∷ busy) = one (d.worker == w) + count_busy w busy

pub record IsSound (b : EventBus) : Type 0 where
  pub bounded : length b.queue ≤ b.queue_size
  pub in_order : InOrder b.queue
  pub accounted : b.unfinished ≡ length b.queue + length b.busy
  pub one_place : (w : ℕ) → count_idle w b.idle + count_busy w b.busy ≤ one (ltb w b.tasks)
  pub few_workers : length b.workers ≤ b.worker_count
  pub some_history : 1 ≤ b.failure_history_size
  pub few_failures : length b.failures ≤ b.failure_history_size

leb_entry_trans :
    (a b c : Entry) → leb_entry a b ≡ true → leb_entry b c ≡ true → leb_entry a c ≡ true
leb_entry_trans a b c h k = ground arith

leb_entry_total : (a b : Entry) → leb_entry a b ≡ false → leb_entry b a ≡ true
leb_entry_total a b h = ground arith

pub length-insert_entry :
    (e : Entry) (queue : List Entry) → length (insert_entry e queue) ≡ suc (length queue)
length-insert_entry e [] = refl
length-insert_entry e (f ∷ queue) =
    if_both (λ r. length r ≡ suc (suc (length queue))) (leb_entry e f) refl
      (ap (λ n. suc n) (length-insert_entry e queue))

All-insert_entry :
    (P : Entry → Type 0) (e : Entry) (queue : List Entry)
    → P e
    → All P queue
    → All P (insert_entry e queue)
All-insert_entry P e [] p ps = (p, tt)
All-insert_entry P e (f ∷ queue) p ps =
    if_both (All P) (leb_entry e f) (p, ps) (ps.0, All-insert_entry P e queue p ps.1)

All-leb_entry :
    (e f : Entry) (queue : List Entry)
    → leb_entry e f ≡ true
    → All (λ g. leb_entry f g ≡ true) queue
    → All (λ g. leb_entry e g ≡ true) queue
All-leb_entry e f [] h ps = tt
All-leb_entry e f (g ∷ queue) h ps = (leb_entry_trans e f g h ps.0, All-leb_entry e f queue h ps.1)

pub insert_entry-InOrder :
    (e : Entry) (queue : List Entry) → InOrder queue → InOrder (insert_entry e queue)
insert_entry-InOrder e [] h = (tt, tt)
insert_entry-InOrder e (f ∷ queue) h = elim (Bool-cases (leb_entry e f)) [
  | inl le ↦ rw le ((le, All-leb_entry e f queue le h.0), h)
  | inr gt ↦ rw gt (
    All-insert_entry (λ g. leb_entry f g ≡ true) e queue (leb_entry_total e f gt) h.0,
    insert_entry-InOrder e queue h.1,
  )
]
