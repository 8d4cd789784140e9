-- ===== src/Events/Bus/Steps.antt =====
-- rci/events/bus.py: the invariant over the steps of the bus.
use robotic_character_interf.Base.{
  ltb, ◌==◌, ◌+◌, ℕ, zero, suc, ◌-◌, ◌≤◌, ◌<◌, ◌≡◌, refl, sym, ap, subst, arith, Bool, not, ◌&&◌,
  List, [], ◌∷◌, ◌++◌, if_both, Bool-cases, inl, inr,
}
use robotic_character_interf.Base.Lists.{length, length-append, length-drop}
use robotic_character_interf.Events.Bus.{
  new_tasks, has, remove, Stopping, cancel_workers, clear_workers, end_first, dispatch_of,
  continue_with, record_handler_failure, RegisteredHandler, append_bounded, take_first,
  HandlerFailure, end_dispatch, after_handler, HandlerOutcome, entry_of, Publication, is_full,
  publish_nowait, stop, publish, put, count_sequence, start, EventBus, Event, Entry, Dispatch,
  enqueue, returned, cancelled, failed,
}
use robotic_character_interf.Events.Bus.Invariant.{
  one, count_idle, count_busy, or_same, insert_entry-InOrder, length-insert_entry, IsSound, InOrder,
}
use robotic_character_interf.State.Manager.{EventPriority}

-- What the steps that touch neither queue nor workers leave as it was.
pub same-IsSound :
    {b c : EventBus}
    → c.queue_size ≡ b.queue_size
    → c.queue ≡ b.queue
    → c.unfinished ≡ b.unfinished
    → c.idle ≡ b.idle
    → c.busy ≡ b.busy
    → c.tasks ≡ b.tasks
    → length c.workers ≤ length b.workers
    → c.worker_count ≡ b.worker_count
    → c.failure_history_size ≡ b.failure_history_size
    → c.failures ≡ b.failures
    → IsSound b
    → IsSound c
same-IsSound size queue unfinished idle busy tasks workers count history failures s = record {
  bounded = omega (arith, size, ap length queue, s.bounded);
  in_order = subst InOrder (sym queue) s.in_order;
  accounted = omega (arith, unfinished, ap length queue, ap length busy, s.accounted);
  one_place = λ w. omega (
    arith,
    ap (count_idle w) idle,
    ap (count_busy w) busy,
    ap (λ n. one (ltb w n)) tasks,
    s.one_place w,
  );
  few_workers = omega (arith, workers, count, s.few_workers);
  some_history = omega (arith, history, s.some_history);
  few_failures = omega (arith, ap length failures, history, s.few_failures);
}

pub enqueue-IsSound :
    (e : Entry) (b : EventBus) → length b.queue < b.queue_size → IsSound b → IsSound (enqueue e b)
enqueue-IsSound e b room s = record {
  bounded = omega (arith, length-insert_entry e b.queue, room);
  in_order = insert_entry-InOrder e b.queue s.in_order;
  accounted = omega (arith, length-insert_entry e b.queue, s.accounted);
  one_place = s.one_place;
  few_workers = s.few_workers;
  some_history = s.some_history;
  few_failures = s.few_failures;
}

pub put-IsSound : (e : Entry) (b : EventBus) → IsSound b → IsSound (put e b).1
unfolding put
put-IsSound e b s = elim (Bool-cases (is_full b)) [
  | inl full ↦ rw (put, full) s
  | inr free ↦ rw (put, free) (enqueue-IsSound e b (ground arith) s)
]

pub count_sequence-IsSound : (b : EventBus) → IsSound b → IsSound (count_sequence b)
count_sequence-IsSound b s =
    same-IsSound refl refl refl refl refl refl (omega arith) refl refl refl s

pub publish-IsSound :
    (event : Event) (p : EventPriority) (b : EventBus) → IsSound b → IsSound (publish event p b).1
unfolding publish
publish-IsSound event p b s =
    if_both (λ (r : Publication × EventBus). IsSound r.1) (not b.running) s
      (put-IsSound (entry_of event p b) (count_sequence b) (count_sequence-IsSound b s))

pub publish_nowait-IsSound :
    (event : Event) (p : EventPriority) (b : EventBus)
    → IsSound b
    → IsSound (publish_nowait event p b).1
unfolding publish_nowait
publish_nowait-IsSound event p b s =
    if_both (λ (r : Publication × EventBus). IsSound r.1) (not b.running) s
      (elim (Bool-cases (is_full b)) [
        | inl full ↦
            rw full (same-IsSound refl refl refl refl refl refl (omega arith) refl refl refl s)
        | inr free ↦ rw free (
            enqueue-IsSound (entry_of event p b) (count_sequence b) (ground arith)
              (count_sequence-IsSound b s))
      ])

pub count_idle-append :
    (w : ℕ) (xs ys : List ℕ) → count_idle w (xs ++ ys) ≡ count_idle w xs + count_idle w ys
count_idle-append w [] ys = omega arith
count_idle-append w (x ∷ xs) ys = omega (arith, count_idle-append w xs ys)

pub count_busy-append :
    (w : ℕ) (xs ys : List Dispatch) → count_busy w (xs ++ ys) ≡ count_busy w xs + count_busy w ys
count_busy-append w [] ys = omega arith
count_busy-append w (x ∷ xs) ys = omega (arith, count_busy-append w xs ys)

one_more : (w first : ℕ) → one (first == w) + one (ltb w first) ≡ one (ltb w (suc first))
one_more w first = ground arith

count_idle-new_tasks :
    (w first n : ℕ) → count_idle w (new_tasks first n) + one (ltb w first) ≡ one (ltb w (first + n))
count_idle-new_tasks w first zero =
    let k : first ≡ first + 0 = omega arith in omega (arith, ap (λ k. one (ltb w k)) k)
count_idle-new_tasks w first (suc n) =
    let k : suc first + n ≡ first + suc n = omega arith in
    omega (arith, one_more w first, count_idle-new_tasks w (suc first) n, ap (λ k. one (ltb w k)) k)

length-new_tasks : (first n : ℕ) → length (new_tasks first n) ≡ n
length-new_tasks first zero = refl
length-new_tasks first (suc n) = omega (arith, length-new_tasks (suc first) n)

pub start-IsSound : (b : EventBus) → IsSound b → IsSound (start b)
unfolding start
start-IsSound b s = if_both IsSound b.running s (record {
  bounded = s.bounded;
  in_order = s.in_order;
  accounted = s.accounted;
  one_place = λ w. omega (
    arith,
    s.one_place w,
    count_idle-append w b.idle (new_tasks b.tasks b.worker_count),
    count_idle-new_tasks w b.tasks b.worker_count,
  );
  few_workers = omega (arith, length-new_tasks b.tasks b.worker_count);
  some_history = s.some_history;
  few_failures = s.few_failures;
})

pub cancel_workers-IsSound : (b : EventBus) → IsSound b → IsSound (cancel_workers b).1
cancel_workers-IsSound b s =
    same-IsSound refl refl refl refl refl refl (omega arith) refl refl refl s

pub stop-IsSound : (drain : Bool) (b : EventBus) → IsSound b → IsSound (stop drain b).1
unfolding stop
stop-IsSound drain b s =
    if_both (λ (r : Stopping × EventBus). IsSound r.1) (not b.running) s
      (if_both (λ (r : Stopping × EventBus). IsSound r.1) (drain && not (b.unfinished == 0)) s
        (cancel_workers-IsSound b s))

pub clear_workers-IsSound :
    (b : EventBus) (left : List ℕ) → IsSound b → IsSound (or_same b (clear_workers b left))
clear_workers-IsSound b [] s =
    same-IsSound refl refl refl refl refl refl (omega arith) refl refl refl s
clear_workers-IsSound b (w ∷ left) s = s

taken-IsSound :
    (d : Dispatch) (idle : List ℕ) (e : Entry) (queue : List Entry) (b : EventBus)
    → b.idle ≡ d.worker ∷ idle
    → b.queue ≡ e ∷ queue
    → IsSound b
    → IsSound (record b { queue = queue; idle = idle; busy = b.busy ++ d ∷ [] })
taken-IsSound d idle e queue b first front s = record {
  bounded = omega (arith, ap length front, s.bounded);
  in_order = (subst InOrder front s.in_order).1;
  accounted = omega (arith, ap length front, s.accounted, length-append b.busy (d ∷ []));
  one_place = λ w.
      omega (arith, ap (count_idle w) first, s.one_place w, count_busy-append w b.busy (d ∷ []));
  few_workers = s.few_workers;
  some_history = s.some_history;
  few_failures = s.few_failures;
}

pub take_first-IsSound :
    (is_a : ℕ → ℕ → Bool) (b : EventBus) (idle : List ℕ) (queue : List Entry)
    → b.idle ≡ idle
    → b.queue ≡ queue
    → IsSound b
    → IsSound (or_same b (take_first is_a b idle queue))
take_first-IsSound is_a b [] queue first front s = s
take_first-IsSound is_a b (w ∷ idle) [] first front s = s
take_first-IsSound is_a b (w ∷ idle) (e ∷ queue) first front s =
    if_both (λ r. IsSound (or_same b r)) (has w b.cancelled) s
      (taken-IsSound (dispatch_of is_a w e b) idle e queue b first front s)

ended-IsSound :
    (w : ℕ) (idle rest : List ℕ) (b : EventBus)
    → b.idle ≡ w ∷ idle
    → IsSound b
    → IsSound (record b { idle = idle; cancelled = rest })
ended-IsSound w idle rest b first s = record {
  bounded = s.bounded;
  in_order = s.in_order;
  accounted = s.accounted;
  one_place = λ v. omega (arith, ap (count_idle v) first, s.one_place v);
  few_workers = s.few_workers;
  some_history = s.some_history;
  few_failures = s.few_failures;
}

pub end_first-IsSound :
    (b : EventBus) (idle : List ℕ)
    → b.idle ≡ idle
    → IsSound b
    → IsSound (or_same b (end_first b idle))
end_first-IsSound b [] first s = s
end_first-IsSound b (w ∷ idle) first s =
    if_both (λ r. IsSound (or_same b r)) (has w b.cancelled)
      (ended-IsSound w idle (remove w b.cancelled) b first s) s

fewer_failures :
    (size : ℕ) (f : HandlerFailure) (failures : List HandlerFailure)
    → 1 ≤ size
    → length (append_bounded size f failures) ≤ size
fewer_failures size f failures some_history = omega (
  arith,
  length-drop (suc (length failures) - size) (failures ++ f ∷ []),
  length-append failures (f ∷ []),
  some_history,
)

pub end_dispatch-IsSound :
    (d : Dispatch) (busy : List Dispatch) (b : EventBus)
    → b.busy ≡ d ∷ busy
    → IsSound b
    → IsSound (end_dispatch d busy b)
end_dispatch-IsSound d busy b front s = record {
  bounded = s.bounded;
  in_order = s.in_order;
  accounted = omega (arith, ap length front, s.accounted);
  one_place = λ w.
      omega
        (arith, ap (count_busy w) front, count_idle-append w b.idle (d.worker ∷ []), s.one_place w);
  few_workers = s.few_workers;
  some_history = s.some_history;
  few_failures = s.few_failures;
}

pub after_handler-IsSound :
    (outcome : HandlerOutcome) (d : Dispatch) (h : RegisteredHandler)
    (matched : List RegisteredHandler) (busy : List Dispatch) (b : EventBus)
    → b.busy ≡ d ∷ busy
    → IsSound b
    → IsSound (after_handler outcome d h matched busy b)
unfolding after_handler record_handler_failure
after_handler-IsSound returned d h matched busy b front s = record {
  bounded = s.bounded;
  in_order = s.in_order;
  accounted = omega (arith, ap length front, s.accounted);
  one_place = λ w. omega (arith, ap (count_busy w) front, s.one_place w);
  few_workers = s.few_workers;
  some_history = s.some_history;
  few_failures = s.few_failures;
}
after_handler-IsSound (failed error_type message) d h matched busy b front s = record {
  bounded = s.bounded;
  in_order = s.in_order;
  accounted = omega (arith, ap length front, s.accounted);
  one_place = λ w. omega (arith, ap (count_busy w) front, s.one_place w);
  few_workers = s.few_workers;
  some_history = s.some_history;
  few_failures = fewer_failures b.failure_history_size _ b.failures s.some_history;
}
after_handler-IsSound cancelled d h matched busy b front s = record {
  bounded = s.bounded;
  in_order = s.in_order;
  accounted = omega (arith, ap length front, s.accounted);
  one_place = λ w. omega (arith, ap (count_busy w) front, s.one_place w);
  few_workers = s.few_workers;
  some_history = s.some_history;
  few_failures = s.few_failures;
}

continued :
    (outcome : HandlerOutcome) (d : Dispatch) (hs : List RegisteredHandler) (busy : List Dispatch)
    (b : EventBus)
    → d.matched ≡ hs
    → b.busy ≡ d ∷ busy
    → IsSound b
    → IsSound (or_same b (continue_with outcome b (d ∷ busy)))
continued outcome d [] busy b none_left front s =
    rw none_left (end_dispatch-IsSound d busy b front s)
continued outcome d (h ∷ hs) busy b some_left front s =
    rw some_left (after_handler-IsSound outcome d h hs busy b front s)

pub continue_with-IsSound :
    (outcome : HandlerOutcome) (b : EventBus) (busy : List Dispatch)
    → b.busy ≡ busy
    → IsSound b
    → IsSound (or_same b (continue_with outcome b busy))
continue_with-IsSound outcome b [] front s = s
continue_with-IsSound outcome b (d ∷ busy) front s =
    continued outcome d d.matched busy b refl front s
