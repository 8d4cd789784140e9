-- ===== src/Events/Bus/Spins.antt =====
-- rci/events/bus.py: which worker comes first changes nothing else.
use robotic_character_interf.Base.{ℕ, zero, suc, ◌≡◌, refl, ◌∙◌, arith, Bool, List, [], ◌∷◌}
use robotic_character_interf.Base.Lists.{length}
use robotic_character_interf.Events.Bus.{rotated, EventBus, Event, Dispatch, RegisteredHandler}
use robotic_character_interf.Events.Bus.Invariant.{IsSound}
use robotic_character_interf.Events.Bus.Runs.{
  rotate_busy-IsSound, rotate_idle-IsSound, length-rotated,
}
use robotic_character_interf.Events.Bus.Schedule.{Choice, spin, spun, owed_busy}
use robotic_character_interf.Events.Bus.Turns.{owed_busy-append}

pub length-spin : {A : Type 0} (n : ℕ) (xs : List A) → length (spin n xs) ≡ length xs
length-spin zero xs = refl
length-spin (suc n) xs = length-spin n (rotated xs) ∙ length-rotated xs

owed_busy-rotated :
    (q : Event → RegisteredHandler → Bool) (busy : List Dispatch)
    → owed_busy q (rotated busy) ≡ owed_busy q busy
owed_busy-rotated q [] = refl
owed_busy-rotated q (d ∷ busy) = omega (arith, owed_busy-append q busy (d ∷ []))

pub owed_busy-spin :
    (q : Event → RegisteredHandler → Bool) (n : ℕ) (busy : List Dispatch)
    → owed_busy q (spin n busy) ≡ owed_busy q busy
owed_busy-spin q zero busy = refl
owed_busy-spin q (suc n) busy = owed_busy-spin q n (rotated busy) ∙ owed_busy-rotated q busy

spin_busy-IsSound :
    (n : ℕ) (b : EventBus) (busy : List Dispatch)
    → IsSound (record b { busy = busy })
    → IsSound (record b { busy = spin n busy })
spin_busy-IsSound zero b busy s = s
spin_busy-IsSound (suc n) b busy s =
    spin_busy-IsSound n b (rotated busy) (rotate_busy-IsSound (record b { busy = busy }) s)

spin_idle-IsSound :
    (n : ℕ) (b : EventBus) (idle : List ℕ)
    → IsSound (record b { idle = idle })
    → IsSound (record b { idle = spin n idle })
spin_idle-IsSound zero b idle s = s
spin_idle-IsSound (suc n) b idle s =
    spin_idle-IsSound n b (rotated idle) (rotate_idle-IsSound (record b { idle = idle }) s)

pub spun-IsSound : (c : Choice) (b : EventBus) → IsSound b → IsSound (spun c b)
spun-IsSound c b s =
    spin_busy-IsSound c.busy_spins (record b { idle = spin c.idle_spins b.idle }) b.busy
      (spin_idle-IsSound c.idle_spins b b.idle s)
