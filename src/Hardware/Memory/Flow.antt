-- ===== src/Hardware/Memory/Flow.antt =====
-- rci/hardware/memory_transport.py: the bytes that go through the two channels in any sequence of
-- calls on the two endpoints.
use robotic_character_interf.Base.{
  sym, ◌∙◌, ap, Bool, Option, ◌≤◌, ℕ, ◌≡◌, List, [], ◌∷◌, ◌++◌, arith,
}
use robotic_character_interf.Base.Lists.{length, length-append, take-append-drop}
use Prim.Native.Nat.{min}
use mathlib.Core.List.{append_assoc, append-nil}
use robotic_character_interf.Hardware.{done}
use robotic_character_interf.Hardware.Memory.{
  count_read, count_written, Endpoint, read_once, read_channel, write_channel, Channel,
}
use robotic_character_interf.Base.Float.{Float}

pub write_channel-buffer :
    (bytes : List ℕ) (c c' : Channel)
    → write_channel bytes c ≡ done c'
    → c'.buffer ≡ c.buffer ++ bytes
unfolding write_channel
write_channel-buffer [] c c' h = ground (arith, append-nil c.buffer)
write_channel-buffer (b ∷ bytes) c c' h = ground arith

pub write_channel-capacity :
    (bytes : List ℕ) (c c' : Channel)
    → write_channel bytes c ≡ done c'
    → c'.capacity_bytes ≡ c.capacity_bytes
unfolding write_channel
write_channel-capacity bytes c c' h = ground arith

write_channel-bounded :
    (bytes : List ℕ) (c c' : Channel)
    → write_channel bytes c ≡ done c'
    → length c.buffer ≤ c.capacity_bytes
    → length c'.buffer ≤ c.capacity_bytes
unfolding write_channel
write_channel-bounded bytes c c' h b = ground (arith, length-append c.buffer bytes)

read_channel-front :
    (n : ℕ) (t : Option Float) (late : Bool) (c c' : Channel) (bytes : List ℕ)
    → read_channel n t late c ≡ done (bytes, c')
    → c.buffer ≡ bytes ++ c'.buffer
unfolding read_channel read_once
read_channel-front n t late c c' bytes h =
    ground (arith, take-append-drop (min n (length c.buffer)) c.buffer)

read_channel-capacity :
    (n : ℕ) (t : Option Float) (late : Bool) (c c' : Channel) (bytes : List ℕ)
    → read_channel n t late c ≡ done (bytes, c')
    → c'.capacity_bytes ≡ c.capacity_bytes
unfolding read_channel read_once
read_channel-capacity n t late c c' bytes h = ground arith

-- One direction of the link: what its writer had accepted and what its reader was given.
pub record Flows (capacity : ℕ) (writer reader : Endpoint) (c : Channel)
    (accepted returned : List ℕ) : Type 0 where
  pub in_order : accepted ≡ returned ++ c.buffer
  pub bounded : length c.buffer ≤ capacity
  pub same_capacity : c.capacity_bytes ≡ capacity
  pub counted_written : writer.bytes_written ≡ length accepted
  pub counted_read : reader.bytes_read ≡ length returned

pub Flows-write :
    {capacity : ℕ} {w r : Endpoint} {c : Channel} {accepted returned : List ℕ} (bytes : List ℕ)
    (c' : Channel)
    → Flows capacity w r c accepted returned
    → write_channel bytes c ≡ done c'
    → Flows capacity (count_written (length bytes) w) r c' (accepted ++ bytes) returned
Flows-write {c = c} {accepted = accepted} {returned = returned} bytes c' f h =
    let buffer = write_channel-buffer bytes c c' h in
    let room = write_channel-bounded bytes c c' h in
    record {
      in_order =
          ap (λ t. t ++ bytes) f.in_order
          ∙ append_assoc returned c.buffer bytes
          ∙ ap (λ t. returned ++ t) (sym buffer);
      bounded = omega (arith, room (omega (arith, f.bounded, f.same_capacity)), f.same_capacity);
      same_capacity = write_channel-capacity bytes c c' h ∙ f.same_capacity;
      counted_written = omega (arith, f.counted_written, length-append accepted bytes);
      counted_read = f.counted_read;
    }

pub Flows-read :
    {capacity : ℕ} {w r : Endpoint} {c : Channel} {accepted returned : List ℕ} (n : ℕ)
    (t : Option Float) (late : Bool) (bytes : List ℕ) (c' : Channel)
    → Flows capacity w r c accepted returned
    → read_channel n t late c ≡ done (bytes, c')
    → Flows capacity w (count_read (length bytes) r) c' accepted (returned ++ bytes)
Flows-read {c = c} {returned = returned} n t late bytes c' f h =
    let front = read_channel-front n t late c c' bytes h in
    record {
      in_order =
          f.in_order ∙ ap (λ b. returned ++ b) front ∙ sym (append_assoc returned bytes c'.buffer);
      bounded = omega (arith, f.bounded, ap length front, length-append bytes c'.buffer);
      same_capacity = read_channel-capacity n t late c c' bytes h ∙ f.same_capacity;
      counted_written = f.counted_written;
      counted_read = omega (arith, f.counted_read, length-append returned bytes);
    }
