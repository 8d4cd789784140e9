-- ===== src/Hardware/Frames/Queue.antt =====
-- rci/hardware/protocol_transport.py: sending and receiving frames over the link as a queue.
use robotic_character_interf.Base.{
  ℕ, zero, suc, ◌≤◌, ◌<◌, ◌≡◌, refl, ap, ◌∙◌, Bool, false, Option, some, List, [], ◌∷◌, arith,
}
use Prim.Native.Nat.{min}
use robotic_character_interf.Base.Lists.{length, take, length-take, length-drop}
use robotic_character_interf.Hardware.Memory.{
  has_deadline, bad_timeout, Link, Side, incoming, outgoing,
}
use robotic_character_interf.Hardware.Frames.Flight.{
  taken_from-IsUp, taken_from-outgoing, taken_from-incoming, read_bytes_some, IsInFlight,
  IsDequeued, IsUp, taken_from,
}
use robotic_character_interf.Hardware.Frames.{
  extended, receive_once, Reception, FrameTransport, receive_frame, take_chunk,
}
use robotic_character_interf.Protocol.Framing.{Frame}
use robotic_character_interf.Base.Float.{Float}
use robotic_character_interf.Protocol.Stream.{feed, DecodeBatch, FrameStreamDecoder}
use robotic_character_interf.Hardware.Frames.Receive.{
  receive_once-take_chunk, chunk_flight, dequeue_nothing, dequeue_frame,
}
use native.Mathlib.Decide.{dec_lt}
use robotic_character_interf.Hardware.{done}

take_chunk-feed :
    (again : FrameTransport → Link → Reception) (late : Bool) (t : FrameTransport) (l l' : Link)
    (chunk : List ℕ) (d : FrameStreamDecoder) (batch : DecodeBatch)
    → 1 ≤ length chunk
    → feed t.decoder chunk ≡ some (d, batch)
    → take_chunk again late t l (done (chunk, l')) ≡ again (extended t d batch) l'
unfolding take_chunk
take_chunk-feed again late t l l' [] d batch pos runs = absurd (omega arith)
take_chunk-feed again late t l l' (b ∷ chunk) d batch pos runs = rw runs refl

min_pos : (a b : ℕ) → 1 ≤ a → 1 ≤ b → (1 ≤ min a b) × (min a b ≤ b) × (min a b ≤ a)
min_pos a b ha hb = (omega arith, omega arith, omega arith)

length_pos : {A : Type 0} (xs : List A) → ((length xs ≡ 0) → xs ≡ [])
length_pos [] h = refl
length_pos (x ∷ xs) h = absurd (omega arith)

-- The other way's channel is as it was.
IsDequeued-later :
    {room : ℕ} {queue : List Frame} {s : Side} {late : Bool} {r : Reception} (l l' : Link)
    → outgoing s l' ≡ outgoing s l
    → (incoming s l').capacity_bytes ≡ (incoming s l).capacity_bytes
    → IsDequeued room queue s late l' r
    → IsDequeued room queue s late l r
IsDequeued-later l l' same capacity q = record {
  reply = q.reply;
  flight = q.flight;
  up = q.up;
  other_way = q.other_way ∙ same;
  same_capacity = q.same_capacity ∙ capacity;
}

receive_once-IsDequeued :
    (fuel room : ℕ) (queue : List Frame) (s : Side) (late : Bool) (t : FrameTransport) (l : Link)
    (frames : List Frame)
    → t.frames ≡ frames
    → IsUp l
    → IsInFlight room queue t (incoming s l)
    → length (incoming s l).buffer < fuel
    → IsDequeued room queue s late l (receive_once fuel s late t l)
receive_once-IsDequeued zero room queue s late t l frames e up flight enough = absurd (omega arith)
receive_once-IsDequeued (suc fuel) room queue s late t l (f ∷ frames) e up flight enough =
    dequeue_frame fuel room queue s late t l f frames up flight e
receive_once-IsDequeued (suc fuel) room queue s late t l [] e up flight enough =
    let bytes = (incoming s l).buffer in
    elim (dec_lt (length bytes) 1) [
      | yes idle ↦
          dequeue_nothing fuel room queue s late t l up flight e
            (length_pos bytes (omega (arith, idle)))
      | no more ↦
          let count = min t.read_size (length bytes) in
          let (pos, within, few) =
            min_pos t.read_size (length bytes) flight.reads (omega (arith, more)) in
          let (d, batch, runs, next) = chunk_flight room queue s t l count flight e few in
          let after =
            receive_once-take_chunk fuel s late t l (done (take count bytes, taken_from s count l))
              flight.no_issue e
              (read_bytes_some s t.read_size l up flight.reads (omega (arith, more)))
            ∙ take_chunk-feed (receive_once fuel s late) late t l (taken_from s count l)
                (take count bytes) d batch (omega (arith, length-take count bytes, pos, within))
                runs in
          let shorter = ap (λ c. length c.buffer) (taken_from-incoming s count l) in
          rw after (
            IsDequeued-later l (taken_from s count l) (taken_from-outgoing s count l)
              (ap (λ c. c.capacity_bytes) (taken_from-incoming s count l))
              (receive_once-IsDequeued fuel room queue s late (extended t d batch)
                (taken_from s count l) (extended t d batch).frames refl
                (taken_from-IsUp s count l up) next
                (omega (arith, shorter, length-drop count bytes, pos, within, enough))))
    ]

-- Whenever the receiver has some frames in flight, one call, with any timeout that is not refused,
-- ends with the first of them and leaves the others in flight; with none in flight it waits,
-- or times out if its deadline passes.
pub receive_frame-IsDequeued :
    (room : ℕ) (queue : List Frame) (s : Side) (timeout : Option Float) (late : Bool)
    (t : FrameTransport) (l : Link)
    → bad_timeout timeout ≡ false
    → IsUp l
    → IsInFlight room queue t (incoming s l)
    → IsDequeued room queue s (has_deadline timeout late) l (receive_frame s timeout late t l)
unfolding receive_frame
receive_frame-IsDequeued room queue s timeout late t l good up flight = rw good (
    receive_once-IsDequeued (suc (length (incoming s l).buffer)) room queue s
      (has_deadline timeout late) t l t.frames refl up flight (omega arith))
