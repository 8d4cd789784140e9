-- ===== src/Hardware/Frames/Receive.antt =====
-- rci/hardware/protocol_transport.py: `receive_frame` as the end of a queue of frames.
use robotic_character_interf.Base.{
  some, none, ℕ, suc, ◌≤◌, ◌≡◌, refl, sym, ap, subst, ◌∙◌, Bool, true, false, List, [], ◌∷◌, ◌++◌,
  arith,
}
use mathlib.Core.List.{append-nil}
use Prim.Native.Nat.{min}
use robotic_character_interf.Base.Lists.{
  All-append, take-append-drop, length, take, drop, All, length-take,
}
use robotic_character_interf.Hardware.Memory.{read_bytes, Link, Side, incoming}
use robotic_character_interf.Hardware.Frames.Flight.{
  taken_from-incoming, read_bytes_empty, IsInFlight, IsDequeued, IsUp, taken_from, first_of,
  rest_of,
}
use robotic_character_interf.Hardware.Frames.{
  extended, stays, take_frame, Reception, FrameTransport, take_chunk, receive_once,
}
use robotic_character_interf.Protocol.Framing.{Frame}
use robotic_character_interf.Protocol.Stream.Delivery.{length-encode_then, encode_all}
use robotic_character_interf.Protocol.Stream.Chunks.{feed-IsChunkFed, IsIncomplete, IsSmall}
use robotic_character_interf.Hardware.{waits, Outcome}
use robotic_character_interf.Protocol.Stream.{feed, DecodeBatch, FrameStreamDecoder}

-- Nothing is to come of frames whose bytes are all in a buffer without a whole frame.
none_later :
    (later : List Frame) (buffer : List ℕ)
    → buffer ++ [] ≡ encode_all later
    → IsIncomplete later buffer
    → later ≡ []
none_later [] buffer left incomplete = refl
none_later (f ∷ later) buffer left incomplete = absurd (
    omega (
      arith,
      ap length (sym (append-nil buffer) ∙ left),
      length-encode_then f (encode_all later),
      incomplete,
    ))

-- The front of a buffer never is as long as the next frame.
incomplete_room :
    (room : ℕ) (later : List Frame) (buffer : List ℕ)
    → 1 ≤ room
    → All (IsSmall room) later
    → IsIncomplete later buffer
    → suc (length buffer) ≤ room
incomplete_room room [] buffer some_room small incomplete =
    omega (arith, ap length incomplete, some_room)
incomplete_room room (f ∷ later) buffer some_room small incomplete =
    omega (arith, incomplete, small.0.fits)

All-IsSmall_mono :
    (room max : ℕ) (frames : List Frame)
    → room ≤ max
    → All (IsSmall room) frames
    → All (IsSmall max) frames
All-IsSmall_mono room max [] h a = a
All-IsSmall_mono room max (f ∷ frames) h a = (
  record { valid = a.0.valid; fits = omega (arith, a.0.fits, h) },
  All-IsSmall_mono room max frames h a.1,
)

receive_once-take_frame :
    (fuel : ℕ) (s : Side) (late : Bool) (t : FrameTransport) (l : Link) (f : Frame)
    (frames : List Frame)
    → t.issues ≡ []
    → t.frames ≡ f ∷ frames
    → receive_once (suc fuel) s late t l ≡ take_frame t f frames l
unfolding receive_once
receive_once-take_frame fuel s late t l f frames no_issue some_left = rw (no_issue, some_left) refl

pub receive_once-take_chunk :
    (fuel : ℕ) (s : Side) (late : Bool) (t : FrameTransport) (l : Link)
    (o : Outcome (List ℕ × Link))
    → t.issues ≡ []
    → t.frames ≡ []
    → read_bytes s t.read_size none false l ≡ o
    → receive_once (suc fuel) s late t l ≡ take_chunk (receive_once fuel s late) late t l o
unfolding receive_once
receive_once-take_chunk fuel s late t l o no_issue empty e = ground (arith, no_issue, empty, e)

-- A decoded frame is there.
pub dequeue_frame :
    (fuel room : ℕ) (queue : List Frame) (s : Side) (late : Bool) (t : FrameTransport) (l : Link)
    (f : Frame) (frames : List Frame)
    → IsUp l
    → IsInFlight room queue t (incoming s l)
    → t.frames ≡ f ∷ frames
    → IsDequeued room queue s late l (receive_once (suc fuel) s late t l)
dequeue_frame fuel room queue s late t l f frames up flight some_left =
    let front = flight.in_order ∙ ap (λ fs. fs ++ flight.later) some_left in
    rw (receive_once-take_frame fuel s late t l f frames flight.no_issue some_left) (record {
      reply = sym (ap (first_of late) front);
      flight = record {
        later = flight.later;
        in_order = ap rest_of front;
        no_issue = flight.no_issue;
        left = flight.left;
        incomplete = flight.incomplete;
        small = flight.small;
        some_room = flight.some_room;
        roomy = flight.roomy;
        reads = flight.reads;
      };
      up = up;
      other_way = refl;
      same_capacity = refl;
    })

waiting :
    (late : Bool) (t : FrameTransport) (l : Link) (again : FrameTransport → Link → Reception)
    → take_chunk again late t l waits ≡ stays (first_of late []) t l
unfolding take_chunk
waiting true t l again = refl
waiting false t l again = refl

-- Nothing is there to be read.
pub dequeue_nothing :
    (fuel room : ℕ) (queue : List Frame) (s : Side) (late : Bool) (t : FrameTransport) (l : Link)
    → IsUp l
    → IsInFlight room queue t (incoming s l)
    → t.frames ≡ []
    → (incoming s l).buffer ≡ []
    → IsDequeued room queue s late l (receive_once (suc fuel) s late t l)
dequeue_nothing fuel room queue s late t l up flight empty idle =
    let no_more =
      none_later flight.later t.decoder.buffer
        (subst (λ b. t.decoder.buffer ++ b ≡ encode_all flight.later) idle flight.left)
        flight.incomplete in
    let nothing : queue ≡ [] = flight.in_order ∙ ap (λ fs. fs ++ flight.later) empty ∙ no_more in
    rw
      (receive_once-take_chunk fuel s late t l waits flight.no_issue empty
          (read_bytes_empty s t.read_size l up flight.reads idle)
        ∙ waiting late t l (receive_once fuel s late))
      (record {
        reply = sym (ap (first_of late) nothing);
        flight =
            subst (λ q. IsInFlight room (rest_of q) t (incoming s l)) (sym nothing)
              (subst (λ q. IsInFlight room q t (incoming s l)) nothing flight);
        up = up;
        other_way = refl;
        same_capacity = refl;
      })

min-le : (a b : ℕ) → min a b ≤ a
min-le a b = omega arith

-- A chunk is read, and the decoder makes the next frames of it.
pub chunk_flight :
    (room : ℕ) (queue : List Frame) (s : Side) (t : FrameTransport) (l : Link) (count : ℕ)
    (flight : IsInFlight room queue t (incoming s l))
    → t.frames ≡ []
    → count ≤ t.read_size
    → (d : FrameStreamDecoder) × (batch : DecodeBatch) × (feed t.decoder
          (take count (incoming s l).buffer)
        ≡ some (d, batch))
      × IsInFlight room queue (extended t d batch) (incoming s (taken_from s count l))
chunk_flight room queue s t l count flight empty few =
    let bytes = (incoming s l).buffer in
    let (d, batch, runs, fed) =
      feed-IsChunkFed t.decoder flight.later (take count bytes) (drop count bytes)
        (All-IsSmall_mono room t.decoder.max_buffer_bytes flight.later
          (omega (arith, flight.roomy, flight.reads)) flight.small)
        (ap (λ b. t.decoder.buffer ++ b) (take-append-drop count bytes) ∙ flight.left)
        (omega (
          arith,
          incomplete_room room flight.later t.decoder.buffer flight.some_room flight.small
              flight.incomplete,
          length-take count bytes,
          min-le count (length bytes),
          flight.roomy,
          few,
        )) in
    (
      d,
      batch,
      runs,
      record {
        later = fed.later;
        in_order =
            flight.in_order
            ∙ ap (λ fs. fs ++ flight.later) empty
            ∙ fed.in_order
            ∙ ap (λ fs. (fs ++ batch.frames) ++ fed.later) (sym empty);
        no_issue = ap (λ is. is ++ batch.issues) flight.no_issue ∙ fed.no_issue;
        left = ap (λ c. d.buffer ++ c.buffer) (taken_from-incoming s count l) ∙ fed.left;
        incomplete = fed.incomplete;
        small =
            ((All-append (IsSmall room) batch.frames fed.later).0
              (subst (All (IsSmall room)) fed.in_order flight.small)).1;
        some_room = flight.some_room;
        roomy = omega (arith, flight.roomy, fed.same_bound);
        reads = flight.reads;
      },
    )
