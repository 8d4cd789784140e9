-- ===== src/Hardware/Frames/Flight.antt =====
-- rci/hardware/protocol_transport.py: the frames on their way from one side of the link to the
-- other, and one call of the receiver.
use robotic_character_interf.Base.{
  none, ℕ, suc, ◌+◌, ◌≤◌, ◌≡◌, refl, Bool, true, false, List, [], ◌∷◌, ◌++◌, arith,
}
use Prim.Native.Nat.{min}
use robotic_character_interf.Base.Lists.{length, take, drop, All}
use robotic_character_interf.Hardware.Memory.{
  with_incoming, read_once, resume_read, count_read, endpoint, read_channel, with_buffer,
  read_bytes, with_endpoint, is_open, Channel, Link, Side, host, device, incoming, outgoing,
}
use robotic_character_interf.Protocol.Framing.{Frame}
use robotic_character_interf.Hardware.Frames.{
  blocked, fault, frame, Reception, FrameTransport, Reply,
}
use robotic_character_interf.Protocol.Stream.Delivery.{encode_all}
use robotic_character_interf.Hardware.{timeout_error, waits, done}
use robotic_character_interf.Protocol.Stream.Chunks.{IsSmall, IsIncomplete}
use robotic_character_interf.Base.Message.{say}

-- Both sides are open, and so are both channels.
pub record IsUp (l : Link) : Type 0 where
  pub host_open : is_open l.first ≡ true
  pub device_open : is_open l.second ≡ true
  pub forward_open : l.forward.closed ≡ false
  pub backward_open : l.backward.closed ≡ false

-- The receiver and its channel have these frames for the caller, in this order: some are decoded,
-- the bytes of the others are in the decoder's buffer and in the channel's. A frame is at most
-- `room` bytes long, and the decoder has room for all but one of them and a read.
pub record IsInFlight (room : ℕ) (queue : List Frame) (t : FrameTransport) (c : Channel)
    : Type 0 where
  pub later : List Frame
  pub in_order : queue ≡ t.frames ++ later
  pub no_issue : t.issues ≡ []
  pub left : t.decoder.buffer ++ c.buffer ≡ encode_all later
  pub incomplete : IsIncomplete later t.decoder.buffer
  pub small : All (IsSmall room) later
  pub some_room : 1 ≤ room
  pub roomy : room + t.read_size ≤ suc t.decoder.max_buffer_bytes
  pub reads : 1 ≤ t.read_size

-- What the receiver's caller sees of a queue of frames.
abbrev pub first_of : Bool → List Frame → Reply
first_of late (f ∷ queue) = frame f
first_of true [] = fault (timeout_error (say "protocol frame receive timed out"))
first_of false [] = blocked

abbrev pub rest_of : List Frame → List Frame
rest_of [] = []
rest_of (f ∷ queue) = queue

pub record IsDequeued (room : ℕ) (queue : List Frame) (s : Side) (late : Bool) (l : Link)
    (r : Reception) : Type 0 where
  pub reply : r.reply ≡ first_of late queue
  pub flight : IsInFlight room (rest_of queue) r.transport (incoming s r.link)
  pub up : IsUp r.link
  pub other_way : outgoing s r.link ≡ outgoing s l
  pub same_capacity : (incoming s r.link).capacity_bytes ≡ (incoming s l).capacity_bytes

-- The link after `count` bytes have been read from the side's channel.
abbrev pub taken_from : Side → ℕ → Link → Link
taken_from s count l =
    with_endpoint s (count_read (length (take count (incoming s l).buffer)) (endpoint s l))
      (with_incoming s (with_buffer (drop count (incoming s l).buffer) (incoming s l)) l)

pub taken_from-IsUp : (s : Side) (count : ℕ) (l : Link) → IsUp l → IsUp (taken_from s count l)
unfolding is_open
taken_from-IsUp host count l up = record {
  host_open = up.host_open;
  device_open = up.device_open;
  forward_open = up.forward_open;
  backward_open = up.backward_open;
}
taken_from-IsUp device count l up = record {
  host_open = up.host_open;
  device_open = up.device_open;
  forward_open = up.forward_open;
  backward_open = up.backward_open;
}

pub taken_from-incoming :
    (s : Side) (count : ℕ) (l : Link)
    → incoming s (taken_from s count l)
      ≡ with_buffer (drop count (incoming s l).buffer) (incoming s l)
taken_from-incoming host count l = refl
taken_from-incoming device count l = refl

pub taken_from-outgoing :
    (s : Side) (count : ℕ) (l : Link) → outgoing s (taken_from s count l) ≡ outgoing s l
taken_from-outgoing host count l = refl
taken_from-outgoing device count l = refl

pub IsUp-endpoint : (s : Side) (l : Link) → IsUp l → is_open (endpoint s l) ≡ true
IsUp-endpoint host l up = up.host_open
IsUp-endpoint device l up = up.device_open

pub IsUp-incoming : (s : Side) (l : Link) → IsUp l → (incoming s l).closed ≡ false
IsUp-incoming host l up = up.backward_open
IsUp-incoming device l up = up.forward_open

pub read_channel_empty :
    (n : ℕ) (c : Channel)
    → 1 ≤ n
    → c.closed ≡ false
    → c.buffer ≡ []
    → read_channel n none false c ≡ waits
unfolding read_channel read_once
read_channel_empty n c pos alive empty = ground arith

pub read_channel_some :
    (n : ℕ) (c : Channel)
    → 1 ≤ n
    → c.closed ≡ false
    → 1 ≤ length c.buffer
    → read_channel n none false c
      ≡ done (
        take (min n (length c.buffer)) c.buffer,
        with_buffer (drop (min n (length c.buffer)) c.buffer) c,
      )
unfolding read_channel read_once
read_channel_some n c pos alive some_left = ground arith

pub read_bytes_empty :
    (s : Side) (n : ℕ) (l : Link)
    → IsUp l
    → 1 ≤ n
    → (incoming s l).buffer ≡ []
    → read_bytes s n none false l ≡ waits
unfolding read_bytes resume_read
read_bytes_empty s n l up pos empty =
    rw (IsUp-endpoint s l up, read_channel_empty n (incoming s l) pos (IsUp-incoming s l up) empty)
      refl

pub read_bytes_some :
    (s : Side) (n : ℕ) (l : Link)
    → IsUp l
    → 1 ≤ n
    → 1 ≤ length (incoming s l).buffer
    → read_bytes s n none false l
      ≡ done (
        take (min n (length (incoming s l).buffer)) (incoming s l).buffer,
        taken_from s (min n (length (incoming s l).buffer)) l,
      )
unfolding read_bytes resume_read
read_bytes_some s n l up pos some_left =
    rw
      (
        IsUp-endpoint s l up,
        read_channel_some n (incoming s l) pos (IsUp-incoming s l up) some_left,
      )
      refl
