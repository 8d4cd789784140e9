-- ===== src/Simulation/ProtocolLink/Sending.antt =====
-- rci/simulation/protocol_link.py: sending over the link, in both directions.
use robotic_character_interf.Base.{
  inr, inl, ◌⊎◌, ℕ, ◌+◌, ◌≤◌, ◌<◌, ◌≡◌, refl, sym, ap, ◌∙◌, false, List, [], ◌∷◌, ◌++◌, arith,
}
use mathlib.Core.List.{append-nil, append_assoc}
use robotic_character_interf.Base.Lists.{All-append, length-append, length}
use robotic_character_interf.Hardware.{TransportFault, waits, raised}
use robotic_character_interf.Hardware.Memory.{write_channel, Channel}
use robotic_character_interf.Protocol.Stream.Chunks.{IsIncomplete, IsSmall}
use robotic_character_interf.Protocol.Framing.{encode, Frame}
use robotic_character_interf.Hardware.Frames.{FrameTransport}
use robotic_character_interf.Hardware.Frames.Flight.{IsInFlight}
use robotic_character_interf.Protocol.Stream.Delivery.{encode_all}

encode_all-append : (fs gs : List Frame) → encode_all (fs ++ gs) ≡ encode_all fs ++ encode_all gs
encode_all-append [] gs = refl
encode_all-append (f ∷ fs) gs =
    ap (λ t. encode f ++ t) (encode_all-append fs gs)
    ∙ sym (append_assoc (encode f) (encode_all fs) (encode_all gs))

IsIncomplete-append :
    (later : List Frame) (f : Frame) (buffer : List ℕ)
    → IsIncomplete later buffer
    → IsIncomplete (later ++ f ∷ []) buffer
IsIncomplete-append [] f buffer h = omega (arith, ap length h)
IsIncomplete-append (g ∷ later) f buffer h = h

-- A frame joins the frames in flight when its bytes join those of the channel.
pub IsInFlight-send :
    (room : ℕ) (queue : List Frame) (t : FrameTransport) (c c' : Channel) (f : Frame)
    → IsSmall room f
    → c'.buffer ≡ c.buffer ++ encode f
    → IsInFlight room queue t c
    → IsInFlight room (queue ++ f ∷ []) t c'
IsInFlight-send room queue t c c' f small appended flight = record {
  later = flight.later ++ f ∷ [];
  in_order = ap (λ q. q ++ f ∷ []) flight.in_order ∙ append_assoc t.frames flight.later (f ∷ []);
  no_issue = flight.no_issue;
  left =
      ap (λ b. t.decoder.buffer ++ b) appended
      ∙ sym (append_assoc t.decoder.buffer c.buffer (encode f))
      ∙ ap (λ b. b ++ encode f) flight.left
      ∙ ap (λ b. encode_all flight.later ++ b) (sym (append-nil (encode f)))
      ∙ sym (encode_all-append flight.later (f ∷ []));
  incomplete = IsIncomplete-append flight.later f t.decoder.buffer flight.incomplete;
  small = (All-append (IsSmall room) flight.later (f ∷ [])).1 (flight.small, (small, tt));
  some_room = flight.some_room;
  roomy = flight.roomy;
  reads = flight.reads;
}

-- The bytes in the channel are among those of the frames in flight.
pub IsInFlight-bytes :
    {room : ℕ} {queue : List Frame} {t : FrameTransport} {c : Channel} (f : Frame)
    → IsInFlight room queue t c
    → length c.buffer + length (encode f) ≤ length (encode_all (queue ++ f ∷ []))
IsInFlight-bytes {queue = queue} {t = t} {c = c} f flight = omega (
  arith,
  ap length (encode_all-append queue (f ∷ [])),
  length-append (encode_all queue) (encode_all (f ∷ [])),
  length-append (encode f) [],
  ap (λ q. length (encode_all q)) flight.in_order,
  ap length (encode_all-append t.frames flight.later),
  length-append (encode_all t.frames) (encode_all flight.later),
  ap length flight.left,
  length-append t.decoder.buffer c.buffer,
)

pub write_channel_refused :
    (bytes : List ℕ) (c : Channel)
    → c.closed ≡ false
    → (write_channel bytes c ≡ waits)
      ⊎ ((fault : TransportFault) × (write_channel bytes c ≡ raised fault))
    → c.capacity_bytes < length c.buffer + length bytes
unfolding write_channel
write_channel_refused bytes c alive (inl h) = ground arith
write_channel_refused bytes c alive (inr (fault, h)) = ground arith
