-- ===== src/Simulation/Exchange.antt =====
-- rci/simulation/device.py and rci/simulation/protocol_link.py: a request over the link to the
-- device and its answer.
use robotic_character_interf.Base.{
  ℕ, ◌+◌, ◌%◌, ◌≤◌, ◌<◌, ◌≡◌, refl, arith, Bool, true, false, some, [], ◌∷◌, ◌++◌,
}
use robotic_character_interf.Base.Float.{Float}
use robotic_character_interf.Base.Int.{ℤ, pos}
use robotic_character_interf.Base.Lists.{length}
use robotic_character_interf.Hardware.{Outcome, done, waits, raised}
use robotic_character_interf.Hardware.Memory.{bad_timeout, host, device, Side, Link}
use robotic_character_interf.Simulation.ProtocolLink.{
  SimulatedProtocolLink, with_link, with_transport,
}
use robotic_character_interf.Simulation.ProtocolLink.Queues.{
  with_queue, other, queue_to, sends, Queues, IsLinked, after_send,
}
use robotic_character_interf.Protocol.Framing.{ok, pack_u16, Frame}
use robotic_character_interf.Protocol.Messages.Control.{encode_ack}
use robotic_character_interf.Simulation.Device.{
  serve_once, exchange_of, served, Served, status_of, dispatch, response_type, answer,
  DigitalTwinProtocolDevice, serve_frame,
}
use robotic_character_interf.Protocol.Constants.{status_value}
use robotic_character_interf.Protocol.Stream.Chunks.{IsSmall}
use robotic_character_interf.Protocol.Messages.{require_uint}
use robotic_character_interf.Simulation.ProtocolLink.Steps.{step-receives, step-sends, Next}
use robotic_character_interf.Protocol.Checksum.Detection.{IsByte}
use robotic_character_interf.Protocol.Stream.Delivery.{length-encode_then, encode_all}
use robotic_character_interf.Hardware.Frames.{frame, receive_frame, send_frame}

sent_when_it_fits :
    (room capacity : ℕ) (s : Side) (f : Frame) (q : Queues) (p : SimulatedProtocolLink)
    (o : Outcome Link)
    → Next room capacity (sends s f) (after_send p o).0 q (after_send p o).1
    → length (encode_all (queue_to (other s) q ++ f ∷ [])) ≤ capacity
    → (l : Link) × (o ≡ done l)
      × IsLinked room capacity
          (with_queue (other s) (queue_to (other s) q ++ f ∷ []) q)
          (with_link p l)
sent_when_it_fits room capacity s f q p (done l) next fits = (l, refl, next)
sent_when_it_fits room capacity s f q p waits next fits = absurd (omega (arith, next.0, fits))
sent_when_it_fits room capacity s f q p (raised fault) next fits =
    absurd (omega (arith, next.0, fits))

pub send_frame-fits :
    (room capacity : ℕ) (s : Side) (f : Frame) (q : Queues) (p : SimulatedProtocolLink)
    → IsSmall room f
    → IsLinked room capacity q p
    → length (encode_all (queue_to (other s) q ++ f ∷ [])) ≤ capacity
    → (l : Link) × (send_frame s f p.link ≡ done l)
      × IsLinked room capacity
          (with_queue (other s) (queue_to (other s) q ++ f ∷ []) q)
          (with_link p l)
send_frame-fits room capacity s f q p small linked fits =
    sent_when_it_fits room capacity s f q p (send_frame s f p.link)
      (step-sends room capacity s f q p small linked) fits

-- The answer of the device, with its payload of three bytes.
abbrev pub answer_frame : Frame → Bool → ℕ → Frame
answer_frame f good sequence = record {
  message_type = response_type good;
  sequence = sequence;
  payload = pack_u16 f.sequence ++ status_value (status_of good) ∷ [];
}

encode_ack-answer :
    (f : Frame) (good : Bool)
    → f.sequence ≤ 65535
    → encode_ack (record { acknowledged_sequence = pos f.sequence; status = status_of good })
      ≡ ok (pack_u16 f.sequence ++ status_value (status_of good) ∷ [])
unfolding encode_ack require_uint
encode_ack-answer f good fits = ground arith

status-IsByte : (good : Bool) → IsByte (status_value (status_of good))
unfolding status_value
status-IsByte true = omega arith
status-IsByte false = omega arith

answer_frame-IsSmall :
    (room : ℕ) (f : Frame) (good : Bool) (sequence : ℕ)
    → 13 ≤ room
    → f.sequence ≤ 65535
    → sequence < 65536
    → IsSmall room (answer_frame f good sequence)
answer_frame-IsSmall room f good sequence roomy fits next = record {
  valid = record {
    sequence_fits = omega (arith, next);
    payload_fits = omega arith;
    payload_bytes = (omega arith, (omega (arith, fits), (status-IsByte good, tt)));
  };
  fits = omega (arith, roomy);
}

-- What the device's turn comes to.
pub record IsAnswered (room capacity : ℕ) (centi : ℤ → Float) (f : Frame)
    (d : DigitalTwinProtocolDevice) (s : Served) : Type 0 where
  pub reply : s.reply ≡ served (exchange_of f (dispatch centi f d.twin).0)
  pub endpoint : s.endpoint ≡ record {
    twin = (dispatch centi f d.twin).1;
    response_sequence = (d.response_sequence + 1) % 65536;
  }
  pub linked :
      IsLinked room capacity
        (record {
          to_host = answer_frame f (dispatch centi f d.twin).0 d.response_sequence ∷ [];
          to_device = [];
        })
        s.link

IsAnswered-by :
    (room capacity : ℕ) (centi : ℤ → Float) (f : Frame) (d : DigitalTwinProtocolDevice)
    (p : SimulatedProtocolLink)
    → 13 ≤ room
    → 13 ≤ capacity
    → f.sequence ≤ 65535
    → d.response_sequence < 65536
    → IsLinked room capacity (record { to_host = []; to_device = [] }) p
    → IsAnswered room capacity centi f d (serve_frame centi d p f)
unfolding serve_frame answer
IsAnswered-by room capacity centi f d p roomy holds fits next linked =
    let good = (dispatch centi f d.twin).0 in
    let a = answer_frame f good d.response_sequence in
    let (l, sent, after) =
      send_frame-fits room capacity device a (record { to_host = []; to_device = [] }) p
        (answer_frame-IsSmall room f good d.response_sequence roomy fits next) linked
        (omega (arith, length-encode_then a [], holds)) in
    rw (encode_ack-answer f good fits, sent)
      (record { reply = refl; endpoint = refl; linked = after })

serve_once-IsAnswered :
    (room capacity : ℕ) (centi : ℤ → Float) (f : Frame) (timeout : Float) (late : Bool)
    (d : DigitalTwinProtocolDevice) (p : SimulatedProtocolLink)
    → 13 ≤ room
    → 13 ≤ capacity
    → f.sequence ≤ 65535
    → d.response_sequence < 65536
    → bad_timeout (some timeout) ≡ false
    → IsLinked room capacity (record { to_host = []; to_device = f ∷ [] }) p
    → IsAnswered room capacity centi f d (serve_once centi timeout late d p)
unfolding serve_once
serve_once-IsAnswered room capacity centi f timeout late d p roomy holds fits next good linked =
    let (seen, after) =
      step-receives room capacity device (some timeout) late
        (record { to_host = []; to_device = f ∷ [] }) p good linked in
    let r = receive_frame device (some timeout) late p.device p.link in
    rw seen (
      IsAnswered-by room capacity centi f d (with_transport device r.transport (with_link p r.link))
        roomy holds fits next after)

-- A frame of the host, the device's turn, and what the host then receives.
pub record IsExchanged (room capacity : ℕ) (centi : ℤ → Float) (f : Frame)
    (device_timeout host_timeout : Float) (device_late host_late : Bool)
    (d : DigitalTwinProtocolDevice) (p : SimulatedProtocolLink) : Type 0 where
  pub after_send_link : Link
  pub sent : send_frame host f p.link ≡ done after_send_link
  pub answered :
      IsAnswered room capacity centi f d
        (serve_once centi device_timeout device_late d (with_link p after_send_link))
  pub received :
      let s = serve_once centi device_timeout device_late d (with_link p after_send_link) in
      (receive_frame host (some host_timeout) host_late s.link.host s.link.link).reply
      ≡ frame (answer_frame f (dispatch centi f d.twin).0 d.response_sequence)
  pub settled :
      let s = serve_once centi device_timeout device_late d (with_link p after_send_link) in
      let r = receive_frame host (some host_timeout) host_late s.link.host s.link.link in
      IsLinked room capacity
        (record { to_host = []; to_device = [] })
        (with_transport host r.transport (with_link s.link r.link))

pub exchange-IsExchanged :
    (room capacity : ℕ) (centi : ℤ → Float) (f : Frame) (device_timeout host_timeout : Float)
    (device_late host_late : Bool) (d : DigitalTwinProtocolDevice) (p : SimulatedProtocolLink)
    → 13 ≤ room
    → 13 ≤ capacity
    → IsSmall room f
    → 10 + length f.payload ≤ capacity
    → d.response_sequence < 65536
    → bad_timeout (some device_timeout) ≡ false
    → bad_timeout (some host_timeout) ≡ false
    → IsLinked room capacity (record { to_host = []; to_device = [] }) p
    → IsExchanged room capacity centi f device_timeout host_timeout device_late host_late d p
exchange-IsExchanged room capacity centi f device_timeout host_timeout device_late host_late d p
      roomy holds small fits next good good' linked =
    let (l, sent, after) =
      send_frame-fits room capacity host f (record { to_host = []; to_device = [] }) p small linked
        (omega (arith, length-encode_then f [], fits)) in
    let s = serve_once centi device_timeout device_late d (with_link p l) in
    let a =
      serve_once-IsAnswered room capacity centi f device_timeout device_late d (with_link p l) roomy
        holds small.valid.sequence_fits next good after in
    let (seen, settled) =
      step-receives room capacity host (some host_timeout) host_late
        (record {
          to_host = answer_frame f (dispatch centi f d.twin).0 d.response_sequence ∷ [];
          to_device = [];
        })
        s.link good' a.linked in
    record { after_send_link = l; sent = sent; answered = a; received = seen; settled = settled }
