-- ===== src/Simulation/Commanded.antt =====
-- rci/hardware/robot_gateway.py against rci/simulation/device.py: an authorization over the link to
-- the digital twin.
use robotic_character_interf.Base.{
  is_none, ℕ, ◌≤◌, ◌<◌, ◌≡◌, refl, ap, ◌∙◌, arith, Bool, true, false, Option, none, some, List, [],
  ◌∷◌,
}
use robotic_character_interf.Base.Float.{Float}
use robotic_character_interf.Base.Dict.{Dict, keys}
use robotic_character_interf.Base.Int.{ℤ, pos}
use robotic_character_interf.Base.Lists.{length}
use robotic_character_interf.Hardware.Memory.{bad_timeout}
use robotic_character_interf.Hardware.Gateway.{
  judge, read_acknowledgement, finish_request, next_sequence, after_send, RobotGateway,
  GatewayResult, returns, raises, gateway_rejected, GatewayReceipt, answered, make_gateway,
  request_frame, request,
}
use robotic_character_interf.Hardware.Gateway.Commands.{
  command_payload, send_authorization, encode_authorization,
}
use robotic_character_interf.Hardware.Gateway.Delivery.{
  make_gateway-ids, IsDelivered, encode_authorization-IsDelivered,
}
use robotic_character_interf.Simulation.ProtocolLink.{SimulatedProtocolLink}
use robotic_character_interf.Simulation.Exchange.{exchange-IsExchanged, IsExchanged, answer_frame}
use robotic_character_interf.Safety.Supervisor.{MotionAuthorization}
use robotic_character_interf.Simulation.Device.{
  DigitalTwinProtocolDevice, after_motion, accepted_if, status_of, dispatch,
}
use robotic_character_interf.Protocol.Framing.{ok, Frame}
use robotic_character_interf.Protocol.Messages.Control.{decode_ack}
use robotic_character_interf.Protocol.Constants.{
  invalid, accepted, status_value, status_of_value, validated_motion_command,
}
use robotic_character_interf.Protocol.Messages.Motion.{
  encode_motion, decode_motion, ValidatedMotionCommand,
}
use robotic_character_interf.Base.Message.{int, lit, Message}
use robotic_character_interf.Hardware.Gateway.Requests.{receipt_of}
use robotic_character_interf.Simulation.Twin.{accept, DigitalTwinRobot}
use robotic_character_interf.Protocol.Messages.Fields.{unpack_u16-pack}
use robotic_character_interf.Hardware.Gateway.Decimals.{Decimal}
use robotic_character_interf.Protocol.Stream.Chunks.{IsSmall}
use robotic_character_interf.Hardware.Gateway.Encoding.{has_repeats}
use robotic_character_interf.Simulation.ProtocolLink.Queues.{IsLinked}

abbrev pub command_frame : RobotGateway → List ℕ → Frame
command_frame g payload = request_frame validated_motion_command g.sequence payload

-- What the gateway makes of the twin's verdict on the command.
abbrev pub verdict : MotionAuthorization → ℕ → Option Message → GatewayResult GatewayReceipt
verdict a sequence none =
    returns (receipt_of validated_motion_command (some a.authorization_id) sequence)
verdict a sequence (some refusal) = raises (
    gateway_rejected
      (lit "robot rejected sequence " ∷ int sequence ∷ lit ": " ∷ lit "INVALID" ∷ []))

dispatch-command :
    (centi : ℤ → Float) (sequence : ℕ) (payload : List ℕ) (m : ValidatedMotionCommand)
    (twin : DigitalTwinRobot)
    → decode_motion payload ≡ ok m
    → dispatch centi (request_frame validated_motion_command sequence payload) twin
      ≡ accepted_if (accept centi twin m)
unfolding dispatch
dispatch-command centi sequence payload m twin e = ap (after_motion centi twin) e

decode_ack-answer :
    (f : Frame) (good : Bool) (sequence : ℕ)
    → decode_ack (answer_frame f good sequence).payload
      ≡ ok (record { acknowledged_sequence = pos f.sequence; status = status_of good })
unfolding decode_ack status_of_value status_value
decode_ack-answer f true sequence =
    ap (λ n. ok (record { acknowledged_sequence = pos n; status = accepted }))
      (unpack_u16-pack f.sequence)
decode_ack-answer f false sequence =
    ap (λ n. ok (record { acknowledged_sequence = pos n; status = invalid }))
      (unpack_u16-pack f.sequence)

request-verdict :
    (a : MotionAuthorization) (g : RobotGateway) (payload : List ℕ) (refusal : Option Message)
    (sequence : ℕ)
    → (request true none
        (answered (answer_frame (command_frame g payload) (is_none refusal) sequence))
        validated_motion_command
        (some a.authorization_id)
        g).0
      ≡ verdict a g.sequence refusal
unfolding request after_send next_sequence finish_request read_acknowledgement judge
request-verdict a g payload none sequence =
    ground (arith, decode_ack-answer (command_frame g payload) true sequence)
request-verdict a g payload (some e) sequence =
    ground (arith, decode_ack-answer (command_frame g payload) false sequence)

send_authorization-payload :
    (decimal_of : Float → Option Decimal) (a : MotionAuthorization) (g : RobotGateway)
    (m : ValidatedMotionCommand) (payload : List ℕ) (response : Frame)
    → encode_authorization decimal_of g a ≡ returns m
    → encode_motion m ≡ ok payload
    → (command_payload decimal_of g a ≡ returns payload)
      × (send_authorization decimal_of true none (answered response) a g
          ≡ request true none
              (answered response)
              validated_motion_command
              (some a.authorization_id)
              g)
unfolding send_authorization command_payload
send_authorization-payload decimal_of a g m payload response made encoded =
    (rw (made, encoded) refl, rw (made, encoded) refl)

command_frame-IsSmall :
    (room : ℕ) (g : RobotGateway) (m : ValidatedMotionCommand) (payload : List ℕ)
    → 58 ≤ room
    → g.sequence < 65536
    → IsDelivered m payload
    → IsSmall room (command_frame g payload)
command_frame-IsSmall room g m payload roomy next v = record {
  valid = record {
    sequence_fits = omega (arith, next);
    payload_fits = omega (arith, v.sized, v.few_targets);
    payload_bytes = v.all_bytes;
  };
  fits = omega (arith, roomy, v.sized, v.few_targets);
}

-- An authorization over the link: the exchange of the command's frame, the twin after it, and what
-- the gateway returns for the answer that the host receives in the exchange.
pub record IsCarriedOut (room capacity : ℕ) (decimal_of : Float → Option Decimal)
    (centi : ℤ → Float) (a : MotionAuthorization) (m : ValidatedMotionCommand) (g : RobotGateway)
    (device_timeout host_timeout : Float) (device_late host_late : Bool)
    (d : DigitalTwinProtocolDevice) (p : SimulatedProtocolLink) : Type 0 where
  pub payload : List ℕ
  pub response : Frame
  pub encoded : command_payload decimal_of g a ≡ returns payload
  pub exchanged :
      IsExchanged room capacity centi
        (command_frame g payload)
        device_timeout
        host_timeout
        device_late
        host_late
        d
        p
  pub twin_after : (dispatch centi (command_frame g payload) d.twin).1 ≡ (accept centi d.twin m).1
  pub answer :
      response
      ≡ answer_frame
          (command_frame g payload)
          (dispatch centi (command_frame g payload) d.twin).0
          d.response_sequence
  pub outcome :
      (send_authorization decimal_of true none (answered response) a g).0
      ≡ verdict a g.sequence (accept centi d.twin m).0

-- A gateway that was constructed without an error sends an authorization, which it makes a command
-- of, over an idle link to the digital twin, with timeouts that are not refused and whether or not
-- the deadlines are near: the send is not turned away, the device's turn serves the request and
-- gives the twin exactly that command, the host receives the device's answer to it, the link is
-- idle again, and the gateway ends with the receipt for the authorization if the twin accepted the
-- command and with a rejection if not. The authorization has one to eight targets, of different
-- joints; the link's capacity and `room` have place for the largest command, of 58 bytes.
pub exchange-IsCarriedOut :
    (room capacity : ℕ) (decimal_of : Float → Option Decimal) (centi : ℤ → Float) (ids : Dict ℤ)
    (timeout : Float) (initial : ℤ) (a : MotionAuthorization) (m : ValidatedMotionCommand)
    (g : RobotGateway) (device_timeout host_timeout : Float) (device_late host_late : Bool)
    (d : DigitalTwinProtocolDevice) (p : SimulatedProtocolLink)
    → 58 ≤ room
    → 58 ≤ capacity
    → make_gateway ids timeout initial ≡ returns g
    → has_repeats (keys a.joint_targets_deg) ≡ false
    → 1 ≤ length a.joint_targets_deg
    → length a.joint_targets_deg ≤ 8
    → encode_authorization decimal_of g a ≡ returns m
    → d.response_sequence < 65536
    → bad_timeout (some device_timeout) ≡ false
    → bad_timeout (some host_timeout) ≡ false
    → IsLinked room capacity (record { to_host = []; to_device = [] }) p
    → IsCarriedOut room capacity decimal_of centi a m g device_timeout host_timeout device_late
        host_late d p
exchange-IsCarriedOut room capacity decimal_of centi ids timeout initial a m g device_timeout
      host_timeout device_late host_late d p roomy holds made once some_target few_targets command
      next good good' linked =
    let (_, _, sequence) = make_gateway-ids ids timeout initial g made in
    let (payload, v) =
      encode_authorization-IsDelivered decimal_of ids timeout initial g a m made once some_target
        few_targets command in
    let f = command_frame g payload in
    let small = command_frame-IsSmall room g m payload roomy sequence v in
    let same = dispatch-command centi g.sequence payload m d.twin v.decoded in
    let response = answer_frame f (dispatch centi f d.twin).0 d.response_sequence in
    let (encoded, sends) =
      send_authorization-payload decimal_of a g m payload response command v.encoded in
    record {
      payload = payload;
      response = response;
      encoded = encoded;
      exchanged =
          exchange-IsExchanged room capacity centi f device_timeout host_timeout device_late
            host_late d p (omega (arith, roomy)) (omega (arith, holds)) small
            (omega (arith, v.sized, v.few_targets, holds)) next good good' linked;
      twin_after = ap (λ e. e.1) same;
      answer = refl;
      outcome =
          ap (λ r. r.0) sends
          ∙ ap
              (λ e.
                (request true none (answered (answer_frame f e.0 d.response_sequence))
                  validated_motion_command (some a.authorization_id) g).0)
              same
          ∙ request-verdict a g payload (accept centi d.twin m).0 d.response_sequence;
    }
