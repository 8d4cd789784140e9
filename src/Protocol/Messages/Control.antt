-- ===== src/Protocol/Messages/Control.antt =====
-- rci/protocols/messages.py: Acknowledgement, EmergencyStop and Heartbeat.
use robotic_character_interf.Base.{ℕ, Option, none, some, List, [], ◌∷◌, ◌++◌}
use robotic_character_interf.Protocol.Messages.{pack_u32, after, unpack_u32, require_uint}
use robotic_character_interf.Protocol.Constants.{
  EstopReason, WireSystemState, reason_value, wire_state_value, AckStatus, reason_of_value,
  status_value, wire_state_of_value, DeviceSource, source_value, source_of_value, status_of_value,
}
use robotic_character_interf.Base.Int.{pos, pos_part, ℤ}
use robotic_character_interf.Protocol.Framing.{
  pack_u16, unpack_u16, protocol_error, err, ok, Result,
}
use robotic_character_interf.Base.Message.{say}

pub record Acknowledgement : Type 0 where
  pub acknowledged_sequence : ℤ
  pub status : AckStatus

unfoldable pub encode_ack : Acknowledgement → Result (List ℕ)
unfolding require_uint status_value
encode_ack a =
    after (require_uint "acknowledged_sequence" a.acknowledged_sequence 16 0)
      (ok (pack_u16 (pos_part a.acknowledged_sequence) ++ status_value a.status ∷ []))

unfoldable pub decode_ack : List ℕ → Result Acknowledgement
unfolding status_of_value
decode_ack (s0 ∷ s1 ∷ raw_status ∷ []) = elim (status_of_value raw_status) [
  | none ↦ err (protocol_error (say "acknowledgement contains an unknown status"))
  | some status ↦ ok (record { acknowledged_sequence = pos (unpack_u16 s0 s1); status = status })
]
decode_ack _ = err (protocol_error (say "invalid acknowledgement payload length"))

pub record EmergencyStop : Type 0 where
  pub source : DeviceSource
  pub reason : EstopReason

unfoldable pub encode_estop : EmergencyStop → List ℕ
unfolding source_value reason_value
encode_estop e = source_value e.source ∷ reason_value e.reason ∷ []

-- The construction of the stop from its two values, under `try`.
abbrev estop_of : Option DeviceSource → Option EstopReason → Result EmergencyStop
estop_of (some source) (some reason) = ok (record { source = source; reason = reason })
estop_of none reason = err (protocol_error (say "E-stop contains an unknown enum value"))
estop_of (some source) none = err (protocol_error (say "E-stop contains an unknown enum value"))

unfoldable pub decode_estop : List ℕ → Result EmergencyStop
unfolding source_of_value reason_of_value
decode_estop (source ∷ reason ∷ []) = estop_of (source_of_value source) (reason_of_value reason)
decode_estop _ = err (protocol_error (say "invalid E-stop payload length"))

pub record Heartbeat : Type 0 where
  pub source : DeviceSource
  pub uptime_ms : ℤ
  pub state : WireSystemState

unfoldable pub encode_heartbeat : Heartbeat → Result (List ℕ)
unfolding require_uint source_value wire_state_value
encode_heartbeat h =
    let uptime = pos_part h.uptime_ms in
    after (require_uint "uptime_ms" h.uptime_ms 32 0)
      (ok (source_value h.source ∷ pack_u32 uptime ++ wire_state_value h.state ∷ []))

abbrev pub heartbeat_of : Option DeviceSource → ℕ → Option WireSystemState → Result Heartbeat
heartbeat_of (some source) uptime (some state) =
    ok (record { source = source; uptime_ms = pos uptime; state = state })
heartbeat_of none uptime state =
    err (protocol_error (say "heartbeat contains an unknown enum value"))
heartbeat_of (some source) uptime none =
    err (protocol_error (say "heartbeat contains an unknown enum value"))

unfoldable pub decode_heartbeat : List ℕ → Result Heartbeat
unfolding source_of_value wire_state_of_value
decode_heartbeat (source ∷ t0 ∷ t1 ∷ t2 ∷ t3 ∷ state ∷ []) =
    heartbeat_of (source_of_value source) (unpack_u32 t0 t1 t2 t3) (wire_state_of_value state)
decode_heartbeat _ = err (protocol_error (say "invalid heartbeat payload length"))
