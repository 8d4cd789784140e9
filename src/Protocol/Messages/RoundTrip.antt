-- ===== src/Protocol/Messages/RoundTrip.antt =====
-- rci/protocols/messages.py: the codecs of acknowledgements, emergency stops and heartbeats.
use robotic_character_interf.Base.{
  ◌++◌, ◌∙◌, sym, ℕ, ◌%◌, ◌/◌, ◌↔◌, ◌≡◌, refl, ap, Option, none, some, List, [], ◌∷◌, arith,
}
use robotic_character_interf.Protocol.Messages.Control.{
  heartbeat_of, Heartbeat, decode_estop, decode_heartbeat, decode_ack, EmergencyStop, encode_ack,
  Acknowledgement, encode_estop, encode_heartbeat,
}
use robotic_character_interf.Protocol.Constants.{
  EstopReason, WireSystemState, DeviceSource, AckStatus, reason_value, wire_state_value,
  status_value, source_value, status_of_value, source_of_value, wire_state_of_value,
  reason_of_value,
}
use robotic_character_interf.Base.Lists.{All}
use robotic_character_interf.Protocol.Checksum.Detection.{IsByte}
use robotic_character_interf.Protocol.Framing.{ok}
use robotic_character_interf.Protocol.Messages.{unpack_u32, require_uint}
use robotic_character_interf.Protocol.Messages.Fields.{
  ok-injective, unpack_u32-pack, pack_u32-unpack, require_uint_ok, require_uint_of_bounds, after_ok,
}
use robotic_character_interf.Base.Int.{pos_part, pos}

pub status_of_value-value : (s : AckStatus) → status_of_value (status_value s) ≡ some s
unfolding status_of_value status_value
status_of_value-value s = ground arith

pub status_of_value_lem :
    (raw : ℕ) (s : AckStatus) → status_of_value raw ≡ some s → raw ≡ status_value s
unfolding status_of_value status_value
status_of_value_lem raw s e = ground arith

source_of_value-value : (s : DeviceSource) → source_of_value (source_value s) ≡ some s
unfolding source_of_value source_value
source_of_value-value s = ground arith

source_of_value_lem :
    (raw : ℕ) (s : DeviceSource) → source_of_value raw ≡ some s → raw ≡ source_value s
unfolding source_of_value source_value
source_of_value_lem raw s e = ground arith

reason_of_value-value : (r : EstopReason) → reason_of_value (reason_value r) ≡ some r
unfolding reason_of_value reason_value
reason_of_value-value r = ground arith

reason_of_value_lem :
    (raw : ℕ) (r : EstopReason) → reason_of_value raw ≡ some r → raw ≡ reason_value r
unfolding reason_of_value reason_value
reason_of_value_lem raw r e = ground arith

pub wire_state_of_value-value :
    (s : WireSystemState) → wire_state_of_value (wire_state_value s) ≡ some s
unfolding wire_state_of_value wire_state_value
wire_state_of_value-value s = ground arith

pub wire_state_of_value_lem :
    (raw : ℕ) (s : WireSystemState) → wire_state_of_value raw ≡ some s → raw ≡ wire_state_value s
unfolding wire_state_of_value wire_state_value
wire_state_of_value_lem raw s e = ground arith

decode_ack-encode :
    (a : Acknowledgement) (bytes : List ℕ) → encode_ack a ≡ ok bytes → decode_ack bytes ≡ ok a
unfolding encode_ack decode_ack require_uint
decode_ack-encode a bytes e = ground (arith, status_of_value-value a.status)

encode_ack-decode :
    (a : Acknowledgement) (bytes : List ℕ)
    → All IsByte bytes
    → decode_ack bytes ≡ ok a
    → encode_ack a ≡ ok bytes
unfolding encode_ack decode_ack require_uint
encode_ack-decode a [] h e = ground arith
encode_ack-decode a (x ∷ []) h e = ground arith
encode_ack-decode a (x ∷ y ∷ []) h e = ground arith
encode_ack-decode a (x ∷ y ∷ z ∷ []) h e = ground (arith, status_of_value_lem z a.status)
encode_ack-decode a (x ∷ y ∷ z ∷ w ∷ rest) h e = ground arith

-- On bytes the acknowledgement codecs are inverse to each other: encoding succeeds with these
-- bytes exactly if decoding them gives the acknowledgement.
pub acknowledgement_iff :
    (a : Acknowledgement) (bytes : List ℕ)
    → All IsByte bytes
    → (encode_ack a ≡ ok bytes) ↔ (decode_ack bytes ≡ ok a)
acknowledgement_iff a bytes h = (decode_ack-encode a bytes, encode_ack-decode a bytes h)

decode_estop-encode : (s : EmergencyStop) → decode_estop (encode_estop s) ≡ ok s
unfolding encode_estop decode_estop
decode_estop-encode s = rw (source_of_value-value s.source, reason_of_value-value s.reason) refl

encode_estop-decode :
    (s : EmergencyStop) (bytes : List ℕ) → decode_estop bytes ≡ ok s → encode_estop s ≡ bytes
unfolding encode_estop decode_estop
encode_estop-decode s [] e = ground arith
encode_estop-decode s (x ∷ []) e = ground arith
encode_estop-decode s (x ∷ y ∷ []) e =
    ground (arith, source_of_value_lem x s.source, reason_of_value_lem y s.reason)
encode_estop-decode s (x ∷ y ∷ z ∷ rest) e = ground arith

-- The emergency stop codecs are inverse to each other.
pub emergency_stop_iff :
    (s : EmergencyStop) (bytes : List ℕ) → (encode_estop s ≡ bytes) ↔ (decode_estop bytes ≡ ok s)
emergency_stop_iff s bytes =
    ((λ e. ap decode_estop (sym e) ∙ decode_estop-encode s), encode_estop-decode s bytes)

decode_heartbeat-encode :
    (b : Heartbeat) (bytes : List ℕ) → encode_heartbeat b ≡ ok bytes → decode_heartbeat bytes ≡ ok b
unfolding encode_heartbeat decode_heartbeat
decode_heartbeat-encode b bytes e =
    let (checked, sent) = after_ok e in
    let (n, uptime, low, high) = require_uint_ok "uptime_ms" b.uptime_ms 32 0 checked in
    let number : pos (
          unpack_u32 (pos_part b.uptime_ms % 256) (pos_part b.uptime_ms / 256 % 256)
            (pos_part b.uptime_ms / 65536 % 256) (pos_part b.uptime_ms / 16777216))
        ≡ b.uptime_ms =
      ap pos (unpack_u32-pack (pos_part b.uptime_ms))
      ∙ ap (λ t. pos (pos_part t)) uptime
      ∙ sym uptime in
    ap decode_heartbeat (sym (ok-injective sent))
    ∙ rw (source_of_value-value b.source, wire_state_of_value-value b.state)
        (ap (λ t. ok (record { source = b.source; uptime_ms = t; state = b.state })) number)

-- The construction succeeds only where both values are known.
heartbeat_of_ok :
    (source : Option DeviceSource) (uptime : ℕ) (state : Option WireSystemState) (b : Heartbeat)
    → heartbeat_of source uptime state ≡ ok b
    → (source ≡ some b.source) × (b.uptime_ms ≡ pos uptime) × (state ≡ some b.state)
heartbeat_of_ok (some source) uptime (some state) b e = (cc, cc, cc)
heartbeat_of_ok none uptime state b e = ground arith
heartbeat_of_ok (some source) uptime none b e = ground arith

encode_heartbeat-decode :
    (b : Heartbeat) (bytes : List ℕ)
    → All IsByte bytes
    → decode_heartbeat bytes ≡ ok b
    → encode_heartbeat b ≡ ok bytes
unfolding encode_heartbeat decode_heartbeat
encode_heartbeat-decode b [] h e = ground arith
encode_heartbeat-decode b (x ∷ []) h e = ground arith
encode_heartbeat-decode b (x ∷ y ∷ []) h e = ground arith
encode_heartbeat-decode b (x ∷ y ∷ z ∷ []) h e = ground arith
encode_heartbeat-decode b (x ∷ y ∷ z ∷ u ∷ []) h e = ground arith
encode_heartbeat-decode b (x ∷ y ∷ z ∷ u ∷ v ∷ []) h e = ground arith
encode_heartbeat-decode b (x ∷ y ∷ z ∷ u ∷ v ∷ w ∷ []) h e =
    let (source, uptime, state) =
      heartbeat_of_ok (source_of_value x) (unpack_u32 y z u v) (wire_state_of_value w) b e in
    rw
      (
        uptime,
        require_uint_of_bounds "uptime_ms" (unpack_u32 y z u v) 32 0 (omega arith)
            (omega (arith, h.1.0, h.1.1.0, h.1.1.1.0, h.1.1.1.1.0)),
        ← source_of_value_lem x b.source source,
        ← wire_state_of_value_lem w b.state state,
      )
      (ap (λ t. ok (x ∷ t ++ w ∷ [])) (pack_u32-unpack y z u v h.1.0 h.1.1.0 h.1.1.1.0))
encode_heartbeat-decode b (x ∷ y ∷ z ∷ u ∷ v ∷ w ∷ o ∷ rest) h e = ground arith

-- On bytes the heartbeat codecs are inverse to each other: encoding succeeds with these bytes
-- exactly if decoding them gives the heartbeat.
pub heartbeat_iff :
    (b : Heartbeat) (bytes : List ℕ)
    → All IsByte bytes
    → (encode_heartbeat b ≡ ok bytes) ↔ (decode_heartbeat bytes ≡ ok b)
heartbeat_iff b bytes h = (decode_heartbeat-encode b bytes, encode_heartbeat-decode b bytes h)
