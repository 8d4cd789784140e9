-- ===== src/Protocol/Messages/TelemetryTrip.antt =====
-- rci/protocols/messages.py: `RobotTelemetry.decode` on what `encode` writes.
use robotic_character_interf.Base.{
  ℕ, ◌+◌, ◌*◌, ◌/◌, ◌%◌, ◌≤◌, ◌≡◌, refl, sym, ap, ◌∙◌, none, some, List, [], ◌∷◌, ◌++◌, arith,
}
use robotic_character_interf.Protocol.Messages.Telemetry.{
  joint_bytes, telemetry_checked, TelemetryHead, telemetry_head, read_joints, telemetry_fault,
  decode_telemetry_head, decode_telemetry, decode_telemetry_body, RobotTelemetry, encode_telemetry,
  unpack_telemetry_head, RobotJointTelemetry, encode_joints,
}
use robotic_character_interf.Protocol.Framing.{unpack_u16, ok}
use robotic_character_interf.Base.Lists.{length}
use robotic_character_interf.Base.Int.{pos_part, pos, ℤ}
use robotic_character_interf.Protocol.Messages.RoundTrip.{wire_state_of_value-value}
use robotic_character_interf.Protocol.Messages.Fields.{
  require_uint_ok, unpack_u16-pack, ok-injective, after_ok, unpack_u32-pack,
}
use robotic_character_interf.Protocol.Messages.{to_word, of_word, require_int16}
use robotic_character_interf.Protocol.Constants.{wire_state_value}
use robotic_character_interf.Protocol.Messages.MotionTrip.{number_kept, followed_by_ok}
use robotic_character_interf.Protocol.Messages.GloveTrip.{word_kept}

joint_read :
    (j : RobotJointTelemetry) (id current : ℕ)
    → j.joint_id ≡ pos id
    → j.current_ma ≡ pos current
    → require_int16 "position_cdeg" j.position_cdeg ≡ none
    → require_int16 "velocity_cdeg_s" j.velocity_cdeg_s ≡ none
    → record {
      joint_id = pos (pos_part j.joint_id);
      position_cdeg =
          of_word (unpack_u16 (to_word j.position_cdeg % 256) (to_word j.position_cdeg / 256));
      velocity_cdeg_s =
          of_word (unpack_u16 (to_word j.velocity_cdeg_s % 256) (to_word j.velocity_cdeg_s / 256));
      current_ma = pos (unpack_u16 (pos_part j.current_ma % 256) (pos_part j.current_ma / 256));
    }
      ≡ j
joint_read j id current is_id is_current p v =
    rw
      (
        word_kept "position_cdeg" j.position_cdeg p,
        word_kept "velocity_cdeg_s" j.velocity_cdeg_s v,
        unpack_u16-pack (pos_part j.current_ma),
        sym (number_kept j.joint_id id is_id),
        sym (number_kept j.current_ma current is_current),
      )
      refl

read_joints-encode :
    (joints : List RobotJointTelemetry) (body : List ℕ)
    → encode_joints joints ≡ ok body
    → (read_joints (length joints) body ≡ some joints) × (length body ≡ length joints * 7)
unfolding encode_joints read_joints
read_joints-encode [] body e = (refl, omega (arith, ap length (ok-injective e)))
read_joints-encode (j ∷ joints) body e =
    let (id_ok, e1) = after_ok e in
    let (position_ok, e2) = after_ok {o = require_int16 "position_cdeg" j.position_cdeg} e1 in
    let (velocity_ok, e3) = after_ok {o = require_int16 "velocity_cdeg_s" j.velocity_cdeg_s} e2 in
    let (current_ok, e4) = after_ok e3 in
    let (rest, written, split) = followed_by_ok (joint_bytes j) (encode_joints joints) body e4 in
    let (id, is_id, _, _) = require_uint_ok "joint_id" j.joint_id 8 1 id_ok in
    let (current, is_current, _, _) = require_uint_ok "current_ma" j.current_ma 16 0 current_ok in
    let (later, size) = read_joints-encode joints rest written in
    (
      rw (split, later)
          (ap (λ u. some (u ∷ joints))
            (joint_read j id current is_id is_current position_ok velocity_ok)),
      omega (arith, ap length split, size),
    )

telemetry_fault-none :
    (t : RobotTelemetry) → telemetry_fault t ≡ none → (1 ≤ length t.joints) × (length t.joints ≤ 8)
unfolding telemetry_fault
telemetry_fault-none t e = (ground arith, ground arith)

-- What telemetry satisfies that is encoded, and its bytes.
record IsReported (t : RobotTelemetry) (bytes : List ℕ) : Type 0 where
  uptime : t.uptime_ms ≡ pos (pos_part t.uptime_ms)
  flags : t.flags ≡ pos (pos_part t.flags)
  supply : t.supply_mv ≡ pos (pos_part t.supply_mv)
  some_joint : 1 ≤ length t.joints
  few_joints : length t.joints ≤ 8
  body : List ℕ
  written : encode_joints t.joints ≡ ok body
  whole : bytes ≡ telemetry_head t ++ body

encode_telemetry_ok :
    (t : RobotTelemetry) (bytes : List ℕ) → encode_telemetry t ≡ ok bytes → IsReported t bytes
unfolding encode_telemetry
encode_telemetry_ok t bytes e =
    let (uptime_ok, e1) = after_ok e in
    let (flags_ok, e2) = after_ok e1 in
    let (supply_ok, e3) = after_ok e2 in
    let (clean, e4) = after_ok e3 in
    let (some_joint, few_joints) = telemetry_fault-none t clean in
    let (u, is_u, _, _) = require_uint_ok "uptime_ms" t.uptime_ms 32 0 uptime_ok in
    let (f, is_f, _, _) = require_uint_ok "flags" t.flags 8 0 flags_ok in
    let (s, is_s, _, _) = require_uint_ok "supply_mv" t.supply_mv 16 0 supply_ok in
    let (body, written, whole) =
      followed_by_ok (telemetry_head t) (encode_joints t.joints) bytes e4 in
    record {
      uptime = number_kept t.uptime_ms u is_u;
      flags = number_kept t.flags f is_f;
      supply = number_kept t.supply_mv s is_s;
      some_joint = some_joint;
      few_joints = few_joints;
      body = body;
      written = written;
      whole = whole;
    }

abbrev head_of : RobotTelemetry → List ℕ → TelemetryHead
head_of t body = record {
  uptime_ms = pos_part t.uptime_ms;
  raw_state = wire_state_value t.state;
  flags = pos_part t.flags;
  supply_mv = pos_part t.supply_mv;
  joint_count = length t.joints;
  rest = body;
}

unpack_telemetry_head-pack :
    (t : RobotTelemetry) (body : List ℕ)
    → unpack_telemetry_head (telemetry_head t ++ body) ≡ some (head_of t body)
unfolding unpack_telemetry_head
unpack_telemetry_head-pack t body =
    rw (unpack_u32-pack (pos_part t.uptime_ms), unpack_u16-pack (pos_part t.supply_mv)) refl

same_report :
    (t : RobotTelemetry) (u f s : ℤ)
    → u ≡ t.uptime_ms
    → f ≡ t.flags
    → s ≡ t.supply_mv
    → record t { uptime_ms = u; flags = f; supply_mv = s } ≡ t
same_report t u f s eu ef es = rw (eu, ef, es) refl

decode_telemetry_body-sent :
    (t : RobotTelemetry) (bytes : List ℕ) (r : IsReported t bytes)
    → encode_telemetry t ≡ ok bytes
    → decode_telemetry_body (head_of t r.body) (some t.state) (some t.joints) ≡ ok t
unfolding decode_telemetry_body
decode_telemetry_body-sent t bytes r e =
    let same =
      same_report t (pos (pos_part t.uptime_ms)) (pos (pos_part t.flags))
        (pos (pos_part t.supply_mv)) (sym r.uptime) (sym r.flags) (sym r.supply) in
    ap (λ d. telemetry_checked d (encode_telemetry d)) same ∙ ap (telemetry_checked t) e

decode_telemetry_head-sent :
    (t : RobotTelemetry) (bytes : List ℕ) (size : ℕ) (r : IsReported t bytes)
    → encode_telemetry t ≡ ok bytes
    → size ≡ 9 + length t.joints * 7
    → decode_telemetry_head size (some (head_of t r.body)) ≡ ok t
unfolding decode_telemetry_head
decode_telemetry_head-sent t bytes size r e total = ground (
  arith,
  total,
  r.some_joint,
  r.few_joints,
  wire_state_of_value-value t.state,
  (read_joints-encode t.joints r.body r.written).0,
  decode_telemetry_body-sent t bytes r e,
)

decode_telemetry-parts :
    (payload : List ℕ) (h : TelemetryHead)
    → 16 ≤ length payload
    → unpack_telemetry_head payload ≡ some h
    → decode_telemetry payload ≡ decode_telemetry_head (length payload) (some h)
unfolding decode_telemetry
decode_telemetry-parts payload h long head = ground (arith, long, head)

-- Robot telemetry that encodes without an error is decoded from its bytes unchanged.
pub decode_telemetry-encode :
    (t : RobotTelemetry) (bytes : List ℕ)
    → encode_telemetry t ≡ ok bytes
    → decode_telemetry bytes ≡ ok t
decode_telemetry-encode t bytes e =
    let r = encode_telemetry_ok t bytes e in
    let size : length bytes ≡ 9 + length t.joints * 7 =
      omega (arith, ap length r.whole, (read_joints-encode t.joints r.body r.written).1) in
    decode_telemetry-parts bytes (head_of t r.body) (omega (arith, size, r.some_joint))
      (ap unpack_telemetry_head r.whole ∙ unpack_telemetry_head-pack t r.body)
    ∙ decode_telemetry_head-sent t bytes (length bytes) r e size
