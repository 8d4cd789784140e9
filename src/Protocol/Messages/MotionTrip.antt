-- ===== src/Protocol/Messages/MotionTrip.antt =====
-- rci/protocols/messages.py: `ValidatedMotionCommand.decode` on what `encode` writes.
use robotic_character_interf.Base.{
  ℕ, ◌+◌, ◌*◌, ◌/◌, ◌%◌, ◌≤◌, ◌≡◌, refl, sym, ap, ◌∙◌, none, some, List, [], ◌∷◌, ◌++◌, arith,
}
use mathlib.Core.List.{append_assoc}
use robotic_character_interf.Protocol.Framing.{err, unpack_u16, ok, pack_u16, Result}
use robotic_character_interf.Protocol.Messages.Motion.{
  decode_motion_body, decode_motion_head, motion_head, decode_motion, motion_fault,
  checked_by_encode, MotionHead, target_bytes, motion_tail, encode_motion, read_targets,
  followed_by, encode_targets, ValidatedMotionCommand, finish_motion, unpack_motion_head,
  JointTarget,
}
use robotic_character_interf.Protocol.Constants.{MotionMode, mode_value, mode_of_value}
use robotic_character_interf.Base.Int.{ℤ, pos_part, pos}
use robotic_character_interf.Protocol.Messages.Fields.{
  require_int16_ok, require_uint_ok, after_ok, ok-injective, unpack_u16-pack,
}
use robotic_character_interf.Protocol.Messages.{to_word, of_word}
use robotic_character_interf.Base.Lists.{
  drop-append_self, drop, take-append_self, take, length-append, length,
}

pub followed_by_ok :
    (bytes : List ℕ) (r : Result (List ℕ)) (all : List ℕ)
    → followed_by bytes r ≡ ok all
    → (rest : List ℕ) × (r ≡ ok rest) × (all ≡ bytes ++ rest)
followed_by_ok bytes (ok rest) all e = (rest, refl, sym (ok-injective e))
followed_by_ok bytes (err fault) all e = ground arith

-- A target that passes its checks is read back from its bytes.
target_read :
    (t : JointTarget) (n : ℕ)
    → t.joint_id ≡ pos n
    → of_word (to_word t.target_cdeg) ≡ t.target_cdeg
    → record {
      joint_id = pos (pos_part t.joint_id);
      target_cdeg =
          of_word (unpack_u16 (to_word t.target_cdeg % 256) (to_word t.target_cdeg / 256));
    }
      ≡ t
target_read t n is_n kept =
    rw (unpack_u16-pack (to_word t.target_cdeg), kept)
      (ap (λ i. record { joint_id = i; target_cdeg = t.target_cdeg })
        (ap (λ z. pos (pos_part z)) is_n ∙ sym is_n))

read_targets-encode :
    (targets : List JointTarget) (tail body : List ℕ)
    → encode_targets targets tail ≡ ok body
    → (read_targets (length targets) body ≡ some (record { targets = targets; rest = tail }))
      × (length body ≡ length targets * 3 + length tail)
unfolding encode_targets read_targets
read_targets-encode [] tail body e = (
  ap (λ b. some (record { targets = []; rest = b })) (sym (ok-injective e)),
  omega (arith, ap length (ok-injective e)),
)
read_targets-encode (t ∷ targets) tail body e =
    let (id_ok, e1) = after_ok e in
    let (target_ok, e2) = after_ok e1 in
    let (rest, written, split) =
      followed_by_ok (target_bytes t) (encode_targets targets tail) body e2 in
    let (n, is_n, _, _) = require_uint_ok "joint_id" t.joint_id 8 0 id_ok in
    let (_, kept) = require_int16_ok "target_cdeg" t.target_cdeg target_ok in
    let (later, size) = read_targets-encode targets tail rest written in
    (
      rw (split, later)
          (ap (λ u. some (record { targets = u ∷ targets; rest = tail }))
            (target_read t n is_n kept)),
      omega (arith, ap length split, size),
    )

-- The header of a command is read back.
unpack_motion_head-pack :
    (ttl mode count : ℕ) (rest : List ℕ)
    → unpack_motion_head (pack_u16 ttl ++ mode ∷ count ∷ rest)
      ≡ some (record { ttl_ms = ttl; raw_mode = mode; joint_count = count; rest = rest })
unfolding unpack_motion_head
unpack_motion_head-pack ttl mode count rest =
    ap (λ t. some (record { ttl_ms = t; raw_mode = mode; joint_count = count; rest = rest }))
      (unpack_u16-pack ttl)

mode_of_value-value : (m : MotionMode) → mode_of_value (mode_value m) ≡ some m
unfolding mode_of_value mode_value
mode_of_value-value m = ground arith

-- What a command satisfies that is encoded.
record IsSendable (m : ValidatedMotionCommand) : Type 0 where
  ttl : m.ttl_ms ≡ pos (pos_part m.ttl_ms)
  velocity : m.max_velocity_cdeg_s ≡ pos (pos_part m.max_velocity_cdeg_s)
  acceleration : m.max_acceleration_cdeg_s2 ≡ pos (pos_part m.max_acceleration_cdeg_s2)
  some_target : 1 ≤ length m.targets
  few_targets : length m.targets ≤ 8

same_command :
    (m : ValidatedMotionCommand) (t v a : ℤ)
    → t ≡ m.ttl_ms
    → v ≡ m.max_velocity_cdeg_s
    → a ≡ m.max_acceleration_cdeg_s2
    → record m { ttl_ms = t; max_velocity_cdeg_s = v; max_acceleration_cdeg_s2 = a } ≡ m
same_command m t v a et ev ea = rw (et, ev, ea) refl

finish_motion-tail :
    (m : ValidatedMotionCommand) (bytes : List ℕ)
    → IsSendable m
    → encode_motion m ≡ ok bytes
    → finish_motion m.command_id (pos_part m.ttl_ms) m.mode m.targets (motion_tail m) ≡ ok m
unfolding finish_motion
finish_motion-tail m bytes s e =
    let number : (z : ℤ)
        → z ≡ pos (pos_part z)
        → pos (unpack_u16 (pos_part z % 256) (pos_part z / 256)) ≡ z =
      λ z is_z. ap pos (unpack_u16-pack (pos_part z)) ∙ sym is_z in
    let same =
      same_command m (pos (pos_part m.ttl_ms))
        (pos (
          unpack_u16 (pos_part m.max_velocity_cdeg_s % 256) (pos_part m.max_velocity_cdeg_s / 256)))
        (pos (
          unpack_u16 (pos_part m.max_acceleration_cdeg_s2 % 256)
            (pos_part m.max_acceleration_cdeg_s2 / 256)))
        (sym s.ttl) (number m.max_velocity_cdeg_s s.velocity)
        (number m.max_acceleration_cdeg_s2 s.acceleration) in
    ap (λ d. checked_by_encode d (encode_motion d)) same ∙ ap (checked_by_encode m) e

motion_fault-none :
    (m : ValidatedMotionCommand)
    → motion_fault m ≡ none
    → (1 ≤ length m.targets) × (length m.targets ≤ 8)
unfolding motion_fault
motion_fault-none m e = (ground arith, ground arith)

pub number_kept : (z : ℤ) (n : ℕ) → z ≡ pos n → z ≡ pos (pos_part z)
number_kept z n e = e ∙ ap (λ t. pos (pos_part t)) (sym e)

-- What an encoding that succeeds says of the command and of its bytes.
encode_motion_ok :
    (m : ValidatedMotionCommand) (bytes : List ℕ)
    → encode_motion m ≡ ok bytes
    → IsSendable m
      × (body : List ℕ) × (encode_targets m.targets (motion_tail m) ≡ ok body)
      × (bytes ≡ motion_head m ++ body)
unfolding encode_motion
encode_motion_ok m bytes e =
    let (ttl_ok, e1) = after_ok e in
    let (velocity_ok, e2) = after_ok e1 in
    let (acceleration_ok, e3) = after_ok e2 in
    let (clean, e4) = after_ok e3 in
    let (some_target, few_targets) = motion_fault-none m clean in
    let (ttl, is_ttl, _, _) = require_uint_ok "ttl_ms" m.ttl_ms 16 1 ttl_ok in
    let (v, is_v, _, _) =
      require_uint_ok "max_velocity_cdeg_s" m.max_velocity_cdeg_s 16 1 velocity_ok in
    let (a, is_a, _, _) =
      require_uint_ok "max_acceleration_cdeg_s2" m.max_acceleration_cdeg_s2 16 1 acceleration_ok in
    let (body, written, split) =
      followed_by_ok (motion_head m) (encode_targets m.targets (motion_tail m)) bytes e4 in
    (
      record {
        ttl = number_kept m.ttl_ms ttl is_ttl;
        velocity = number_kept m.max_velocity_cdeg_s v is_v;
        acceleration = number_kept m.max_acceleration_cdeg_s2 a is_a;
        some_target = some_target;
        few_targets = few_targets;
      },
      body,
      written,
      split,
    )

-- The head that the decoder unpacks.
abbrev head_of : ValidatedMotionCommand → List ℕ → MotionHead
head_of m body = record {
  ttl_ms = pos_part m.ttl_ms;
  raw_mode = mode_value m.mode;
  joint_count = length m.targets;
  rest = body;
}

decode_motion_head-sent :
    (m : ValidatedMotionCommand) (bytes body : List ℕ) (size : ℕ)
    → encode_motion m ≡ ok bytes
    → IsSendable m
    → encode_targets m.targets (motion_tail m) ≡ ok body
    → size ≡ 24 + length m.targets * 3
    → decode_motion_head m.command_id size (some (head_of m body)) ≡ ok m
unfolding decode_motion_head decode_motion_body
decode_motion_head-sent m bytes body size e s written total = ground (
  arith,
  total,
  s.some_target,
  s.few_targets,
  mode_of_value-value m.mode,
  (read_targets-encode m.targets (motion_tail m) body written).0,
  finish_motion-tail m bytes s e,
)

-- Decoding of a long enough payload whose parts are known.
decode_motion-parts :
    (payload command_id : List ℕ) (h : MotionHead)
    → 27 ≤ length payload
    → take 16 payload ≡ command_id
    → unpack_motion_head (drop 16 payload) ≡ some h
    → decode_motion payload ≡ decode_motion_head command_id (length payload) (some h)
unfolding decode_motion
decode_motion-parts payload command_id h long front head = ground (arith, long, front, head)

-- A motion command with a sixteen-byte identifier that encodes without an error is decoded from
-- its bytes unchanged.
pub decode_motion-encode :
    (m : ValidatedMotionCommand) (bytes : List ℕ)
    → length m.command_id ≡ 16
    → encode_motion m ≡ ok bytes
    → decode_motion bytes ≡ ok m
decode_motion-encode m bytes uuid e =
    let (s, body, written, split) = encode_motion_ok m bytes e in
    let after_id = pack_u16 (pos_part m.ttl_ms) ++ mode_value m.mode ∷ length m.targets ∷ body in
    let whole : bytes ≡ m.command_id ++ after_id =
      split
      ∙ append_assoc m.command_id
          (pack_u16 (pos_part m.ttl_ms) ++ mode_value m.mode ∷ length m.targets ∷ []) body in
    let size : length bytes ≡ 24 + length m.targets * 3 = omega (
      arith,
      ap length whole,
      length-append m.command_id after_id,
      uuid,
      (read_targets-encode m.targets (motion_tail m) body written).1,
    ) in
    let front : take 16 bytes ≡ m.command_id =
      ap (take 16) whole
      ∙ ap (λ n. take n (m.command_id ++ after_id)) (sym uuid)
      ∙ take-append_self m.command_id after_id in
    let back : drop 16 bytes ≡ after_id =
      ap (drop 16) whole
      ∙ ap (λ n. drop n (m.command_id ++ after_id)) (sym uuid)
      ∙ drop-append_self m.command_id after_id in
    decode_motion-parts bytes m.command_id (head_of m body) (omega (arith, size, s.some_target))
      front
      (ap unpack_motion_head back
        ∙ unpack_motion_head-pack (pos_part m.ttl_ms) (mode_value m.mode) (length m.targets) body)
    ∙ decode_motion_head-sent m bytes body (length bytes) e s written size
