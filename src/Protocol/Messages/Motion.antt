-- ===== src/Protocol/Messages/Motion.antt =====
-- rci/protocols/messages.py: ValidatedMotionCommand, the joint command that the supervisor has
-- approved. A UUID is its sixteen bytes.
use robotic_character_interf.Base.{
  ℕ, zero, suc, ◌+◌, ◌*◌, Bool, false, not, ◌&&◌, ◌||◌, ◌==◌, ltb, leb, if◌then◌else◌, Option, none,
  some, List, [], ◌∷◌, ◌++◌,
}
use mathlib.Core.Option.{map}
use robotic_character_interf.Protocol.Framing.{
  protocol_error, ok, err, Result, Fault, unpack_u16, pack_u16,
}
use robotic_character_interf.Protocol.Constants.{
  max_joint_targets, mode_value, MotionMode, mode_of_value,
}
use robotic_character_interf.Protocol.Messages.{
  of_word, after, to_word, require_int16, require_uint,
}
use robotic_character_interf.Base.Int.{eqb_ℤ, pos, ℤ, pos_part}
use robotic_character_interf.Base.Lists.{drop, take, length}
use robotic_character_interf.Base.Message.{say}

pub record JointTarget : Type 0 where
  pub joint_id : ℤ
  pub target_cdeg : ℤ

pub record ValidatedMotionCommand : Type 0 where
  pub command_id : List ℕ
  pub ttl_ms : ℤ
  pub mode : MotionMode
  pub targets : List JointTarget
  pub max_velocity_cdeg_s : ℤ
  pub max_acceleration_cdeg_s2 : ℤ

abbrev pub has_joint : ℤ → List JointTarget → Bool
has_joint id [] = false
has_joint id (t ∷ targets) = eqb_ℤ id t.joint_id || has_joint id targets

-- `len(set(joint_ids)) != len(joint_ids)`
unfoldable pub has_duplicates : List JointTarget → Bool
has_duplicates [] = false
has_duplicates (t ∷ targets) = has_joint t.joint_id targets || has_duplicates targets

-- `payload.extend`, where the bytes that follow are still to come.
abbrev pub followed_by : List ℕ → Result (List ℕ) → Result (List ℕ)
followed_by bytes (ok rest) = ok (bytes ++ rest)
followed_by bytes (err fault) = err fault

abbrev pub target_bytes : JointTarget → List ℕ
target_bytes t = pos_part t.joint_id ∷ pack_u16 (to_word t.target_cdeg)

-- The loop over the targets; `tail` is what is written after it.
unfoldable pub encode_targets : List JointTarget → List ℕ → Result (List ℕ)
unfolding require_uint require_int16
encode_targets [] tail = ok tail
encode_targets (t ∷ targets) tail =
    let rest = encode_targets targets tail in
    after (require_uint "joint_id" t.joint_id 8 0)
      (after (require_int16 "target_cdeg" t.target_cdeg) (followed_by (target_bytes t) rest))

-- The checks before the payload is written.
unfoldable pub motion_fault : ValidatedMotionCommand → Option Fault
unfolding has_duplicates
motion_fault m =
    if not (leb 1 (length m.targets) && leb (length m.targets) max_joint_targets)
    then some (protocol_error (say "motion command has invalid joint target count"))
    else if has_duplicates m.targets
    then some (protocol_error (say "motion command contains duplicate joint ids"))
    else none

abbrev pub motion_head : ValidatedMotionCommand → List ℕ
motion_head m =
    m.command_id ++ (pack_u16 (pos_part m.ttl_ms) ++ mode_value m.mode ∷ length m.targets ∷ [])

abbrev pub motion_tail : ValidatedMotionCommand → List ℕ
motion_tail m =
    pack_u16 (pos_part m.max_velocity_cdeg_s) ++ pack_u16 (pos_part m.max_acceleration_cdeg_s2)

unfoldable pub encode_motion : ValidatedMotionCommand → Result (List ℕ)
unfolding require_uint motion_fault encode_targets mode_value
encode_motion m = after (require_uint "ttl_ms" m.ttl_ms 16 1) (
    after (require_uint "max_velocity_cdeg_s" m.max_velocity_cdeg_s 16 1) (
      after (require_uint "max_acceleration_cdeg_s2" m.max_acceleration_cdeg_s2 16 1) (
        after (motion_fault m)
          (followed_by (motion_head m) (encode_targets m.targets (motion_tail m))))))

-- `_MOTION_HEAD.unpack_from(payload, 16)`, on the bytes from there on.
pub record MotionHead : Type 0 where
  pub ttl_ms : ℕ
  pub raw_mode : ℕ
  pub joint_count : ℕ
  pub rest : List ℕ

unfoldable pub unpack_motion_head : List ℕ → Option MotionHead
unpack_motion_head (t0 ∷ t1 ∷ raw_mode ∷ joint_count ∷ rest) = some (record {
  ttl_ms = unpack_u16 t0 t1;
  raw_mode = raw_mode;
  joint_count = joint_count;
  rest = rest;
})
unpack_motion_head _ = none

-- The targets that the loop has read, and the bytes after them.
pub record ReadTargets : Type 0 where
  pub targets : List JointTarget
  pub rest : List ℕ

abbrev pub add_target : JointTarget → ReadTargets → ReadTargets
add_target t r = record { targets = t ∷ r.targets; rest = r.rest }

-- The loop over `range(joint_count)`; `none` is the error of `unpack_from` on too few bytes, which
-- the test of the length rules out, here and above and below.
unfoldable pub read_targets : ℕ → List ℕ → Option ReadTargets
read_targets zero bytes = some (record { targets = []; rest = bytes })
read_targets (suc n) (id ∷ c0 ∷ c1 ∷ bytes) =
    map (add_target (record { joint_id = pos id; target_cdeg = of_word (unpack_u16 c0 c1) }))
      (read_targets n bytes)
read_targets (suc n) _ = none

-- `decoded.encode()`, called for its checks, and the return of `decoded`.
abbrev pub checked_by_encode :
    ValidatedMotionCommand → Result (List ℕ) → Result ValidatedMotionCommand
checked_by_encode m (ok bytes) = ok m
checked_by_encode m (err fault) = err fault

-- The end of `decode`, from the reading of the two limits on.
unfoldable pub finish_motion :
    List ℕ → ℕ → MotionMode → List JointTarget → List ℕ → Result ValidatedMotionCommand
unfolding encode_motion
finish_motion command_id ttl mode targets (v0 ∷ v1 ∷ a0 ∷ a1 ∷ rest) =
    let decoded : ValidatedMotionCommand = record {
      command_id = command_id;
      ttl_ms = pos ttl;
      mode = mode;
      targets = targets;
      max_velocity_cdeg_s = pos (unpack_u16 v0 v1);
      max_acceleration_cdeg_s2 = pos (unpack_u16 a0 a1);
    } in
    checked_by_encode decoded (encode_motion decoded)
finish_motion command_id ttl mode targets _ =
    err (protocol_error (say "motion command payload is truncated"))

-- The mode, and the targets.
unfoldable pub decode_motion_body :
    List ℕ → MotionHead → Option MotionMode → Option ReadTargets → Result ValidatedMotionCommand
unfolding finish_motion
decode_motion_body command_id h none read = err (protocol_error (say "unknown motion command mode"))
decode_motion_body command_id h (some mode) (some r) =
    finish_motion command_id h.ttl_ms mode r.targets r.rest
decode_motion_body command_id h (some mode) none =
    err (protocol_error (say "motion command payload is truncated"))

unfoldable pub decode_motion_head : List ℕ → ℕ → Option MotionHead → Result ValidatedMotionCommand
unfolding decode_motion_body read_targets mode_of_value
decode_motion_head command_id size none =
    err (protocol_error (say "motion command payload is truncated"))
decode_motion_head command_id size (some h) =
    if not (leb 1 h.joint_count && leb h.joint_count max_joint_targets)
    then err (protocol_error (say "motion command has invalid joint target count"))
    else if not (size == 16 + 4 + h.joint_count * 3 + 4)
    then err (protocol_error (say "motion command payload length mismatch"))
    else decode_motion_body command_id h (mode_of_value h.raw_mode)
        (read_targets h.joint_count h.rest)

unfoldable pub decode_motion : List ℕ → Result ValidatedMotionCommand
unfolding decode_motion_head unpack_motion_head
decode_motion payload =
    if ltb (length payload) (16 + 4 + 3 + 4)
    then err (protocol_error (say "motion command payload is truncated"))
    else decode_motion_head (take 16 payload) (length payload)
        (unpack_motion_head (drop 16 payload))
