-- ===== src/Hardware/Gateway/Delivery.antt =====
-- rci/hardware/robot_gateway.py: from an authorization to the bytes of a command and back.
use robotic_character_interf.Base.{
  ℕ, ◌+◌, ◌*◌, ◌≤◌, ◌<◌, ◌≡◌, refl, sym, ap, ◌∙◌, subst, arith, true, false, Option, List, ◌++◌,
}
use robotic_character_interf.Base.Float.{Float}
use robotic_character_interf.Base.Dict.{Dict, keys}
use robotic_character_interf.Base.Int.{pos_part, ℤ, pos, leb_ℤ}
use robotic_character_interf.Base.Lists.{All, length}
use robotic_character_interf.Hardware.Gateway.{
  RobotGateway, returns, make_gateway, has_bad_id, has_shared_id,
}
use robotic_character_interf.Hardware.Gateway.Decimals.{Decimal}
use robotic_character_interf.Hardware.Gateway.Exact.{IsCommandOf, encode_authorization-IsCommandOf}
use robotic_character_interf.Protocol.Constants.{MotionMode, mode_value}
use robotic_character_interf.Protocol.Messages.Motion.{
  decode_motion, encode_targets, has_duplicates, motion_fault, motion_head, motion_tail,
  ValidatedMotionCommand, encode_motion,
}
use robotic_character_interf.Safety.Supervisor.{MotionAuthorization}
use robotic_character_interf.Hardware.Gateway.Payload.{
  uuid_bytes-IsPayload, Matches-IsTarget, Matches-length, encode_targets-IsTarget, IsPayload-append,
  IsTarget, IsPayload,
}
use robotic_character_interf.Hardware.Gateway.Encoding.{Matches-has_duplicates, has_repeats}
use robotic_character_interf.Protocol.Framing.{ok, pack_u16}
use robotic_character_interf.Protocol.Messages.{require_uint}
use robotic_character_interf.Hardware.Gateway.Sorting.{
  has_duplicates-sort_targets, All-sort_targets, length-sort_targets,
}
use robotic_character_interf.Protocol.Checksum.Detection.{IsByte}
use robotic_character_interf.Hardware.Gateway.Commands.{encode_authorization}
use robotic_character_interf.Protocol.Messages.MotionTrip.{decode_motion-encode}

pub make_gateway-ids :
    (ids : Dict ℤ) (timeout : Float) (initial : ℤ) (g : RobotGateway)
    → make_gateway ids timeout initial ≡ returns g
    → (has_bad_id g.joint_protocol_ids ≡ false)
      × (has_shared_id g.joint_protocol_ids ≡ false)
      × (g.sequence < 65536)
unfolding make_gateway
make_gateway-ids ids timeout initial g h = (ground arith, ground arith, ground arith)

-- The targets of a command are sound for the codec.
record IsEncodable (m : ValidatedMotionCommand) : Type 0 where
  targets : All IsTarget m.targets
  no_duplicates : has_duplicates m.targets ≡ false
  some_target : 1 ≤ length m.targets
  few_targets : length m.targets ≤ 8
  uuid : IsPayload m.command_id 16
  ttl_low : leb_ℤ (pos 1) m.ttl_ms ≡ true
  ttl_high : leb_ℤ m.ttl_ms (pos 65535) ≡ true
  velocity_low : leb_ℤ (pos 1) m.max_velocity_cdeg_s ≡ true
  velocity_high : leb_ℤ m.max_velocity_cdeg_s (pos 65535) ≡ true
  acceleration_low : leb_ℤ (pos 1) m.max_acceleration_cdeg_s2 ≡ true
  acceleration_high : leb_ℤ m.max_acceleration_cdeg_s2 (pos 65535) ≡ true

IsCommandOf-IsEncodable :
    (decimal_of : Float → Option Decimal) (g : RobotGateway) (a : MotionAuthorization)
    (m : ValidatedMotionCommand)
    → has_bad_id g.joint_protocol_ids ≡ false
    → has_shared_id g.joint_protocol_ids ≡ false
    → has_repeats (keys a.joint_targets_deg) ≡ false
    → 1 ≤ length a.joint_targets_deg
    → length a.joint_targets_deg ≤ 8
    → IsCommandOf decimal_of g a m
    → IsEncodable m
IsCommandOf-IsEncodable decimal_of g a m good unique once some_target few_targets c =
    let size : length m.targets ≡ length a.joint_targets_deg =
      ap length c.sorting
      ∙ length-sort_targets c.unsorted
      ∙ Matches-length decimal_of g.joint_protocol_ids a.joint_targets_deg c.unsorted c.matches in
    record {
      targets = subst (All IsTarget) (sym c.sorting) (
          All-sort_targets IsTarget c.unsorted (
            Matches-IsTarget decimal_of g.joint_protocol_ids a.joint_targets_deg c.unsorted good
              c.matches));
      no_duplicates =
          ap has_duplicates c.sorting
          ∙ has_duplicates-sort_targets c.unsorted
          ∙ Matches-has_duplicates decimal_of g.joint_protocol_ids a.joint_targets_deg c.unsorted
              unique once c.matches;
      some_target = omega (arith, size, some_target);
      few_targets = omega (arith, size, few_targets);
      uuid =
          subst (λ b. IsPayload b 16) (sym c.identifier) (uuid_bytes-IsPayload a.authorization_id);
      ttl_low = c.ttl.low;
      ttl_high = c.ttl.high;
      velocity_low = c.velocity.low;
      velocity_high = c.velocity.high;
      acceleration_low = c.acceleration.low;
      acceleration_high = c.acceleration.high;
    }

word_IsPayload : (z : ℤ) → leb_ℤ z (pos 65535) ≡ true → IsPayload (pack_u16 (pos_part z)) 2
word_IsPayload z h = record { all_bytes = (omega arith, (ground arith, tt)); sized = refl }

motion_tail-IsPayload : (m : ValidatedMotionCommand) → IsEncodable m → IsPayload (motion_tail m) 4
motion_tail-IsPayload m e =
    IsPayload-append (word_IsPayload m.max_velocity_cdeg_s e.velocity_high)
      (word_IsPayload m.max_acceleration_cdeg_s2 e.acceleration_high)

mode-IsByte : (mode : MotionMode) → IsByte (mode_value mode)
unfolding mode_value
mode-IsByte mode = ground arith

motion_head-IsPayload : (m : ValidatedMotionCommand) → IsEncodable m → IsPayload (motion_head m) 20
motion_head-IsPayload m e = IsPayload-append e.uuid (
    IsPayload-append (word_IsPayload m.ttl_ms e.ttl_high) (record {
      all_bytes = (mode-IsByte m.mode, (omega (arith, e.few_targets), tt));
      sized = refl;
    }))

encode_motion-parts :
    (m : ValidatedMotionCommand) (body : List ℕ)
    → IsEncodable m
    → encode_targets m.targets (motion_tail m) ≡ ok body
    → encode_motion m ≡ ok (motion_head m ++ body)
unfolding encode_motion require_uint motion_fault
encode_motion-parts m body e encoded = ground (
  arith, encoded, e.no_duplicates, e.some_target, e.few_targets, e.ttl_low, e.ttl_high,
  e.velocity_low, e.velocity_high, e.acceleration_low, e.acceleration_high,
)

encode_motion-IsEncodable :
    (m : ValidatedMotionCommand)
    → IsEncodable m
    → (bytes : List ℕ) × (encode_motion m ≡ ok bytes) × IsPayload bytes (24 + length m.targets * 3)
encode_motion-IsEncodable m e =
    let (body, encoded, p) =
      encode_targets-IsTarget m.targets (motion_tail m) 4 e.targets (motion_tail-IsPayload m e) in
    let q = IsPayload-append (motion_head-IsPayload m e) p in
    (
      motion_head m ++ body,
      encode_motion-parts m body e encoded,
      record { all_bytes = q.all_bytes; sized = omega (arith, q.sized) },
    )

-- What the gateway sends for a command, and what the robot reads of it.
pub record IsDelivered (m : ValidatedMotionCommand) (bytes : List ℕ) : Type 0 where
  pub encoded : encode_motion m ≡ ok bytes
  pub decoded : decode_motion bytes ≡ ok m
  pub all_bytes : All IsByte bytes
  pub sized : length bytes ≡ 24 + length m.targets * 3
  pub few_targets : length m.targets ≤ 8

-- Of a gateway that is constructed without an error: whenever it makes a command of an
-- authorization that has from one to eight joint targets, of different names, the command's
-- encoding raises no error, it is of 24 bytes and three for each target, and decoding it gives the
-- same command.
pub encode_authorization-IsDelivered :
    (decimal_of : Float → Option Decimal) (ids : Dict ℤ) (timeout : Float) (initial : ℤ)
    (g : RobotGateway) (a : MotionAuthorization) (m : ValidatedMotionCommand)
    → make_gateway ids timeout initial ≡ returns g
    → has_repeats (keys a.joint_targets_deg) ≡ false
    → 1 ≤ length a.joint_targets_deg
    → length a.joint_targets_deg ≤ 8
    → encode_authorization decimal_of g a ≡ returns m
    → (bytes : List ℕ) × IsDelivered m bytes
encode_authorization-IsDelivered decimal_of ids timeout initial g a m made once some_target
      few_targets h =
    let (good, unique, _) = make_gateway-ids ids timeout initial g made in
    let e =
      IsCommandOf-IsEncodable decimal_of g a m good unique once some_target few_targets
        (encode_authorization-IsCommandOf decimal_of g a m h) in
    let (bytes, encoded, p) = encode_motion-IsEncodable m e in
    (
      bytes,
      record {
        encoded = encoded;
        decoded = decode_motion-encode m bytes e.uuid.sized encoded;
        all_bytes = p.all_bytes;
        sized = p.sized;
        few_targets = e.few_targets;
      },
    )
