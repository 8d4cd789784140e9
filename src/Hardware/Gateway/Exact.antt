-- ===== src/Hardware/Gateway/Exact.antt =====
-- rci/hardware/robot_gateway.py: what `_encode_authorization` puts into the command.
use robotic_character_interf.Base.{
  if_both, ◌≡◌, refl, ap, subst, arith, true, false, Option, none, some, List, [], ◌∷◌, String,
  Bool-cases, inl, inr,
}
use mathlib.Core.List.{Perm}
use mathlib.Core.List.Perm
use robotic_character_interf.Base.Float.{Float}
use robotic_character_interf.Base.Dict.{Dict, lookup}
use robotic_character_interf.Base.Int.{ℤ, pos, negsuc, leb_ℤ}
use robotic_character_interf.Base.Message.{say, name, lit}
use robotic_character_interf.Hardware.Gateway.{RobotGateway, GatewayResult, returns, raises}
use robotic_character_interf.Hardware.Gateway.Decimals.{
  exact_protocol_integer-IsExact, exact_protocol_integer, Decimal, IsExact,
}
use robotic_character_interf.Protocol.Messages.Motion.{JointTarget, ValidatedMotionCommand}
use robotic_character_interf.Hardware.Gateway.Commands.{
  uuid_bytes, encode_authorization, insert_target, target_of, sort_targets, joint_targets, then_do,
}
use robotic_character_interf.Safety.Supervisor.{MotionAuthorization}

-- The targets of the items, in the order of the items.
abbrev pub Matches : (Float → Option Decimal) → Dict ℤ → Dict Float → List JointTarget → Type 0
Matches decimal_of ids [] [] = Unit
Matches decimal_of ids ((joint, angle) ∷ d) (t ∷ targets) =
    (lookup joint ids ≡ some t.joint_id)
    × IsExact decimal_of angle 100 (negsuc 32767) (pos 32767) t.target_cdeg
    × Matches decimal_of ids d targets
Matches decimal_of ids d targets = ⊥

then_do-returns :
    {A B : Type 0} (r : GatewayResult A) (k : A → GatewayResult B) (b : B)
    → then_do r k ≡ returns b
    → (a : A) × (r ≡ returns a) × (k a ≡ returns b)
then_do-returns (returns a) k b h = (a, refl, h)
then_do-returns (raises fault) k b h = absurd (ground arith)

returns-injective : {A : Type 0} (a b : A) → returns a ≡ returns b → a ≡ b
returns-injective a b h = cc

target_of-IsExact :
    (decimal_of : Float → Option Decimal) (joint : String) (angle : Float) (o : Option ℤ)
    (t : JointTarget)
    → target_of decimal_of joint angle o ≡ returns t
    → (o ≡ some t.joint_id) × IsExact decimal_of angle 100 (negsuc 32767) (pos 32767) t.target_cdeg
unfolding target_of
target_of-IsExact decimal_of joint angle none t h = absurd (ground arith)
target_of-IsExact decimal_of joint angle (some id) t h =
    let label = lit "joint " ∷ name joint ∷ lit " target" ∷ [] in
    let (z, exact, same) =
      then_do-returns (exact_protocol_integer decimal_of label angle 100 (negsuc 32767) (pos 32767))
        (λ target_cdeg. returns (record { joint_id = id; target_cdeg = target_cdeg })) t h in
    let it : record { joint_id = id; target_cdeg = z } ≡ t =
      returns-injective (record { joint_id = id; target_cdeg = z }) t same in
    (
      ap (λ u. some u.joint_id) it,
      subst (λ u. IsExact decimal_of angle 100 (negsuc 32767) (pos 32767) u.target_cdeg) it
          (exact_protocol_integer-IsExact decimal_of label angle 100 (negsuc 32767) (pos 32767) z
            exact),
    )

joint_targets-Matches :
    (decimal_of : Float → Option Decimal) (ids : Dict ℤ) (d : Dict Float)
    (targets : List JointTarget)
    → joint_targets decimal_of ids d ≡ returns targets
    → Matches decimal_of ids d targets
unfolding joint_targets
joint_targets-Matches decimal_of ids [] [] h = tt
joint_targets-Matches decimal_of ids [] (t ∷ targets) h = absurd (ground arith)
joint_targets-Matches decimal_of ids ((joint, angle) ∷ d) targets h =
    let (t, first, others) =
      then_do-returns (target_of decimal_of joint angle (lookup joint ids))
        (λ t. then_do (joint_targets decimal_of ids d) (λ ts. returns (t ∷ ts))) targets h in
    let (ts, rest, same) =
      then_do-returns (joint_targets decimal_of ids d) (λ ts. returns (t ∷ ts)) targets others in
    let (known, exact) = target_of-IsExact decimal_of joint angle (lookup joint ids) t first in
    subst (Matches decimal_of ids ((joint, angle) ∷ d)) (returns-injective (t ∷ ts) targets same)
      (known, exact, joint_targets-Matches decimal_of ids d ts rest)

-- In ascending order of the joint ids.
abbrev pub IsAscending : List JointTarget → Type 0
IsAscending [] = Unit
IsAscending (t ∷ []) = Unit
IsAscending (t ∷ u ∷ targets) = (leb_ℤ t.joint_id u.joint_id ≡ true) × IsAscending (u ∷ targets)

insert_target-Perm :
    (t : JointTarget) (targets : List JointTarget) → Perm (t ∷ targets) (insert_target t targets)
insert_target-Perm t [] = Perm.rfl
insert_target-Perm t (u ∷ targets) =
    if_both (Perm (t ∷ u ∷ targets)) (leb_ℤ t.joint_id u.joint_id) Perm.rfl
      (Perm.trans (Perm.swap u t targets) (Perm.cons u (insert_target-Perm t targets)))

sort_targets-Perm : (targets : List JointTarget) → Perm targets (sort_targets targets)
sort_targets-Perm [] = Perm.rfl
sort_targets-Perm (t ∷ targets) =
    Perm.trans (Perm.cons t (sort_targets-Perm targets))
      (insert_target-Perm t (sort_targets targets))

leb_ℤ_total : (a b : ℤ) → leb_ℤ a b ≡ false → leb_ℤ b a ≡ true
leb_ℤ_total a b h = ground arith

-- No target has a smaller joint id than the first.
abbrev IsFirst : JointTarget → List JointTarget → Type 0
IsFirst u [] = Unit
IsFirst u (t ∷ targets) = leb_ℤ u.joint_id t.joint_id ≡ true

IsAscending-cons :
    (u : JointTarget) (targets : List JointTarget)
    → IsFirst u targets
    → IsAscending targets
    → IsAscending (u ∷ targets)
IsAscending-cons u [] least h = tt
IsAscending-cons u (t ∷ targets) least h = (least, h)

IsAscending-uncons :
    (u : JointTarget) (targets : List JointTarget)
    → IsAscending (u ∷ targets)
    → IsFirst u targets × IsAscending targets
IsAscending-uncons u [] h = (tt, tt)
IsAscending-uncons u (t ∷ targets) h = (h.0, h.1)

IsFirst-insert_target :
    (u t : JointTarget) (targets : List JointTarget)
    → leb_ℤ u.joint_id t.joint_id ≡ true
    → IsFirst u targets
    → IsFirst u (insert_target t targets)
IsFirst-insert_target u t [] le least = le
IsFirst-insert_target u t (v ∷ targets) le least =
    if_both (IsFirst u) (leb_ℤ t.joint_id v.joint_id) le least

insert_target-IsAscending :
    (t : JointTarget) (targets : List JointTarget)
    → IsAscending targets
    → IsAscending (insert_target t targets)
insert_target-IsAscending t [] h = tt
insert_target-IsAscending t (u ∷ targets) h =
    let (least, others) = IsAscending-uncons u targets h in
    elim (Bool-cases (leb_ℤ t.joint_id u.joint_id)) [
      | inl le ↦ rw le (le, h)
      | inr gt ↦ rw gt (
          IsAscending-cons u (insert_target t targets)
            (IsFirst-insert_target u t targets (leb_ℤ_total t.joint_id u.joint_id gt) least)
            (insert_target-IsAscending t targets others))
    ]

sort_targets-IsAscending : (targets : List JointTarget) → IsAscending (sort_targets targets)
sort_targets-IsAscending [] = tt
sort_targets-IsAscending (t ∷ targets) =
    insert_target-IsAscending t (sort_targets targets) (sort_targets-IsAscending targets)

-- What a command says of the authorization that it was made of. The targets before the sort are
-- those of the items of the mapping.
pub record IsCommandOf (decimal_of : Float → Option Decimal) (g : RobotGateway)
    (a : MotionAuthorization) (m : ValidatedMotionCommand) : Type 0 where
  pub unsorted : List JointTarget
  pub identifier : m.command_id ≡ uuid_bytes a.authorization_id
  pub matches : Matches decimal_of g.joint_protocol_ids a.joint_targets_deg unsorted
  pub reordered : Perm unsorted m.targets
  pub ascending : IsAscending m.targets
  pub sorting : m.targets ≡ sort_targets unsorted
  pub ttl : IsExact decimal_of a.command_ttl_ms 1 (pos 1) (pos 65535) m.ttl_ms
  pub velocity :
      IsExact decimal_of a.max_velocity_deg_s 100 (pos 1) (pos 65535) m.max_velocity_cdeg_s
  pub acceleration :
      IsExact decimal_of a.max_acceleration_deg_s2 100
        (pos 1)
        (pos 65535)
        m.max_acceleration_cdeg_s2

-- A command that is encoded of an authorization carries it exactly: it has the authorization's
-- identifier; it has one target for each item of the mapping, with the protocol id of the item's
-- joint and the item's angle times 100, and nothing else, in ascending order of the ids; and its
-- lifetime and its two limits are the authorization's times 1, 100 and 100. Here a float is the
-- decimal number that it is printed as, each product is a whole number, and it is in the range of
-- its field.
pub encode_authorization-IsCommandOf :
    (decimal_of : Float → Option Decimal) (g : RobotGateway) (a : MotionAuthorization)
    (m : ValidatedMotionCommand)
    → encode_authorization decimal_of g a ≡ returns m
    → IsCommandOf decimal_of g a m
unfolding encode_authorization
encode_authorization-IsCommandOf decimal_of g a m h =
    let (targets, some_targets, h1) =
      then_do-returns (joint_targets decimal_of g.joint_protocol_ids a.joint_targets_deg) _ m h in
    let (ttl, some_ttl, h2) =
      then_do-returns
        (exact_protocol_integer decimal_of (say "command_ttl_ms") a.command_ttl_ms 1 (pos 1)
          (pos 65535))
        _ m h1 in
    let (velocity, some_velocity, h3) =
      then_do-returns
        (exact_protocol_integer decimal_of (say "max_velocity_deg_s") a.max_velocity_deg_s 100
          (pos 1) (pos 65535))
        _ m h2 in
    let (acceleration, some_acceleration, h4) =
      then_do-returns
        (exact_protocol_integer decimal_of (say "max_acceleration_deg_s2") a.max_acceleration_deg_s2
          100 (pos 1) (pos 65535))
        _ m h3 in
    subst (IsCommandOf decimal_of g a) (returns-injective _ m h4) (record {
      unsorted = targets;
      identifier = refl;
      matches =
          joint_targets-Matches decimal_of g.joint_protocol_ids a.joint_targets_deg targets
            some_targets;
      reordered = sort_targets-Perm targets;
      ascending = sort_targets-IsAscending targets;
      sorting = refl;
      ttl =
          exact_protocol_integer-IsExact decimal_of (say "command_ttl_ms") a.command_ttl_ms 1
            (pos 1) (pos 65535) ttl some_ttl;
      velocity =
          exact_protocol_integer-IsExact decimal_of (say "max_velocity_deg_s") a.max_velocity_deg_s
            100 (pos 1) (pos 65535) velocity some_velocity;
      acceleration =
          exact_protocol_integer-IsExact decimal_of (say "max_acceleration_deg_s2")
            a.max_acceleration_deg_s2 100 (pos 1) (pos 65535) acceleration some_acceleration;
    })
