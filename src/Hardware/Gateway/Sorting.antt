-- ===== src/Hardware/Gateway/Sorting.antt =====
-- rci/hardware/robot_gateway.py: the sort of the targets and the checks of the codec.
use robotic_character_interf.Base.{
  if_both, suc, ◌≡◌, refl, ap, ◌∙◌, arith, Bool, ◌||◌, List, [], ◌∷◌,
}
use robotic_character_interf.Base.Int.{ℤ, leb_ℤ, eqb_ℤ}
use robotic_character_interf.Base.Lists.{All, length}
use robotic_character_interf.Hardware.Gateway.Commands.{insert_target, sort_targets}
use robotic_character_interf.Protocol.Messages.Motion.{JointTarget, has_joint, has_duplicates}

eqb_ℤ_sym : (a b : ℤ) → eqb_ℤ a b ≡ eqb_ℤ b a
eqb_ℤ_sym a b = ground arith

or_after : (a b c d : Bool) → d ≡ (b || c) → (a || d) ≡ (b || (a || c))
or_after a b c d h = ground (arith, h)

or_exchange :
    (ut tu us ts d us' d' : Bool)
    → ut ≡ tu
    → us' ≡ (ut || us)
    → d' ≡ (ts || d)
    → (us' || d') ≡ ((tu || ts) || (us || d))
or_exchange ut tu us ts d us' d' e f g = ground (arith, e, f, g)

has_joint-insert_target :
    (id : ℤ) (t : JointTarget) (targets : List JointTarget)
    → has_joint id (insert_target t targets) ≡ has_joint id (t ∷ targets)
has_joint-insert_target id t [] = refl
has_joint-insert_target id t (u ∷ targets) =
    let later = has_joint-insert_target id t targets in
    if_both (λ r. has_joint id r ≡ has_joint id (t ∷ u ∷ targets)) (leb_ℤ t.joint_id u.joint_id)
      refl
      (or_after (eqb_ℤ id u.joint_id) (eqb_ℤ id t.joint_id) (has_joint id targets)
        (has_joint id (insert_target t targets)) later)

has_duplicates-insert_target :
    (t : JointTarget) (targets : List JointTarget)
    → has_duplicates (insert_target t targets) ≡ has_duplicates (t ∷ targets)
unfolding has_duplicates
has_duplicates-insert_target t [] = refl
has_duplicates-insert_target t (u ∷ targets) =
    if_both (λ r. has_duplicates r ≡ has_duplicates (t ∷ u ∷ targets)) (leb_ℤ t.joint_id u.joint_id)
      refl
      (or_exchange (eqb_ℤ u.joint_id t.joint_id) (eqb_ℤ t.joint_id u.joint_id)
        (has_joint u.joint_id targets) (has_joint t.joint_id targets) (has_duplicates targets)
        (has_joint u.joint_id (insert_target t targets)) (has_duplicates (insert_target t targets))
        (eqb_ℤ_sym u.joint_id t.joint_id) (has_joint-insert_target u.joint_id t targets)
        (has_duplicates-insert_target t targets))

has_joint-sort_targets :
    (id : ℤ) (targets : List JointTarget)
    → has_joint id (sort_targets targets) ≡ has_joint id targets
has_joint-sort_targets id [] = refl
has_joint-sort_targets id (t ∷ targets) =
    has_joint-insert_target id t (sort_targets targets)
    ∙ ap (λ b. eqb_ℤ id t.joint_id || b) (has_joint-sort_targets id targets)

pub has_duplicates-sort_targets :
    (targets : List JointTarget) → has_duplicates (sort_targets targets) ≡ has_duplicates targets
unfolding has_duplicates
has_duplicates-sort_targets [] = refl
has_duplicates-sort_targets (t ∷ targets) =
    has_duplicates-insert_target t (sort_targets targets)
    ∙ ap (λ b. b || has_duplicates (sort_targets targets))
        (has_joint-sort_targets t.joint_id targets)
    ∙ ap (λ b. has_joint t.joint_id targets || b) (has_duplicates-sort_targets targets)

length-insert_target :
    (t : JointTarget) (targets : List JointTarget)
    → length (insert_target t targets) ≡ suc (length targets)
length-insert_target t [] = refl
length-insert_target t (u ∷ targets) =
    if_both (λ r. length r ≡ suc (suc (length targets))) (leb_ℤ t.joint_id u.joint_id) refl
      (ap (λ n. suc n) (length-insert_target t targets))

pub length-sort_targets :
    (targets : List JointTarget) → length (sort_targets targets) ≡ length targets
length-sort_targets [] = refl
length-sort_targets (t ∷ targets) =
    length-insert_target t (sort_targets targets) ∙ ap (λ n. suc n) (length-sort_targets targets)

All-insert_target :
    (P : JointTarget → Type 0) (t : JointTarget) (targets : List JointTarget)
    → P t
    → All P targets
    → All P (insert_target t targets)
All-insert_target P t [] p ps = (p, tt)
All-insert_target P t (u ∷ targets) p ps =
    if_both (All P) (leb_ℤ t.joint_id u.joint_id) (p, ps)
      (ps.0, All-insert_target P t targets p ps.1)

pub All-sort_targets :
    (P : JointTarget → Type 0) (targets : List JointTarget)
    → All P targets
    → All P (sort_targets targets)
All-sort_targets P [] ps = tt
All-sort_targets P (t ∷ targets) ps =
    All-insert_target P t (sort_targets targets) ps.0 (All-sort_targets P targets ps.1)
