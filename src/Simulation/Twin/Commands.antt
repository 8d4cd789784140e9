-- ===== src/Simulation/Twin/Commands.antt =====
-- rci/simulation/digital_twin.py: what `accept` makes of a command's targets.
use robotic_character_interf.Base.{
  ◌≡◌, refl, sym, ap, ◌∙◌, subst, arith, if◌then◌else◌, List, [], ◌∷◌, Bool, true, false, Option,
  none, some, String, Bool-cases, inl, inr, is_some,
}
use text.Mathlib.Text.{◌==◌ as str_eq}
use text.Mathlib.TextEquality.{eq_iff}
use robotic_character_interf.Base.Dict.{Dict, lookup}
use robotic_character_interf.Base.Float.{Float}
use robotic_character_interf.Base.Int.{ℤ}
use robotic_character_interf.Protocol.Messages.Motion.{JointTarget}
use robotic_character_interf.Robotics.{Joints}
use robotic_character_interf.Simulation.Twin.{
  Accepted, refused, new_targets, name_of_id, set_item, set_named, set_targets,
}

-- The joint of every target is one of the model's.
abbrev pub AreKnown : Joints → List JointTarget → Type 0
AreKnown joints [] = Unit
AreKnown joints (t ∷ targets) =
    (is_some (name_of_id t.joint_id joints) ≡ true) × AreKnown joints targets

-- The first, if there is one.
abbrev pub either {ℓ} : {A : Type ℓ} → Option A → Option A → Option A
either none b = b
either (some a) b = some a

abbrev pub value_for : String → Float → Option String → Option Float
value_for joint value none = none
value_for joint value (some n) = if str_eq n joint then some value else none

-- The last target that a command has for the joint.
abbrev pub last_target : (ℤ → Float) → Joints → String → List JointTarget → Option Float
last_target centi joints joint [] = none
last_target centi joints joint (t ∷ targets) =
    either (last_target centi joints joint targets)
      (value_for joint (centi t.target_cdeg) (name_of_id t.joint_id joints))

-- The targets after a command: for a joint that it has a target for, the last such one, and for any
-- other joint the target before.
abbrev pub AreCommanded : (ℤ → Float) → Joints → List JointTarget → Dict Float → Dict Float → Type 0
AreCommanded centi joints commanded before after =
    (joint : String)
    → lookup joint after ≡ either (last_target centi joints joint commanded) (lookup joint before)

if_same :
    (b : Bool) (x y : Float) (o : Option Float)
    → (if b then some x else o) ≡ (if b then some x else if b then some y else o)
if_same true x y o = refl
if_same false x y o = refl

-- The names `i` and `j` are the same, and `k` is another.
differs : (i j k : String) → str_eq i j ≡ true → str_eq i k ≡ false → str_eq k j ≡ false
differs i j k same other = elim (Bool-cases (str_eq k j)) [
  | inl e ↦
      absurd (ground (arith, other, (eq_iff i k).1 ((eq_iff i j).0 same ∙ sym ((eq_iff k j).0 e))))
  | inr e ↦ e
]

lookup-set_item :
    (joint k : String) (value : Float) (d : Dict Float)
    → lookup joint (set_item k value d) ≡ (if str_eq k joint then some value else lookup joint d)
lookup-set_item joint k value [] = refl
lookup-set_item joint k value ((i, w) ∷ d) = elim (Bool-cases (str_eq i k)) [
  | inl same ↦
      let i≡k = (eq_iff i k).0 same in
      rw same (
        subst
          (λ n. (if str_eq i joint then some value else lookup joint d) ≡ (
            if str_eq n joint
            then some value
            else if str_eq i joint
            then some w
            else lookup joint d))
          i≡k (if_same (str_eq i joint) value w (lookup joint d)))
  | inr other ↦ rw other (elim (Bool-cases (str_eq i joint)) [
    | inl at ↦
        let not_k : str_eq k joint ≡ false = differs i joint k at other in rw (at, not_k) refl
    | inr off ↦ rw off (lookup-set_item joint k value d)
  ])
]

either_assoc : (a b c : Option Float) → either (either a b) c ≡ either a (either b c)
either_assoc none b c = refl
either_assoc (some x) b c = refl

either_if :
    (b : Bool) (x : Float) (c : Option Float)
    → either (if b then some x else none) c ≡ (if b then some x else c)
either_if true x c = refl
either_if false x c = refl

known_of : {A : Type 0} (o : Option A) (a : A) → o ≡ some a → is_some o ≡ true
known_of none a e = absurd (ground arith)
known_of (some b) a e = refl

-- One target, before those that come after it.
commanded_first :
    (centi : ℤ → Float) (joints : Joints) (t : JointTarget) (later : List JointTarget)
    (before after : Dict Float) (n : String)
    → name_of_id t.joint_id joints ≡ some n
    → AreCommanded centi joints later (set_item n (centi t.target_cdeg) before) after
    → AreCommanded centi joints (t ∷ later) before after
commanded_first centi joints t later before after n e h joint =
    let v = centi t.target_cdeg in
    let l = last_target centi joints joint later in
    let own : value_for joint v (name_of_id t.joint_id joints)
        ≡ (if str_eq n joint then some v else none) =
      ap (value_for joint v) e in
    h joint
    ∙ ap (either l) (
        lookup-set_item joint n v before ∙ sym (either_if (str_eq n joint) v (lookup joint before)))
    ∙ sym (either_assoc l (if str_eq n joint then some v else none) (lookup joint before))
    ∙ ap (λ o. either (either l o) (lookup joint before)) (sym own)

-- What the loop gives: a fault for an unknown joint, or the targets as commanded.
abbrev pub AreSet : (ℤ → Float) → Joints → List JointTarget → Dict Float → Accepted → Type 0
AreSet centi joints commanded before (refused m) = ¬ AreKnown joints commanded
AreSet centi joints commanded before (new_targets after) =
    AreKnown joints commanded × AreCommanded centi joints commanded before after

set_more :
    (centi : ℤ → Float) (joints : Joints) (t : JointTarget) (later : List JointTarget)
    (before : Dict Float) (n : String) (r : Accepted)
    → name_of_id t.joint_id joints ≡ some n
    → AreSet centi joints later (set_item n (centi t.target_cdeg) before) r
    → AreSet centi joints (t ∷ later) before r
set_more centi joints t later before n (refused m) e h = λ known. h known.1
set_more centi joints t later before n (new_targets after) e h = (
  (known_of (name_of_id t.joint_id joints) n e, h.0),
  commanded_first centi joints t later before after n e h.1,
)

set_first :
    (centi : ℤ → Float) (joints : Joints) (t : JointTarget) (later : List JointTarget)
    (before : Dict Float) (o : Option String)
    → name_of_id t.joint_id joints ≡ o
    → ((targets : Dict Float)
        → AreSet centi joints later targets (set_targets centi joints later targets))
    → AreSet centi joints (t ∷ later) before (elim (set_named centi t before o) [
      | refused m ↦ refused m
      | new_targets next ↦ set_targets centi joints later next
    ])
set_first centi joints t later before none e h = λ known. absurd (ground (arith, e, known.0))
set_first centi joints t later before (some n) e h =
    let next = set_item n (centi t.target_cdeg) before in
    set_more centi joints t later before n (set_targets centi joints later next) e (h next)

pub set_targets-AreSet :
    (centi : ℤ → Float) (joints : Joints) (commanded : List JointTarget) (before : Dict Float)
    → AreSet centi joints commanded before (set_targets centi joints commanded before)
unfolding set_targets
set_targets-AreSet centi joints [] before = (tt, λ joint. refl)
set_targets-AreSet centi joints (t ∷ later) before =
    set_first centi joints t later before (name_of_id t.joint_id joints) refl
      (λ targets. set_targets-AreSet centi joints later targets)
