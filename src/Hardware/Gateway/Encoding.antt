-- ===== src/Hardware/Gateway/Encoding.antt =====
-- rci/hardware/robot_gateway.py: the commands that `_encode_authorization` makes, given to
-- `ValidatedMotionCommand.encode`.
use robotic_character_interf.Base.{
  ◌≡◌, refl, sym, ◌∙◌, arith, Bool, true, false, ◌||◌, Option, some, List, [], ◌∷◌, Bool-cases, inl,
  inr, String,
}
use text.Mathlib.TextEquality.{eq_iff}
use text.Mathlib.Text.{◌==◌ as str_eq}
use robotic_character_interf.Base.Dict.{Dict, lookup, keys, elem}
use robotic_character_interf.Base.Float.{Float}
use robotic_character_interf.Base.Int.{ℤ, pos, leb_ℤ, eqb_ℤ}
use robotic_character_interf.Hardware.Gateway.{has_bad_id, has_shared_id, id_taken}
use robotic_character_interf.Hardware.Gateway.Exact.{Matches}
use robotic_character_interf.Protocol.Messages.Motion.{JointTarget, has_joint, has_duplicates}
use robotic_character_interf.Hardware.Gateway.Decimals.{Decimal}

-- A key of a mapping stands in it once.
abbrev pub has_repeats : List String → Bool
has_repeats [] = false
has_repeats (k ∷ ks) = elem k ks || has_repeats ks

-- Ids of joints of different names.
id_taken-lookup :
    (id b : ℤ) (k : String) (ids : Dict ℤ)
    → id_taken id ids ≡ false
    → lookup k ids ≡ some b
    → eqb_ℤ id b ≡ false
id_taken-lookup id b k [] free known = absurd (ground arith)
id_taken-lookup id b k ((j, z) ∷ ids) free known = elim (Bool-cases (str_eq j k)) [
  | inl here ↦ ground (arith, here)
  | inr there ↦ id_taken-lookup id b k ids (ground arith) (ground (arith, there))
]

same_name : (n j k : String) → str_eq n j ≡ true → str_eq n k ≡ true → str_eq j k ≡ true
same_name n j k h h' = (eq_iff j k).1 (sym ((eq_iff n j).0 h) ∙ (eq_iff n k).0 h')

false_true : {A : Type 0} (b : Bool) → b ≡ false → b ≡ true → A
false_true b h h' = absurd (ground arith)

lookup_distinct :
    (ids : Dict ℤ) (j k : String) (a b : ℤ)
    → has_shared_id ids ≡ false
    → lookup j ids ≡ some a
    → lookup k ids ≡ some b
    → str_eq j k ≡ false
    → eqb_ℤ a b ≡ false
lookup_distinct [] j k a b unique hj hk different = absurd (ground arith)
lookup_distinct ((n, z) ∷ ids) j k a b unique hj hk different = elim (Bool-cases (str_eq n j)) [
  | inl is_j ↦ elim (Bool-cases (str_eq n k)) [
    | inl is_k ↦ false_true (str_eq j k) different (same_name n j k is_j is_k)
    | inr not_k ↦
        let free : eqb_ℤ z b ≡ false =
          id_taken-lookup z b k ids (ground arith) (ground (arith, not_k)) in
        ground (arith, is_j, free)
  ]
  | inr not_j ↦ elim (Bool-cases (str_eq n k)) [
    | inl is_k ↦
        let free : eqb_ℤ z a ≡ false =
          id_taken-lookup z a j ids (ground arith) (ground (arith, not_j)) in
        ground (arith, is_k, free)
    | inr not_k ↦
        lookup_distinct ids j k a b (ground arith) (ground (arith, not_j)) (ground (arith, not_k))
          different
  ]
]

pub lookup_range :
    (ids : Dict ℤ) (j : String) (a : ℤ)
    → has_bad_id ids ≡ false
    → lookup j ids ≡ some a
    → (leb_ℤ (pos 0) a ≡ true) × (leb_ℤ a (pos 255) ≡ true)
lookup_range [] j a good known = absurd (ground arith)
lookup_range ((n, z) ∷ ids) j a good known = elim (Bool-cases (str_eq n j)) [
  | inl here ↦ (ground (arith, here), ground (arith, here))
  | inr there ↦ lookup_range ids j a (ground arith) (ground (arith, there))
]

Matches-has_joint :
    (decimal_of : Float → Option Decimal) (ids : Dict ℤ) (d : Dict Float)
    (targets : List JointTarget) (j : String) (a : ℤ)
    → has_shared_id ids ≡ false
    → lookup j ids ≡ some a
    → elem j (keys d) ≡ false
    → Matches decimal_of ids d targets
    → has_joint a targets ≡ false
Matches-has_joint decimal_of ids [] [] j a unique known fresh m = refl
Matches-has_joint decimal_of ids [] (t ∷ targets) j a unique known fresh m = absurd m
Matches-has_joint decimal_of ids ((k, angle) ∷ d) [] j a unique known fresh m = absurd m
Matches-has_joint decimal_of ids ((k, angle) ∷ d) (t ∷ targets) j a unique known fresh m =
    let other : str_eq k j ≡ false = ground arith in
    let apart : eqb_ℤ t.joint_id a ≡ false =
      lookup_distinct ids k j t.joint_id a unique m.0 known other in
    let later = Matches-has_joint decimal_of ids d targets j a unique known (ground arith) m.2 in
    ground (arith, apart, later)

pub Matches-has_duplicates :
    (decimal_of : Float → Option Decimal) (ids : Dict ℤ) (d : Dict Float)
    (targets : List JointTarget)
    → has_shared_id ids ≡ false
    → has_repeats (keys d) ≡ false
    → Matches decimal_of ids d targets
    → has_duplicates targets ≡ false
unfolding has_duplicates
Matches-has_duplicates decimal_of ids [] [] unique once m = refl
Matches-has_duplicates decimal_of ids [] (t ∷ targets) unique once m = absurd m
Matches-has_duplicates decimal_of ids ((k, angle) ∷ d) [] unique once m = absurd m
Matches-has_duplicates decimal_of ids ((k, angle) ∷ d) (t ∷ targets) unique once m =
    let first =
      Matches-has_joint decimal_of ids d targets k t.joint_id unique m.0 (ground arith) m.2 in
    let later = Matches-has_duplicates decimal_of ids d targets unique (ground arith) m.2 in
    ground (arith, first, later)
