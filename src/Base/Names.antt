-- ===== src/Base/Names.antt =====
-- Python sets of names, as lists: difference, union and `sorted`.
use Prim.Native.Nat.{Ordering}
use Prim.Native.String.{compare}
use mathlib.Core.Path.{subst}
use text.Mathlib.Text.{◌==◌ as str_eq}
use text.Mathlib.TextEquality.{eq_iff}
use robotic_character_interf.Base.{
  String, ◌≡◌, ◌↔◌, inl, inr, Bool-cases, refl, true, List, [], ◌∷◌, ◌++◌, arith, if◌then◌else◌,
}
use robotic_character_interf.Base.Dict.{elem}
use robotic_character_interf.Base.Lists.{All, All-append}

-- `s - t`
unfoldable pub difference : List String → List String → List String
difference [] t = []
difference (k ∷ s) t = if elem k t then difference s t else k ∷ difference s t

-- `s | t`
abbrev pub union : List String → List String → List String
union s t = s ++ difference t s

unfoldable pub insert : String → List String → List String
insert k [] = k ∷ []
insert k (j ∷ s) = elim (compare k j) [ Ordering.gt ↦ j ∷ insert k s | _ ↦ k ∷ j ∷ s ]

-- `sorted(s)`, by code points.
unfoldable pub sorted : List String → List String
unfolding insert
sorted [] = []
sorted (k ∷ s) = insert k (sorted s)

insert-ne-nil : (k : String) (s : List String) → insert k s ≡ [] → ⊥
unfolding insert
insert-ne-nil k [] h = cc
insert-ne-nil k (j ∷ s) h = ground arith

pub sorted-eq-nil : (s : List String) → sorted s ≡ [] → s ≡ []
unfolding sorted
sorted-eq-nil [] h = refl
sorted-eq-nil (k ∷ s) h = absurd (insert-ne-nil k (sorted s) h)

abbrev pub IsIn : List String → String → Type 0
IsIn t k = elem k t ≡ true

pub difference-All : (s t : List String) → difference s t ≡ [] → All (IsIn t) s
unfolding difference
difference-All [] t h = tt
difference-All (k ∷ s) t h = (ground arith, difference-All s t (ground arith))

pub difference_of_All : (s t : List String) → All (IsIn t) s → difference s t ≡ []
unfolding difference
difference_of_All [] t h = refl
difference_of_All (k ∷ s) t h = ground (arith, difference_of_All s t h.1)

IsIn-of_All : (k : String) (s t : List String) → All (IsIn t) s → elem k s ≡ true → IsIn t k
IsIn-of_All k [] t h m = cc
IsIn-of_All k (j ∷ s) t h m = elim (Bool-cases (str_eq j k)) [
  | inl same ↦ subst (IsIn t) ((eq_iff j k).0 same) h.0
  | inr differ ↦ IsIn-of_All k s t h.1 (ground arith)
]

-- What is in `t` is in `s`, or left by the difference.
All-of_difference :
    (s t u : List String) → All (IsIn u) s → All (IsIn u) (difference t s) → All (IsIn u) t
unfolding difference
All-of_difference s [] u hs hd = tt
All-of_difference s (k ∷ t) u hs hd = elim (Bool-cases (elem k s)) [
  | inl old ↦ (IsIn-of_All k s u hs old, All-of_difference s t u hs (rw old at hd))
  | inr new ↦
      let hd' : All (IsIn u) (k ∷ difference t s) = rw new at hd in
      (hd'.0, All-of_difference s t u hs hd'.1)
]

difference-All_mono : (s t u : List String) → All (IsIn u) t → All (IsIn u) (difference t s)
unfolding difference
difference-All_mono s [] u h = tt
difference-All_mono s (k ∷ t) u h = elim (Bool-cases (elem k s)) [
  | inl old ↦ rw old (difference-All_mono s t u h.1)
  | inr new ↦ rw new (h.0, difference-All_mono s t u h.1)
]

pub All-union : (s t u : List String) → All (IsIn u) (union s t) ↔ (All (IsIn u) s × All (IsIn u) t)
All-union s t u =
    let (apart, together) = All-append (IsIn u) s (difference t s) in
    (
      (λ h. ((apart h).0, All-of_difference s t u (apart h).0 (apart h).1)),
      (λ h. together (h.0, difference-All_mono s t u h.1)),
    )
