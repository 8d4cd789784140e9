-- ===== src/Base/Dict.antt =====
-- A Python dict (or mapping) with text keys: its items in insertion order.
use text.Mathlib.Text.{◌==◌ as str_eq}
use robotic_character_interf.Base.{
  String, Bool, true, false, ◌||◌, Option, none, some, List, [], ◌∷◌, if◌then◌else◌, is_some,
}

abbrev pub Dict {ℓ} : Type ℓ → Type ℓ
Dict V = List (String × V)

module _ {ℓ} {V : Type ℓ} where
  -- `d.get(k)`
  abbrev pub lookup : String → Dict V → Option V
  lookup k [] = none
  lookup k ((j, v) ∷ d) = if str_eq j k then some v else lookup k d

  -- `k in d`
  abbrev pub contains : String → Dict V → Bool
  contains k d = is_some (lookup k d)

  abbrev pub keys : Dict V → List String
  keys [] = []
  keys ((k, v) ∷ d) = k ∷ keys d

  abbrev pub is_empty : Dict V → Bool
  is_empty [] = true
  is_empty (e ∷ d) = false

-- `k in s`, for a set of names.
abbrev pub elem : String → List String → Bool
elem k [] = false
elem k (j ∷ s) = str_eq j k || elem k s
