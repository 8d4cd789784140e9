-- ===== src/Base/Float.antt =====
-- Python's `float` as far as the program tests it. Every finite double is a whole multiple of the
-- least positive one, 2 ^ -1074, so `fin z` stands for z * 2 ^ -1074: comparisons, `abs` and
-- `isfinite` are exact on it (the two zeros, which no comparison tells apart, are one value).
use robotic_character_interf.Base.{◌≡◌, Bool, true, false, refl, ap, arith}
use robotic_character_interf.Base.Int.{ℤ, pos, ◌≤ℤ◌, ltb_ℤ, leb_ℤ, eqb_ℤ, eq_of_parts, abs as abs_ℤ}

pub data Float : Type 0 where
  nan inf neg_inf : Float
  fin : ℤ → Float

-- `math.isfinite`
abbrev pub isfinite : Float → Bool
isfinite (fin z) = true
isfinite _ = false

-- `a < b`; a comparison with a NaN is false.
abbrev pub lt : Float → Float → Bool
lt (fin a) (fin b) = ltb_ℤ a b
lt (fin a) inf = true
lt neg_inf (fin b) = true
lt neg_inf inf = true
lt _ _ = false

-- `a <= b`
abbrev pub le : Float → Float → Bool
le (fin a) (fin b) = leb_ℤ a b
le (fin a) inf = true
le neg_inf (fin b) = true
le neg_inf inf = true
le neg_inf neg_inf = true
le inf inf = true
le _ _ = false

-- `a == b`
abbrev pub eq : Float → Float → Bool
eq (fin a) (fin b) = eqb_ℤ a b
eq inf inf = true
eq neg_inf neg_inf = true
eq _ _ = false

-- `abs(a)`
abbrev pub abs : Float → Float
abs (fin z) = fin (abs_ℤ z)
abs neg_inf = inf
abs inf = inf
abs nan = nan

abbrev pub zero_f : Float
zero_f = fin (pos 0)

-- The order that the comparisons stand for, on finite values alone.
pub data FiniteLe : Float → Float → Type 0 where
  finite_le : {a b : ℤ} → a ≤ℤ b → FiniteLe (fin a) (fin b)

-- Between finite values `not (a > b)` is `a <= b`.
pub FiniteLe-of_not_gt :
    (a b : Float) → isfinite a ≡ true → isfinite b ≡ true → lt b a ≡ false → FiniteLe a b
FiniteLe-of_not_gt (fin a) (fin b) ha hb h = finite_le (ground arith)
FiniteLe-of_not_gt (fin a) nan ha hb h = cc
FiniteLe-of_not_gt (fin a) inf ha hb h = cc
FiniteLe-of_not_gt (fin a) neg_inf ha hb h = cc
FiniteLe-of_not_gt nan b ha hb h = cc
FiniteLe-of_not_gt inf b ha hb h = cc
FiniteLe-of_not_gt neg_inf b ha hb h = cc

-- On these values `==` is equality.
pub eq_sound : (a b : Float) → eq a b ≡ true → a ≡ b
eq_sound (fin a) (fin b) h = ap fin (eq_of_parts a b (ground arith))
eq_sound (fin a) nan h = cc
eq_sound (fin a) inf h = cc
eq_sound (fin a) neg_inf h = cc
eq_sound inf inf h = refl
eq_sound inf (fin b) h = cc
eq_sound inf nan h = cc
eq_sound inf neg_inf h = cc
eq_sound neg_inf neg_inf h = refl
eq_sound neg_inf (fin b) h = cc
eq_sound neg_inf nan h = cc
eq_sound neg_inf inf h = cc
eq_sound nan b h = cc
