-- ===== src/Base/Bits.antt =====
-- Exclusive or at variables, from the digit recursion that the native operation stands for, and
-- checks of all values below a bound.
use Prim.Native.Nat.{bit_xor, digits, differ, bit_xor-bitwise}
use mathlib.Core.Path.{ap₂, ◌≡⟨◌⟩◌, ◌∎}
use native.Mathlib.Nat.{pow-suc}
use robotic_character_interf.Base.{
  ℕ, zero, suc, ◌+◌, ◌*◌, ◌/◌, ◌%◌, ◌^◌, ◌≤◌, ◌<◌, ◌≡◌, refl, ap, Bool, true, ◌&&◌, arith,
}

unfoldable pub all_below : ℕ → (ℕ → Bool) → Bool
all_below zero p = true
all_below (suc n) p = p n && all_below n p

pub all_below_lem : (n : ℕ) (p : ℕ → Bool) (x : ℕ) → all_below n p ≡ true → x < n → p x ≡ true
unfolding all_below
all_below_lem zero p x h lt = absurd (omega arith)
all_below_lem (suc n) p x h lt = ground (arith, all_below_lem n p x)

-- Any number of digits to go that is large enough gives the same exclusive or.
enough_digits :
    (n m a b : ℕ) → a ≤ n → a ≤ m → digits (λ z. z) differ n a b ≡ digits (λ z. z) differ m a b
enough_digits zero zero a b p q = refl
enough_digits zero (suc m) zero b p q = refl
enough_digits zero (suc m) (suc a) b p q = absurd (omega arith)
enough_digits (suc n) zero zero b p q = refl
enough_digits (suc n) zero (suc a) b p q = absurd (omega arith)
enough_digits (suc n) (suc m) zero b p q = refl
enough_digits (suc n) (suc m) (suc a) b p q =
    ap (λ t. t * 2 + differ (suc a % 2) (b % 2))
      (enough_digits n m (suc a / 2) (b / 2) (omega arith) (omega arith))

zero-bit_xor : (b : ℕ) → bit_xor 0 b ≡ b
zero-bit_xor b = bit_xor-bitwise 0 b

-- The lowest digit of an exclusive or, and the others.
bit_xor_digit : (a b : ℕ) → bit_xor a b ≡ bit_xor (a / 2) (b / 2) * 2 + differ (a % 2) (b % 2)
bit_xor_digit zero b = omega (arith, zero-bit_xor b, zero-bit_xor (b / 2))
bit_xor_digit (suc a) b = omega (
  arith,
  bit_xor-bitwise (suc a) b,
  bit_xor-bitwise (suc a / 2) (b / 2),
  enough_digits a (suc a / 2) (suc a / 2) (b / 2) (omega arith) (omega arith),
)

differ_digits : (d e : ℕ) → d < 2 → e < 2 → (differ d e < 2) × (differ (differ d e) e ≡ d)
differ_digits zero zero p q = (omega arith, refl)
differ_digits zero (suc zero) p q = (omega arith, refl)
differ_digits zero (suc (suc e)) p q = absurd (omega arith)
differ_digits (suc zero) zero p q = (omega arith, refl)
differ_digits (suc zero) (suc zero) p q = (omega arith, refl)
differ_digits (suc zero) (suc (suc e)) p q = absurd (omega arith)
differ_digits (suc (suc d)) e p q = absurd (omega arith)

-- Digit by digit, an exclusive or with the same number twice changes nothing.
cancel_below : (n a b : ℕ) → a ≤ n → b ≤ n → bit_xor (bit_xor a b) b ≡ a
cancel_below zero zero zero p q = refl
cancel_below zero zero (suc b) p q = absurd (omega arith)
cancel_below zero (suc a) b p q = absurd (omega arith)
cancel_below (suc n) a b p q =
    let x = bit_xor (a / 2) (b / 2) in
    let d = differ (a % 2) (b % 2) in
    let (small, back) = differ_digits (a % 2) (b % 2) (omega arith) (omega arith) in
    let low : (x * 2 + d) % 2 ≡ d = omega arith in
    let high : (x * 2 + d) / 2 ≡ x = omega arith in
    bit_xor (bit_xor a b) b
    ≡⟨ ap (λ t. bit_xor t b) (bit_xor_digit a b) ⟩ bit_xor (x * 2 + d) b
    ≡⟨ bit_xor_digit (x * 2 + d) b ⟩
      bit_xor ((x * 2 + d) / 2) (b / 2) * 2 + differ ((x * 2 + d) % 2) (b % 2)
    ≡⟨ ap₂ (λ u v. bit_xor u (b / 2) * 2 + differ v (b % 2)) high low ⟩
      bit_xor x (b / 2) * 2 + differ d (b % 2)
    ≡⟨ omega (arith, cancel_below n (a / 2) (b / 2) (omega arith) (omega arith), back) ⟩ a ∎

pub bit_xor_cancel : (a b : ℕ) → bit_xor (bit_xor a b) b ≡ a
bit_xor_cancel a b = cancel_below (a + b) a b (omega arith) (omega arith)

bit_xor-lt_below : (k a b : ℕ) → a < 2 ^ k → b < 2 ^ k → bit_xor a b < 2 ^ k
bit_xor-lt_below zero zero zero p q = omega arith
bit_xor-lt_below zero zero (suc b) p q = absurd (omega arith)
bit_xor-lt_below zero (suc a) b p q = absurd (omega arith)
bit_xor-lt_below (suc k) a b p q =
    let (small, _) = differ_digits (a % 2) (b % 2) (omega arith) (omega arith) in
    omega (
      arith,
      bit_xor_digit a b,
      bit_xor-lt_below k (a / 2) (b / 2) (omega (arith, pow-suc 2 k)) (omega (arith, pow-suc 2 k)),
      pow-suc 2 k,
    )

-- An exclusive or of two numbers of 16 bits has 16 bits.
pub bit_xor-lt : (a b : ℕ) → a < 65536 → b < 65536 → bit_xor a b < 65536
bit_xor-lt a b p q = bit_xor-lt_below 16 a b p q

differ_comm : (d e : ℕ) → d < 2 → e < 2 → differ d e ≡ differ e d
differ_comm zero zero p q = refl
differ_comm zero (suc zero) p q = refl
differ_comm zero (suc (suc e)) p q = absurd (omega arith)
differ_comm (suc zero) zero p q = refl
differ_comm (suc zero) (suc zero) p q = refl
differ_comm (suc zero) (suc (suc e)) p q = absurd (omega arith)
differ_comm (suc (suc d)) e p q = absurd (omega arith)

comm_below : (n a b : ℕ) → a ≤ n → b ≤ n → bit_xor a b ≡ bit_xor b a
comm_below zero zero zero p q = refl
comm_below zero zero (suc b) p q = absurd (omega arith)
comm_below zero (suc a) b p q = absurd (omega arith)
comm_below (suc n) a b p q = omega (
  arith,
  bit_xor_digit a b,
  bit_xor_digit b a,
  comm_below n (a / 2) (b / 2) (omega arith) (omega arith),
  differ_comm (a % 2) (b % 2) (omega arith) (omega arith),
)

pub bit_xor_comm : (a b : ℕ) → bit_xor a b ≡ bit_xor b a
bit_xor_comm a b = comm_below (a + b) a b (omega arith) (omega arith)
