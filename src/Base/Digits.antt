-- ===== src/Base/Digits.antt =====
-- The native bit operations satisfy one equation for the lowest binary digit.
use Prim.Native.Nat.{ℕ, zero, suc, ◌+◌, ◌*◌, ◌/◌, ◌%◌, ◌≤◌, bit_and, bit_or, min, max}
use Prim.Native.Nat.{digits, bit_and-bitwise, bit_or-bitwise}
use mathlib.Core.Path.{◌≡◌, refl, ap, ◌∙◌}
use native.Mathlib.Decide.{dec_le}
use native.Mathlib.Omega.{arith}

-- Fuel beyond the first argument does not change the digit recursion.
module _ (rest : ℕ → ℕ) (op : ℕ → ℕ → ℕ) where
  digits_more : (n a b : ℕ) → a ≤ n → digits rest op (suc n) a b ≡ digits rest op n a b
  digits_more zero zero b le = refl
  digits_more (suc n) zero b le = refl
  digits_more zero (suc a) b le = absurd (omega arith)
  digits_more (suc n) (suc a) b le =
      ap (λ t. t * 2 + op (suc a % 2) (b % 2)) (digits_more n (suc a / 2) (b / 2) (omega arith))

  digits_exact : (n a b : ℕ) → a ≤ n → digits rest op n a b ≡ digits rest op a a b
  digits_exact zero zero b le = refl
  digits_exact zero (suc a) b le = absurd (omega arith)
  digits_exact (suc n) a b le = elim (dec_le a n) [
    | yes below ↦ digits_more n a b below ∙ digits_exact n a b below
    | no above ↦ let top : suc n ≡ a = omega arith in ap (λ t. digits rest op t a b) top
  ]

  digits_halve :
      (a b : ℕ)
      → digits rest op (suc a) (suc a) b
        ≡ digits rest op (suc a / 2) (suc a / 2) (b / 2) * 2 + op (suc a % 2) (b % 2)
  digits_halve a b =
      ap (λ t. t * 2 + op (suc a % 2) (b % 2)) (digits_exact a (suc a / 2) (b / 2) (omega arith))

pub bit_and_halve : (a b : ℕ) → bit_and a b ≡ bit_and (a / 2) (b / 2) * 2 + min (a % 2) (b % 2)
bit_and_halve zero b = simp bit_and-bitwise (omega arith)
bit_and_halve (suc a) b = simp bit_and-bitwise (digits_halve (λ _. 0) min a b)

pub bit_or_halve : (a b : ℕ) → bit_or a b ≡ bit_or (a / 2) (b / 2) * 2 + max (a % 2) (b % 2)
bit_or_halve zero b = simp bit_or-bitwise (omega arith)
bit_or_halve (suc a) b = simp bit_or-bitwise (digits_halve (λ t. t) max a b)
