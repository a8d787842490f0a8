-- ===== src/Widths/Bits.antt =====
-- The bit operations on two words give a word.
use Prim.Native.Nat.{
  min, max, differ, digits, bit_and, bit_or, bit_xor, bit_and-bitwise, bit_or-bitwise,
  bit_xor-bitwise,
}
use u_forth.Prelude.{ℕ, zero, suc, ◌/◌, ◌%◌, ◌^◌, ◌≤◌, ◌<◌, arith}
use u_forth.Widths.{IsWord}

-- An operation on digits that keeps them digits, and gives no more than the second number once the
-- first has run out.
module _ (z : ℕ → ℕ) (f : ℕ → ℕ → ℕ) (rest-le : (b : ℕ) → z b ≤ b)
    (digit-le : (x y : ℕ) → x ≤ 1 → y ≤ 1 → f x y ≤ 1) where
  digits-lt : (n k a b : ℕ) → a < 2 ^ k → b < 2 ^ k → digits z f n a b < 2 ^ k
  digits-lt zero k a b p q = omega (arith, rest-le b)
  digits-lt (suc n) k zero b p q = omega (arith, rest-le b)
  digits-lt (suc n) zero (suc a) b p q = absurd (omega arith)
  digits-lt (suc n) (suc k) (suc a) b p q = omega (
    arith,
    digits-lt n k (suc a / 2) (b / 2) (omega arith) (omega arith),
    digit-le (suc a % 2) (b % 2) (omega arith) (omega arith),
  )

min-digit : (x y : ℕ) → x ≤ 1 → y ≤ 1 → min x y ≤ 1
min-digit x y p q = omega arith

max-digit : (x y : ℕ) → x ≤ 1 → y ≤ 1 → max x y ≤ 1
max-digit x y p q = omega arith

differ-digit : (x y : ℕ) → x ≤ 1 → y ≤ 1 → differ x y ≤ 1
differ-digit zero y p q = q
differ-digit (suc x) zero p q = p
differ-digit (suc zero) (suc zero) p q = omega arith
differ-digit (suc zero) (suc (suc y)) p q = absurd (omega arith)
differ-digit (suc (suc x)) (suc y) p q = absurd (omega arith)

pub bit_and-IsWord : (a b : ℕ) → IsWord a → IsWord b → IsWord (bit_and a b)
unfolding IsWord
bit_and-IsWord a b p q =
    rw (bit_and-bitwise a b) (digits-lt (λ _. 0) min (λ b. omega arith) min-digit a 32 a b p q)

pub bit_or-IsWord : (a b : ℕ) → IsWord a → IsWord b → IsWord (bit_or a b)
unfolding IsWord
bit_or-IsWord a b p q =
    rw (bit_or-bitwise a b) (digits-lt (λ b. b) max (λ b. omega arith) max-digit a 32 a b p q)

pub bit_xor-IsWord : (a b : ℕ) → IsWord a → IsWord b → IsWord (bit_xor a b)
unfolding IsWord
bit_xor-IsWord a b p q =
    rw (bit_xor-bitwise a b)
      (digits-lt (λ b. b) differ (λ b. omega arith) differ-digit a 32 a b p q)
