-- ===== src/Words/Shift.antt =====
-- The arithmetic shift to the right, as a division of integers.
use u_forth.Prelude.{
  ℕ, ◌-◌, ◌/◌, ◌^◌, ◌≡◌, ◌<◌, ◌≤◌, ltb, leb, if◌then◌else◌, arith, ◌∙◌, ap, Bool-cases, inl, inr,
}
use u_forth.Prelude.Int.{ℤ, pos, negsuc}
use u_forth.Words.Arith.{signed32, signed_val, arshift, shift_signed}

-- The quotient by `2 ^ k`, rounded down.
pub shift_ℤ : ℤ → ℕ → ℤ
shift_ℤ (pos n) k = pos (n / 2 ^ k)
shift_ℤ (negsuc n) k = negsuc (n / 2 ^ k)

-- The integer that ARSHIFT takes a word for: a byte, a 16-bit word or a 32-bit word, signed.
pub narrow : ℕ → ℤ
narrow val =
    if ltb val 0x100
    then if ltb val 0x80 then pos val else negsuc (0xFF - val)
    else if ltb val 0x10000
    then if ltb val 0x8000 then pos val else negsuc (0xFFFF - val)
    else signed32 val

div-le : (n d : ℕ) → n / d ≤ n
div-le n d = omega arith

shift_signed-shift_ℤ : (w k : ℕ) → w < 2 ^ 32 → signed32 (shift_signed w k) ≡ shift_ℤ (signed32 w) k
unfolding shift_ℤ
shift_signed-shift_ℤ w k h = ground (arith, div-le w (2 ^ k), div-le (0xFFFFFFFF - w) (2 ^ k))

signed_val-narrow : (val : ℕ) → val < 2 ^ 32 → signed32 (signed_val val) ≡ narrow val
unfolding signed_val narrow
signed_val-narrow val h = ground arith

signed_val-lt : (val : ℕ) → val < 2 ^ 32 → signed_val val < 2 ^ 32
unfolding signed_val
signed_val-lt val h = ground arith

-- For a count below 32 the result of ARSHIFT, as a signed number, is the operand's quotient by
-- `2 ^ k`, rounded down, where a value that fits a byte or a 16-bit word is taken for a signed one.
pub arshift-shift_ℤ :
    (val k : ℕ) → val < 2 ^ 32 → k < 32 → signed32 (arshift val k) ≡ shift_ℤ (narrow val) k
unfolding arshift
arshift-shift_ℤ val k h lt = elim (Bool-cases (leb 32 k)) [
  | inl e ↦ absurd (ground arith)
  | inr e ↦
      rw (arshift, e)
        (shift_signed-shift_ℤ (signed_val val) k (signed_val-lt val h)
          ∙ ap (λ z. shift_ℤ z k) (signed_val-narrow val h))
]

-- A byte with bit 7 set is negative for ARSHIFT up to a count of 31, and positive from 32 on.
arshift_byte_jump :
    (val k : ℕ)
    → 0x80 ≤ val
    → val < 0x100
    → 32 ≤ k
    → (arshift val 31 ≡ 0xFFFFFFFF) × (arshift val k ≡ 0)
unfolding arshift signed_val
arshift_byte_jump val k l h far = ground arith
