-- ===== src/CellPool/State.antt =====
-- The invariant of the pool, and what setting or clearing one bit does to the set of free cells.
use u_forth.Prelude.{
  ℕ, zero, suc, ◌+◌, ◌*◌, ◌/◌, ◌≤◌, ◌<◌, ◌≡◌, ◌∙◌, inl, inr, Bool, true, false, not, ◌&&◌, ◌||◌,
  arith, ltb, ◌==◌, if◌then◌else◌, Bool-cases, update,
}
use u_forth.Machine.{Cells}
use u_forth.CellPool.{set_bit, clear_bit}
use u_forth.CellPool.Bits.{is_free_bit-set_bit, is_free_bit-clear_bit, set_bit-lt, clear_bit-lt}
use u_forth.CellPool.Scan.{is_free_cell}

-- How many of the numbers below `n` are not free.
unfoldable pub count_used : ℕ → (ℕ → Bool) → ℕ
count_used zero free = 0
count_used (suc n) free = count_used n free + (if free n then 0 else 1)

pub count_used-le : (n : ℕ) (free : ℕ → Bool) → count_used n free ≤ n
unfolding count_used
count_used-le zero free = omega arith
count_used-le (suc n) free = ground (arith, count_used-le n free)

-- The bitmap holds bytes, and the counter is the number of cells in use.
pub record IsValid (c : Cells) : Type 0 where
  pub bytes : (i : ℕ) → c.cell_bitmap i < 256
  pub counted : c.cell_allocated_count ≡ count_used 256 (is_free_cell c.cell_bitmap)

-- One cell is taken out of the free ones.
pub count_used-take :
    (k : ℕ) (free free' : ℕ → Bool)
    → ((j : ℕ) → free' j ≡ (not (j == k) && free j))
    → free k ≡ true
    → (n : ℕ) → count_used n free' ≡ count_used n free + (if ltb k n then 1 else 0)
unfolding count_used
count_used-take k free free' h y zero = ground arith
count_used-take k free free' h y (suc n) = ground (arith, h n, count_used-take k free free' h y n)

-- One cell is put back among the free ones.
pub count_used-put :
    (k : ℕ) (free free' : ℕ → Bool)
    → ((j : ℕ) → free' j ≡ (j == k || free j))
    → free k ≡ false
    → (n : ℕ) → count_used n free' + (if ltb k n then 1 else 0) ≡ count_used n free
unfolding count_used
count_used-put k free free' h y zero = ground arith
count_used-put k free free' h y (suc n) = ground (arith, h n, count_used-put k free free' h y n)

module _ (bitmap : ℕ → ℕ) (bytes : (i : ℕ) → bitmap i < 256) (i b : ℕ) (lt : b < 8) where
  pub is_free_cell-set :
      (j : ℕ)
      → is_free_cell (update bitmap i (set_bit (bitmap i) b)) j
        ≡ (not (j == i * 8 + b) && is_free_cell bitmap j)
  is_free_cell-set j = elim (Bool-cases (j / 8 == i)) [
    | inl e ↦ rw e (is_free_bit-set_bit (bytes i) lt (omega arith) ∙ ground arith)
    | inr ne ↦ rw ne (ground arith)
  ]

  pub is_free_cell-clear :
      (j : ℕ)
      → is_free_cell (update bitmap i (clear_bit (bitmap i) b)) j
        ≡ (j == i * 8 + b || is_free_cell bitmap j)
  is_free_cell-clear j = elim (Bool-cases (j / 8 == i)) [
    | inl e ↦ rw e (is_free_bit-clear_bit (bytes i) lt (omega arith) ∙ ground arith)
    | inr ne ↦ rw ne (ground arith)
  ]

  pub bytes-set : (j : ℕ) → update bitmap i (set_bit (bitmap i) b) j < 256
  bytes-set j = ground (arith, bytes j, set_bit-lt (bytes i) lt)

  pub bytes-clear : (j : ℕ) → update bitmap i (clear_bit (bitmap i) b) j < 256
  bytes-clear j = ground (arith, bytes j, clear_bit-lt (bytes i) lt)
