-- ===== src/CellPool/Free.antt =====
-- `forth_cmd_fast_cell_free` gives a cell back, once.
use u_forth.Prelude.{
  ℕ, ◌+◌, ◌-◌, ◌*◌, ◌/◌, ◌%◌, ◌≤◌, ◌<◌, ◌≡◌, ◌≢◌, ◌⊎◌, refl, ◌∙◌, inl, inr, true, false, ◌||◌, some,
  arith, lt→ltb, ltb, leb, ◌==◌, if◌then◌else◌, update,
}
use u_forth.Bus.Access.{is_word, load, store}
use u_forth.Bus.Words.{load-store_self, load-store_ne}
use u_forth.Vm
use u_forth.Vm.{Vm}
use u_forth.Machine.{Machine, ok, stop, Stop, ◌>>=◌}
use u_forth.Machine.Laws.{with_vm, pop_at, write32_at, write32_out}
use u_forth.CellPool.{
  cell_data_base, cell_pool_size, cell_size, clear_bit, clear_cell, free_cell_at,
  forth_cmd_fast_cell_free,
}
use u_forth.CellPool.Scan.{is_free_cell}
use u_forth.CellPool.State.{IsValid, count_used-put, is_free_cell-clear, bytes-clear}
use u_forth.CellPool.Alloc.{cell_addr, cell_addr-is_word}

-- `m'` is `m` after cell `k` was given back.
pub record Gives (m : Machine) (k : ℕ) (m' : Machine) : Type 0 where
  pub valid : IsValid m'.cells
  pub given :
      (j : ℕ) → is_free_cell m'.cells.cell_bitmap j ≡ (j == k || is_free_cell m.cells.cell_bitmap j)
  pub counted : m'.cells.cell_allocated_count + 1 ≡ m.cells.cell_allocated_count
  pub zeroed : load m'.bus (cell_addr k) ≡ 0
  pub spared : (a : ℕ) → is_word a ≡ true → a ≢ cell_addr k → load m'.bus a ≡ load m.bus a
  pub same_vm : m'.current_forth_vm ≡ m.current_forth_vm

module _ (m : Machine) where
  -- The address of a cell leads back to its bit.
  free_cell_at-cell :
      (k : ℕ)
      → k < 256
      → is_free_cell m.cells.cell_bitmap k ≡ false
      → free_cell_at (cell_addr k) m ≡ clear_cell (cell_addr k) (k / 8) (k % 8) m
  unfolding free_cell_at
  free_cell_at-cell k lt used =
      let e : (cell_addr k - cell_data_base) / cell_size ≡ k = omega arith in
      let inside : (ltb (cell_addr k) cell_data_base
            || leb (cell_data_base + cell_pool_size) (cell_addr k))
          ≡ false =
        ground arith in
      rw (inside, e, used)

  module _ (inv : IsValid m.cells) where
    after_clear : ℕ → ℕ → ℕ → Machine
    after_clear a i b = record m {
      cells = record {
        cell_bitmap = update m.cells.cell_bitmap i (clear_bit (m.cells.cell_bitmap i) b);
        cell_allocated_count =
            if ltb 0 m.cells.cell_allocated_count
            then m.cells.cell_allocated_count - 1
            else m.cells.cell_allocated_count;
      };
      bus = store m.bus a 0;
    }

    clear_cell-run : (a i b : ℕ) → is_word a ≡ true → clear_cell a i b m ≡ ok tt (after_clear a i b)
    unfolding clear_cell after_clear
    clear_cell-run a i b w = write32_at a _ 0 w

    clear_cell-Gives :
        (k : ℕ)
        → k < 256
        → is_free_cell m.cells.cell_bitmap k ≡ false
        → Gives m k (after_clear (cell_addr k) (k / 8) (k % 8))
    unfolding after_clear
    clear_cell-Gives k lt used =
        let i = k / 8 in
        let b = k % 8 in
        let bitmap = m.cells.cell_bitmap in
        let bitmap' = update bitmap i (clear_bit (bitmap i) b) in
        let h : b < 8 = omega arith in
        let e : i * 8 + b ≡ k = omega arith in
        let given = λ (j : ℕ). rw e at (is_free_cell-clear bitmap inv.bytes i b h j) in
        let count = count_used-put k (is_free_cell bitmap) (is_free_cell bitmap') given used 256 in
        record {
          valid = record {
            bytes = bytes-clear bitmap inv.bytes i b h;
            counted = ground (arith, inv.counted, count);
          };
          given = given;
          counted = ground (arith, inv.counted, count);
          zeroed = load-store_self m.bus (cell_addr k) 0 (omega arith);
          spared = λ a w ne. load-store_ne m.bus (cell_addr k) a 0 (cell_addr-is_word k lt) w ne;
          same_vm = refl;
        }

    -- The address of a cell in use, given to `FAST-CELL-FREE`, frees that cell and no other: the
    -- counter goes down by one, the cell is cleared and no other word is written, and the invariant
    -- is kept.
    pub free_cell_at-Gives :
        (k : ℕ)
        → k < 256
        → is_free_cell m.cells.cell_bitmap k ≡ false
        → (m' : Machine) × (free_cell_at (cell_addr k) m ≡ ok tt m') × Gives m k m'
    free_cell_at-Gives k lt used = (
      after_clear (cell_addr k) (k / 8) (k % 8),
      free_cell_at-cell k lt used
          ∙ clear_cell-run (cell_addr k) (k / 8) (k % 8) (cell_addr-is_word k lt),
      clear_cell-Gives k lt used,
    )

  -- `FAST-CELL-FREE` ignores an address outside the pool, and an address of a cell that is free.
  free_cell_at-ignored :
      (a : ℕ)
      → (a < cell_data_base)
        ⊎ (cell_data_base + cell_pool_size ≤ a)
        ⊎ (is_free_cell m.cells.cell_bitmap ((a - cell_data_base) / cell_size) ≡ true)
      → free_cell_at a m ≡ ok tt m
  unfolding free_cell_at
  free_cell_at-ignored a (inl low) = rw (free_cell_at, lt→ltb a cell_data_base low)
  free_cell_at-ignored a (inr (inl high)) = ground arith
  free_cell_at-ignored a (inr (inr free)) = rw (free_cell_at, free) (ground arith)

  -- An address inside the pool that is no multiple of four passes the checks when its cell is in use,
  -- and ends the program at the write.
  free_cell_at-misaligned :
      (a : ℕ)
      → cell_data_base ≤ a
      → a < cell_data_base + cell_pool_size
      → a % 4 ≢ 0
      → is_free_cell m.cells.cell_bitmap ((a - cell_data_base) / cell_size) ≡ false
      → free_cell_at a m ≡ stop Stop.bus_fault
  unfolding free_cell_at clear_cell
  free_cell_at-misaligned a l h odd used =
      let inside : (ltb a cell_data_base || leb (cell_data_base + cell_pool_size) a) ≡ false =
        ground arith in
      rw (inside, used) (write32_out a _ 0 (ground arith))

pub fast_cell_free-pop :
    (m : Machine) {v : Vm}
    → m.current_forth_vm ≡ some v
    → forth_cmd_fast_cell_free m ≡ free_cell_at (Vm.pop v).0 (with_vm m (Vm.pop v).1)
unfolding forth_cmd_fast_cell_free
fast_cell_free-pop m e = rw (forth_cmd_fast_cell_free, ◌>>=◌, pop_at m e)
