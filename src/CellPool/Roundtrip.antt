-- ===== src/CellPool/Roundtrip.antt =====
-- A cell that is taken can be given back.
use u_forth.Prelude.{ℕ, ◌<◌, ◌≡◌, ap, ◌∙◌, true, false, some, arith}
use u_forth.Vm
use u_forth.Vm.{Vm}
use u_forth.Vm.Refine.{HasRoom, view, pop-push}
use u_forth.Machine.{Machine, ok, ◌>>◌, ◌>>=◌}
use u_forth.Machine.Laws.{with_vm}
use u_forth.CellPool.{forth_cmd_fast_cell, forth_cmd_fast_cell_free}
use u_forth.CellPool.Scan.{is_free_cell}
use u_forth.CellPool.State.{IsValid}
use u_forth.CellPool.Alloc.{cell_addr, Takes, fast_cell-Takes}
use u_forth.CellPool.Free.{free_cell_at-Gives, fast_cell_free-pop}

-- `m'` has the free cells, the counter and the stacks of `m`, whose context is `v`.
pub record Restores (m : Machine) (v : Vm) (m' : Machine) : Type 0 where
  pub valid : IsValid m'.cells
  pub same_cells :
      (j : ℕ) → is_free_cell m'.cells.cell_bitmap j ≡ is_free_cell m.cells.cell_bitmap j
  pub same_count : m'.cells.cell_allocated_count ≡ m.cells.cell_allocated_count
  pub vm : Vm
  pub running : m'.current_forth_vm ≡ some vm
  pub same_stacks : view vm ≡ view v

module _ (m : Machine) (v : Vm) (k : ℕ) where
  give_back :
      {m₁ : Machine}
      → k < 256
      → is_free_cell m.cells.cell_bitmap k ≡ true
      → HasRoom v
      → Takes m v k m₁
      → (m' : Machine) × (forth_cmd_fast_cell_free m₁ ≡ ok tt m') × Restores m v m'
  give_back {m₁} lt free room t =
      let (popped, kept) = pop-push (cell_addr k) room in
      let m₂ = with_vm m₁ (Vm.pop (Vm.push (cell_addr k) v)).1 in
      let used = t.taken k in
      let (m', run, g) = free_cell_at-Gives m₂ t.valid k lt (ground arith) in
      (
        m',
        fast_cell_free-pop m₁ t.pushed ∙ (rw popped run),
        record {
          valid = g.valid;
          same_cells = λ j.
              ground (
                arith,
                g.given j,
                t.taken j,
                ap (is_free_cell m.cells.cell_bitmap) {x = j} {y = k},
              );
          same_count = ground (arith, g.counted, t.counted);
          vm = (Vm.pop (Vm.push (cell_addr k) v)).1;
          running = g.same_vm;
          same_stacks = kept;
        },
      )

  -- While a cell is free and the data stack has room, `FAST-CELL FAST-CELL-FREE` succeeds and leaves
  -- the free cells, the counter and both stacks as they were, and keeps the invariant.
  pub fast_cell-fast_cell_free :
      IsValid m.cells
      → m.current_forth_vm ≡ some v
      → HasRoom v
      → k < 256
      → is_free_cell m.cells.cell_bitmap k ≡ true
      → ((j : ℕ) → j < k → is_free_cell m.cells.cell_bitmap j ≡ false)
      → (m' : Machine) × ((forth_cmd_fast_cell >> forth_cmd_fast_cell_free) m ≡ ok tt m')
        × Restores m v m'
  fast_cell-fast_cell_free inv running room lt free below =
      let (m₁, run, t) = fast_cell-Takes m v inv running k lt free below in
      let (m', run', r) = give_back lt free room t in (m', rw (run, ◌>>◌, ◌>>=◌) run', r)
