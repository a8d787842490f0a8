-- ===== src/CellPool/Alloc.antt =====
-- `forth_cmd_fast_cell` takes the lowest free cell.
use u_forth.Prelude.{
  ℕ, ◌+◌, ◌*◌, ◌%◌, ◌^◌, ◌<◌, ◌≡◌, ◌≢◌, refl, ◌∙◌, sym, inl, inr, true, false, false≢true, subst,
  not, ◌&&◌, Option, none, some, arith, ltb, ◌==◌, Bool-cases, update,
}
use u_forth.Bus.Access.{is_word, load, store}
use u_forth.Bus.Words.{load-store_self, load-store_ne}
use u_forth.Vm
use u_forth.Vm.{Vm}
use u_forth.Machine.{Machine, Cells, ok, ◌>>◌, ◌>>=◌}
use u_forth.Machine.Laws.{with_vm, with_bus, push_at, write32_at}
use u_forth.CellPool.{
  cell_data_base, cell_size, set_bit, find_free_cell, take_cell, forth_cmd_fast_cell,
}
use u_forth.CellPool.Scan.{is_free_cell, FirstFree, cell_at, IsPosition, find_free_cell-FirstFree}
use u_forth.CellPool.State.{IsValid, count_used-le, count_used-take, is_free_cell-set, bytes-set}

-- The address of cell `k`.
abbrev pub cell_addr : ℕ → ℕ
cell_addr k = cell_data_base + k * cell_size

pub cell_addr-is_word : (k : ℕ) → k < 256 → is_word (cell_addr k) ≡ true
cell_addr-is_word k h = ground arith

-- `m'` is `m` after cell `k` was taken, with `v` the context of `m`.
pub record Takes (m : Machine) (v : Vm) (k : ℕ) (m' : Machine) : Type 0 where
  pub valid : IsValid m'.cells
  pub taken :
      (j : ℕ)
      → is_free_cell m'.cells.cell_bitmap j ≡ (not (j == k) && is_free_cell m.cells.cell_bitmap j)
  pub counted : m'.cells.cell_allocated_count ≡ m.cells.cell_allocated_count + 1
  pub zeroed : load m'.bus (cell_addr k) ≡ 0
  pub spared : (a : ℕ) → is_word a ≡ true → a ≢ cell_addr k → load m'.bus a ≡ load m.bus a
  pub pushed : m'.current_forth_vm ≡ some (Vm.push (cell_addr k) v)

module _ (m : Machine) (v : Vm) (inv : IsValid m.cells)
    (running : m.current_forth_vm ≡ some v) where
  taken_cells : ℕ → ℕ → Cells
  taken_cells i b = record {
    cell_bitmap = update m.cells.cell_bitmap i (set_bit (m.cells.cell_bitmap i) b);
    cell_allocated_count = (m.cells.cell_allocated_count + 1) % 2 ^ 32;
  }

  after_take : ℕ → ℕ → Machine
  after_take i b = record m {
    cells = taken_cells i b;
    bus = store m.bus (cell_addr (i * 8 + b)) 0;
    current_forth_vm = some (Vm.push (cell_addr (i * 8 + b)) v);
  }

  take_cell-run : (i b : ℕ) → i * 8 + b < 256 → take_cell i b m ≡ ok tt (after_take i b)
  unfolding take_cell after_take taken_cells
  take_cell-run i b lt =
      let m' : Machine = record m { cells = taken_cells i b } in
      let a = cell_addr (i * 8 + b) in
      rw (
        take_cell,
        ◌>>◌,
        ◌>>=◌,
        write32_at a m' 0 (cell_addr-is_word (i * 8 + b) lt),
        push_at (with_bus m' (store m.bus a 0)) running a,
      )

  take_cell-Takes :
      (i b : ℕ)
      → b < 8
      → i * 8 + b < 256
      → is_free_cell m.cells.cell_bitmap (i * 8 + b) ≡ true
      → Takes m v (i * 8 + b) (after_take i b)
  unfolding after_take taken_cells
  take_cell-Takes i b lt fit free =
      let bitmap = m.cells.cell_bitmap in
      let bitmap' = update bitmap i (set_bit (bitmap i) b) in
      let set = is_free_cell-set bitmap inv.bytes i b lt in
      let count =
        count_used-take (i * 8 + b) (is_free_cell bitmap) (is_free_cell bitmap') set free 256 in
      let most = count_used-le 256 (is_free_cell bitmap) in
      let most' = count_used-le 256 (is_free_cell bitmap') in
      record {
        valid = record {
          bytes = bytes-set bitmap inv.bytes i b lt;
          counted = ground (arith, inv.counted, count, most');
        };
        taken = set;
        counted = ground (arith, inv.counted, count, most);
        zeroed = load-store_self m.bus (cell_addr (i * 8 + b)) 0 (omega arith);
        spared = λ a w ne.
            load-store_ne m.bus (cell_addr (i * 8 + b)) a 0 (cell_addr-is_word (i * 8 + b) fit) w
              ne;
        pushed = refl;
      }

  -- While a cell is free, `FAST-CELL` takes the lowest free one: its bit is set and no other changes,
  -- the counter goes up by one, the cell is cleared and no other word is written, its address is
  -- pushed, and the invariant is kept.
  pub fast_cell-Takes :
      (k : ℕ)
      → k < 256
      → is_free_cell m.cells.cell_bitmap k ≡ true
      → ((j : ℕ) → j < k → is_free_cell m.cells.cell_bitmap j ≡ false)
      → (m' : Machine) × (forth_cmd_fast_cell m ≡ ok tt m') × Takes m v k m'
  unfolding forth_cmd_fast_cell
  fast_cell-Takes k lt free below =
      at_found (find_free_cell 32 0 m.cells.cell_bitmap) refl
        (find_free_cell-FirstFree m.cells.cell_bitmap 32 0 refl)
    where
      at_found :
          (o : Option (ℕ × ℕ))
          → find_free_cell 32 0 m.cells.cell_bitmap ≡ o
          → FirstFree (is_free_cell m.cells.cell_bitmap) 0 256 (cell_at o) × IsPosition o
          → (m' : Machine) × (forth_cmd_fast_cell m ≡ ok tt m') × Takes m v k m'
      at_found none e (f, p) = absurd (false≢true (sym (f k (omega arith) lt) ∙ free))
      at_found (some (i, b)) e ((l, h, y, first), p) =
          let same : i * 8 + b ≡ k = elim (Bool-cases (ltb (i * 8 + b) k)) [
            | inl lower ↦ absurd (false≢true (sym (below (i * 8 + b) (ground arith)) ∙ y))
            | inr not_lower ↦ elim (Bool-cases (ltb k (i * 8 + b))) [
              | inl higher ↦ absurd (false≢true (sym (first k (omega arith) (ground arith)) ∙ free))
              | inr not_higher ↦ ground arith
            ]
          ] in
          (
            after_take i b,
            rw (forth_cmd_fast_cell, e) (take_cell-run i b h),
            subst (λ n. Takes m v n (after_take i b)) same (take_cell-Takes i b p.1 h y),
          )

  -- With every cell in use, `FAST-CELL` pushes 0 and changes nothing else.
  fast_cell_full :
      ((j : ℕ) → j < 256 → is_free_cell m.cells.cell_bitmap j ≡ false)
      → forth_cmd_fast_cell m ≡ ok tt (with_vm m (Vm.push 0 v))
  unfolding forth_cmd_fast_cell
  fast_cell_full used =
      at_found (find_free_cell 32 0 m.cells.cell_bitmap) refl
        (find_free_cell-FirstFree m.cells.cell_bitmap 32 0 refl)
    where
      at_found :
          (o : Option (ℕ × ℕ))
          → find_free_cell 32 0 m.cells.cell_bitmap ≡ o
          → FirstFree (is_free_cell m.cells.cell_bitmap) 0 256 (cell_at o) × IsPosition o
          → forth_cmd_fast_cell m ≡ ok tt (with_vm m (Vm.push 0 v))
      at_found none e (f, p) = rw (forth_cmd_fast_cell, e) (push_at m running 0)
      at_found (some (i, b)) e ((l, h, y, first), p) =
          absurd (false≢true (sym (used (i * 8 + b) h) ∙ y))
