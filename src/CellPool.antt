-- ===== src/CellPool.antt =====
-- forth_cell_pool.c and forth_cell_pool.h: a pool of 256 cells of 32 bits in the fast SRAM, with a
-- bitmap of the cells in use that is kept outside the bus.
pub mod Bits
pub mod Scan
pub mod State
pub mod Alloc
pub mod Free
pub mod Roundtrip
use Prim.Native.Nat.{bit_and, bit_or}
use u_forth.Prelude.{
  ℕ, zero, suc, ◌+◌, ◌-◌, ◌*◌, ◌/◌, ◌%◌, ◌^◌, Bool, ◌||◌, Option, none, some, ltb, leb, ◌==◌,
  if◌then◌else◌, update,
}
use u_forth.Bus.{fast_sram_base}
use u_forth.Machine.{
  Cells, Machine, Action, ok, pure, branch, ◌>>=◌, ◌>>◌, hw_write32, forth_push, forth_pop,
}

-- CELL_POOL_COUNT, CELL_SIZE, CELL_POOL_SIZE, CELL_BITMAP_SIZE, CELL_BITMAP_BASE, CELL_DATA_BASE
abbrev pub cell_pool_count : ℕ
cell_pool_count = 256

abbrev pub cell_size : ℕ
cell_size = 4

abbrev pub cell_pool_size : ℕ
cell_pool_size = cell_pool_count * cell_size

abbrev pub cell_bitmap_size : ℕ
cell_bitmap_size = cell_pool_count / 8

abbrev pub cell_bitmap_base : ℕ
cell_bitmap_base = fast_sram_base + 0x0800

abbrev pub cell_data_base : ℕ
cell_data_base = cell_bitmap_base + cell_bitmap_size

-- `(byte & (1 << bit)) == 0`, `byte | (1 << bit)`, and `byte & ~(1 << bit)` in eight bits
unfoldable pub is_free_bit : ℕ → ℕ → Bool
is_free_bit byte bit = bit_and byte (2 ^ bit) == 0

unfoldable pub set_bit : ℕ → ℕ → ℕ
set_bit byte bit = bit_or byte (2 ^ bit)

unfoldable pub clear_bit : ℕ → ℕ → ℕ
clear_bit byte bit = bit_and byte (255 - 2 ^ bit)

-- The loop of `cell_pool_init`, of which this is the result at all 32 indices.
unfoldable pub cell_pool_init : Action (Unit {0})
cell_pool_init m =
    ok tt (record m { cells = record { cell_bitmap = λ _. 0; cell_allocated_count = 0 } })

-- The inner loop from `bit_idx` on, with `left` rounds to go.
unfoldable pub find_free_bit : ℕ → ℕ → ℕ → Option ℕ
find_free_bit zero bit_idx byte = none
find_free_bit (suc left) bit_idx byte =
    if is_free_bit byte bit_idx then some bit_idx else find_free_bit left (bit_idx + 1) byte

-- The outer loop from `byte_idx` on: where the first free bit stands.
unfoldable pub find_free_cell : ℕ → ℕ → (ℕ → ℕ) → Option (ℕ × ℕ)
find_free_cell zero byte_idx bitmap = none
find_free_cell (suc left) byte_idx bitmap =
    let rest = find_free_cell left (byte_idx + 1) bitmap in
    if bitmap byte_idx == 0xFF then rest else elim (find_free_bit 8 0 (bitmap byte_idx)) [
      | none ↦ rest
      | some bit_idx ↦ some (byte_idx, bit_idx)
    ]

-- The body of the loops where they have found a free bit.
unfoldable pub take_cell : ℕ → ℕ → Action (Unit {0})
take_cell byte_idx bit_idx m =
    let c = m.cells in
    let c' : Cells = record {
      cell_bitmap = update c.cell_bitmap byte_idx (set_bit (c.cell_bitmap byte_idx) bit_idx);
      cell_allocated_count = (c.cell_allocated_count + 1) % 2 ^ 32;
    } in
    let cell_idx = byte_idx * 8 + bit_idx in
    let cell_addr = cell_data_base + cell_idx * cell_size in
    (hw_write32 cell_addr 0 >> forth_push cell_addr) (record m { cells = c' })

unfoldable pub forth_cmd_fast_cell : Action (Unit {0})
forth_cmd_fast_cell m = elim (find_free_cell cell_bitmap_size 0 m.cells.cell_bitmap) [
  | none ↦ forth_push 0 m
  | some (byte_idx, bit_idx) ↦ take_cell byte_idx bit_idx m
]

-- The cell of a bit that is set, given back.
unfoldable pub clear_cell : ℕ → ℕ → ℕ → Action (Unit {0})
clear_cell addr byte_idx bit_idx m =
    let c = m.cells in
    let n = c.cell_allocated_count in
    let c' : Cells = record {
      cell_bitmap = update c.cell_bitmap byte_idx (clear_bit (c.cell_bitmap byte_idx) bit_idx);
      cell_allocated_count = if ltb 0 n then n - 1 else n;
    } in
    hw_write32 addr 0 (record m { cells = c' })

-- `forth_cmd_fast_cell_free` behind its `forth_pop`.
unfoldable pub free_cell_at : ℕ → Action (Unit {0})
free_cell_at addr m =
    if ltb addr cell_data_base || leb (cell_data_base + cell_pool_size) addr
    then ok tt m
    else (let offset = addr - cell_data_base in
        let cell_idx = offset / cell_size in
        let byte_idx = cell_idx / 8 in
        let bit_idx = cell_idx % 8 in
        if is_free_bit (m.cells.cell_bitmap byte_idx) bit_idx
        then ok tt m
        else clear_cell addr byte_idx bit_idx m)

unfoldable pub forth_cmd_fast_cell_free : Action (Unit {0})
forth_cmd_fast_cell_free = do addr ← forth_pop; free_cell_at addr

-- `debug_get_cell_bitmap_byte` and `debug_get_cell_allocated_count`
unfoldable pub debug_get_cell_bitmap_byte : Cells → ℕ → ℕ
debug_get_cell_bitmap_byte c byte_idx =
    if ltb byte_idx cell_bitmap_size then c.cell_bitmap byte_idx else 0

unfoldable pub debug_get_cell_allocated_count : Cells → ℕ
debug_get_cell_allocated_count c = c.cell_allocated_count
