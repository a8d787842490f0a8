-- ===== src/Debug.antt =====
-- forth_debug.c: the rows of the two exports, as the values that are printed, and MEM-DUMP of
-- forth_dict.c. The walks along the free chunks, the heap and the dictionary take fuel.
pub mod Chunks
pub mod Bytes
pub mod Header
use u_forth.Prelude.{
  ℕ, zero, suc, ◌+◌, ◌-◌, ◌*◌, ◌/◌, ◌%◌, ◌^◌, Bool, true, false, not, ltb, leb, ◌==◌, if◌then◌else◌,
  List, [], ◌∷◌,
}
use u_forth.Vm.{Vm, ForthState}
use u_forth.Machine.{
  Action, Machine, Stop, ok, pure, fail, branch, ◌>>=◌, ◌>>◌, get_vm, hw_read8, hw_read32,
}
use u_forth.Words.Arith.{add32}
use u_forth.CellPool.{
  cell_pool_count, cell_data_base, cell_size, is_free_bit, debug_get_cell_bitmap_byte,
}
use u_forth.ChunkPool.{chunk_count, chunk_pool_base, chunk_size, debug_get_chunk_free_head}
use u_forth.Heap.{heap_base_addr, size_of, is_busy}

-- So many bytes from `addr` on.
unfoldable pub read_bytes : ℕ → ℕ → Action (List ℕ)
read_bytes zero addr = pure []
read_bytes (suc left) addr = do
  c ← hw_read8 addr
  rest ← read_bytes left (addr + 1)
  pure (c ∷ rest)

pub record CellRow : Type 0 where
  pub cell_idx : ℕ
  pub cell_addr : ℕ
  is_allocated : Bool
  pub content : ℕ
  pub bytes : List ℕ

-- The two loops over the bitmap, from cell `cell_idx` on.
unfoldable pub cell_rows : ℕ → ℕ → Action (List CellRow)
cell_rows zero cell_idx m = ok [] m
cell_rows (suc left) cell_idx m =
    (do
      let bitmap_byte = debug_get_cell_bitmap_byte m.cells (cell_idx / 8)
      let cell_addr = cell_data_base + cell_idx * cell_size
      content ← hw_read32 cell_addr
      bytes ← read_bytes 4 cell_addr
      rest ← cell_rows left (cell_idx + 1)
      pure (
          record {
            cell_idx = cell_idx;
            cell_addr = cell_addr;
            is_allocated = not (is_free_bit bitmap_byte (cell_idx % 8));
            content = content;
            bytes = bytes;
          }
          ∷ rest))
      m

-- The walk along the free list that looks for a chunk.
unfoldable pub is_in_chain : ℕ → ℕ → ℕ → Action Bool
is_in_chain zero chunk_addr curr = fail Stop.out_of_fuel
is_in_chain (suc fuel) chunk_addr curr = branch (curr == 0) (pure false) (
    branch (curr == chunk_addr) (pure true)
      (do next ← hw_read32 curr; is_in_chain fuel chunk_addr next))

pub record ChunkRow : Type 0 where
  pub chunk_addr : ℕ
  pub is_free : Bool
  pub bytes : List ℕ

-- The loop over the chunks, from chunk `i` on. A free chunk's first word is read once more.
unfoldable pub chunk_rows : ℕ → ℕ → ℕ → Action (List ChunkRow)
chunk_rows fuel zero i m = ok [] m
chunk_rows fuel (suc left) i m =
    (do
      let chunk_addr = chunk_pool_base + i * chunk_size
      is_free ← is_in_chain fuel chunk_addr (debug_get_chunk_free_head m.chunks)
      branch is_free (do hw_read32 chunk_addr >>= λ _. pure tt) (pure tt)
      bytes ← read_bytes 16 chunk_addr
      rest ← chunk_rows fuel left (i + 1)
      pure (record { chunk_addr = chunk_addr; is_free = is_free; bytes = bytes } ∷ rest))
      m

pub record HeapRow : Type 0 where
  pub heap_curr : ℕ
  pub busy : Bool
  pub block_size : ℕ
  pub next_block : ℕ
  pub payload : ℕ

unfoldable pub heap_rows : ℕ → ℕ → Action (List HeapRow)
heap_rows zero heap_curr = fail Stop.out_of_fuel
heap_rows (suc fuel) heap_curr = branch (heap_curr == 0) (pure []) (do
  size_flags ← hw_read32 heap_curr
  next_block ← hw_read32 (add32 heap_curr 4)
  p_val ← branch (is_busy size_flags) (hw_read32 (add32 heap_curr 8)) (pure 0)
  rest ← heap_rows fuel next_block
  pure (
      record {
        heap_curr = heap_curr;
        busy = is_busy size_flags;
        block_size = size_of size_flags;
        next_block = next_block;
        payload = p_val;
      }
      ∷ rest))

unfoldable pub forth_export_memory_csv : ℕ → Action (List CellRow × List ChunkRow × List HeapRow)
forth_export_memory_csv fuel = do
  cells ← cell_rows cell_pool_count 0
  chunks ← chunk_rows fuel chunk_count 0
  blocks ← heap_rows fuel heap_base_addr
  pure (cells, chunks, blocks)

unfoldable pub forth_cmd_mem_dump : ℕ → Action (Unit {0})
forth_cmd_mem_dump fuel = forth_export_memory_csv fuel >>= λ _. pure tt

-- A row of a stack: index, value, and whether it is the top.
unfoldable pub stack_rows : (ℕ → ℕ) → ℕ → ℕ → ℕ → List (ℕ × ℕ × Bool)
stack_rows stack depth zero i = []
stack_rows stack depth (suc left) i =
    (i, stack i, i == depth - 1) ∷ stack_rows stack depth left (i + 1)

pub record WordRow : Type 0 where
  pub curr_word : ℕ
  pub prev_word_ptr : ℕ
  pub flags_len : ℕ
  pub is_immediate : Bool
  pub name : List ℕ
  pub body_addr : ℕ
  pub body : List ℕ

-- One entry of the dictionary: `flags_len & 0x1F` is the length, the highest bit the flag.
unfoldable pub word_row : ℕ → Action WordRow
word_row curr_word = do
  prev_word_ptr ← hw_read32 curr_word
  flags_len ← hw_read8 (add32 curr_word 4)
  let word_len = flags_len % 32
  name ← read_bytes word_len (add32 curr_word 5)
  let body_addr = add32 (add32 curr_word 5) (word_len + 3) / 4 * 4
  body ← read_bytes 16 body_addr
  pure (record {
    curr_word = curr_word;
    prev_word_ptr = prev_word_ptr;
    flags_len = flags_len;
    is_immediate = leb 128 flags_len;
    name = name;
    body_addr = body_addr;
    body = body;
  })

unfoldable pub word_rows : ℕ → ℕ → Action (List WordRow)
word_rows zero curr_word = fail Stop.out_of_fuel
word_rows (suc fuel) curr_word =
    branch (curr_word == 0) (pure [])
      (do row ← word_row curr_word; rest ← word_rows fuel row.prev_word_ptr; pure (row ∷ rest))

pub record Snapshot : Type 0 where
  pub vm : Vm
  pub data_rows : List (ℕ × ℕ × Bool)
  pub return_rows : List (ℕ × ℕ × Bool)
  pub words : List WordRow

-- The registers are printed from the context itself.
unfoldable pub forth_export_runtime_snapshot_csv : ℕ → Action Snapshot
forth_export_runtime_snapshot_csv fuel = do
  v ← get_vm
  words ← word_rows fuel v.latest_word
  pure (record {
    vm = v;
    data_rows = stack_rows v.data_stack v.sp v.sp 0;
    return_rows = stack_rows v.return_stack v.rp v.rp 0;
    words = words;
  })
