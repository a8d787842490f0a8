-- ===== src/ChunkPool.antt =====
-- forth_chunk_pool.c and forth_chunk_pool.h: a pool of 20 chunks of 32 bytes in the fast SRAM. The
-- first word of a free chunk is the address of the next free one; the head of that list and a
-- counter are static variables.
pub mod Chain
pub mod Clear
pub mod Init
pub mod Alloc
pub mod Free
pub mod Misuse
pub mod Runs
use u_forth.Prelude.{ℕ, zero, suc, ◌+◌, ◌-◌, ◌*◌, ◌%◌, ◌^◌, ◌||◌, ltb, leb, ◌==◌, if◌then◌else◌}
use u_forth.Bus.{fast_sram_base}
use u_forth.Machine.{
  Chunks, Action, ok, pure, branch, ◌>>=◌, ◌>>◌, hw_read32, hw_write32, forth_push, forth_pop,
}

-- CHUNK_COUNT, CHUNK_SIZE, CHUNK_POOL_BASE
abbrev pub chunk_count : ℕ
chunk_count = 20

abbrev pub chunk_size : ℕ
chunk_size = 32

abbrev pub chunk_pool_base : ℕ
chunk_pool_base = fast_sram_base + 0x0C00

abbrev pub get_chunks : Action Chunks
get_chunks m = ok m.chunks m

abbrev pub set_chunks : Chunks → Action (Unit {0})
set_chunks c m = ok tt (record m { chunks = c })

-- The loop of `chunk_pool_init` from chunk `i` on, with `left` rounds to go.
unfoldable pub link_chunks : ℕ → ℕ → Action (Unit {0})
link_chunks zero i = pure tt
link_chunks (suc left) i =
    let current_chunk_addr = chunk_pool_base + i * chunk_size in
    let next_chunk_addr = current_chunk_addr + chunk_size in
    hw_write32 current_chunk_addr next_chunk_addr >> link_chunks left (i + 1)

unfoldable pub chunk_pool_init : Action (Unit {0})
chunk_pool_init = do
  set_chunks (record { chunk_free_list_head = chunk_pool_base; chunk_allocated_count = 0 })
  link_chunks (chunk_count - 1) 0
  hw_write32 (chunk_pool_base + (chunk_count - 1) * chunk_size) 0

-- The clearing loop of `forth_cmd_alloc_chunk` from byte `i` on, with `left` rounds to go.
unfoldable pub clear_words : ℕ → ℕ → ℕ → Action (Unit {0})
clear_words zero allocated_addr i = pure tt
clear_words (suc left) allocated_addr i =
    hw_write32 (allocated_addr + i) 0 >> clear_words left allocated_addr (i + 4)

-- `forth_cmd_alloc_chunk` behind its test: the chunk at the head is taken.
unfoldable pub take_chunk : ℕ → Action (Unit {0})
take_chunk allocated_addr = do
  next ← hw_read32 allocated_addr
  c ← get_chunks
  set_chunks (record {
    chunk_free_list_head = next;
    chunk_allocated_count = (c.chunk_allocated_count + 1) % 2 ^ 32;
  })
  clear_words 8 allocated_addr 0
  forth_push allocated_addr

unfoldable pub forth_cmd_alloc_chunk : Action (Unit {0})
forth_cmd_alloc_chunk m =
    let head = m.chunks.chunk_free_list_head in if head == 0 then ok tt m else take_chunk head m

-- `forth_cmd_free_chunk` behind its validation of the bounds.
unfoldable pub put_chunk : ℕ → Action (Unit {0})
put_chunk chunk_addr = do
  c ← get_chunks
  hw_write32 chunk_addr c.chunk_free_list_head
  let n = c.chunk_allocated_count
  set_chunks (record {
    chunk_free_list_head = chunk_addr;
    chunk_allocated_count = if ltb 0 n then n - 1 else n;
  })

-- `forth_cmd_free_chunk` behind its `forth_pop`.
unfoldable pub free_chunk_at : ℕ → Action (Unit {0})
free_chunk_at chunk_addr m =
    if ltb chunk_addr chunk_pool_base || leb (chunk_pool_base + chunk_count * chunk_size) chunk_addr
    then ok tt m
    else put_chunk chunk_addr m

unfoldable pub forth_cmd_free_chunk : Action (Unit {0})
forth_cmd_free_chunk = do chunk_addr ← forth_pop; free_chunk_at chunk_addr

-- `debug_get_chunk_free_head` and `debug_get_chunk_allocated_count`
unfoldable pub debug_get_chunk_free_head : Chunks → ℕ
debug_get_chunk_free_head c = c.chunk_free_list_head

unfoldable pub debug_get_chunk_allocated_count : Chunks → ℕ
debug_get_chunk_allocated_count c = c.chunk_allocated_count
