-- ===== src/Heap.antt =====
-- forth_heap.c and forth_heap.h: a heap in the SPI-RAM, and its words ALLOCATE and FREE of
-- forth_dict.c. The blocks are a chain in memory: the first word of a header is the size of the
-- block with the header, its lowest bit set while the block is in use; the second is the address of
-- the next block, or 0. The walks along the chain take fuel.
pub mod Blocks
pub mod Chain
pub mod Coalesce
pub mod Release
pub mod Tiles
pub mod Takes
pub mod Search
pub mod FirstFit
pub mod Split
pub mod Merge
pub mod Fresh
pub mod Free
use u_forth.Prelude.{
  ℕ, zero, suc, ◌+◌, ◌-◌, ◌*◌, ◌/◌, ◌%◌, ◌^◌, Bool, not, ◌&&◌, ◌||◌, ltb, leb, ◌==◌, if◌then◌else◌,
}
use u_forth.Bus.{ext_spi_ram_base, ext_spi_ram_size}
use u_forth.Machine.{
  Action, Stop, pure, fail, branch, ◌>>=◌, ◌>>◌, if_vm, hw_read32, hw_write32, forth_push,
  forth_pop,
}
use u_forth.Words.Arith.{add32, sub32}
use u_forth.Words.{if_running}

-- HEAP_BASE_ADDR, HEAP_MANAGED_SIZE, BLOCK_HEADER_SIZE
abbrev pub heap_base_addr : ℕ
heap_base_addr = ext_spi_ram_base

abbrev pub heap_managed_size : ℕ
heap_managed_size = ext_spi_ram_size

abbrev pub block_header_size : ℕ
block_header_size = 8

-- `size_flags & SIZE_MASK` and `size_flags & BUSY_BIT_MASK`
abbrev pub size_of : ℕ → ℕ
size_of size_flags = size_flags / 2 * 2

abbrev pub is_busy : ℕ → Bool
is_busy size_flags = size_flags % 2 == 1

unfoldable pub heap_init : Action (Unit {0})
heap_init = do
  hw_write32 heap_base_addr (size_of heap_managed_size)
  hw_write32 (heap_base_addr + 4) 0

-- `required_total_size`: `size` rounded up to a multiple of 4, and the header.
unfoldable pub required_total_size : ℕ → ℕ
required_total_size size = add32 (add32 size 3 / 4 * 4) block_header_size

-- The block is split where the rest can hold a header and a word, and else given whole.
unfoldable pub take_block : ℕ → ℕ → ℕ → ℕ → Action ℕ
take_block curr_block required block_size next_block = do
  branch (leb (add32 required (block_header_size + 4)) block_size)
      (do
        let new_free_block = add32 curr_block required
        let new_free_size = sub32 block_size required
        hw_write32 new_free_block (size_of new_free_size)
        hw_write32 (add32 new_free_block 4) next_block
        hw_write32 curr_block (size_of required + 1)
        hw_write32 (add32 curr_block 4) new_free_block)
      (hw_write32 curr_block (block_size + 1))
  pure (add32 curr_block block_header_size)

-- The loop of `forth_heap_allocate`.
unfoldable pub find_block : ℕ → ℕ → ℕ → Action ℕ
find_block zero required curr_block = fail Stop.out_of_fuel
find_block (suc fuel) required curr_block = branch (curr_block == 0) (pure 0) (do
  size_flags ← hw_read32 curr_block
  next_block ← hw_read32 (add32 curr_block 4)
  branch (not (is_busy size_flags) && leb required (size_of size_flags))
      (take_block curr_block required (size_of size_flags) next_block)
      (find_block fuel required next_block))

unfoldable pub forth_heap_allocate : ℕ → ℕ → Action ℕ
forth_heap_allocate fuel size = find_block fuel (required_total_size size) heap_base_addr

-- The loop of `forth_heap_free`, which joins a free block with a free one behind it and stays.
unfoldable pub coalesce : ℕ → ℕ → Action (Unit {0})
coalesce zero curr_block = fail Stop.out_of_fuel
coalesce (suc fuel) curr_block = branch (curr_block == 0) (pure tt) (do
  curr_size_flags ← hw_read32 curr_block
  next_block_ptr ← hw_read32 (add32 curr_block 4)
  branch (not (is_busy curr_size_flags) && not (next_block_ptr == 0))
      (do
        next_size_flags ← hw_read32 next_block_ptr
        branch (not (is_busy next_size_flags))
            (do
              let merged_size = add32 (add32 (size_of curr_size_flags) (size_of next_size_flags)) 8
              future_next_ptr ← hw_read32 (add32 next_block_ptr 4)
              hw_write32 curr_block merged_size
              hw_write32 (add32 curr_block 4) future_next_ptr
              coalesce fuel curr_block)
            (coalesce fuel next_block_ptr))
      (coalesce fuel next_block_ptr))

unfoldable pub forth_heap_free : ℕ → ℕ → Action ℕ
forth_heap_free fuel payload_addr =
    branch
      (ltb payload_addr heap_base_addr || leb (heap_base_addr + heap_managed_size) payload_addr)
      (pure 1)
      (do
        let target_header = sub32 payload_addr 8
        target_size_flags ← hw_read32 target_header
        branch (not (is_busy target_size_flags)) (pure 1) (do
          hw_write32 target_header (size_of target_size_flags)
          coalesce fuel heap_base_addr
          pure 0))

-- The totals that `heap_dump_status` prints: bytes in use, free bytes and blocks.
unfoldable heap_dump_status : ℕ → ℕ → ℕ × ℕ × ℕ → Action (ℕ × ℕ × ℕ)
heap_dump_status zero curr_block totals = fail Stop.out_of_fuel
heap_dump_status (suc fuel) curr_block (allocated, free, blocks_count) =
    branch (curr_block == 0) (pure (allocated, free, blocks_count)) (do
      size_flags ← hw_read32 curr_block
      let block_size = size_of size_flags
      let allocated' = if is_busy size_flags then add32 allocated block_size else allocated
      let free' = if is_busy size_flags then free else add32 free block_size
      next_block ← hw_read32 (add32 curr_block 4)
      heap_dump_status fuel next_block (allocated', free', add32 blocks_count 1))

unfoldable pub forth_cmd_allocate : ℕ → Action (Unit {0})
forth_cmd_allocate fuel = if_vm (do
  bytes ← forth_pop
  addr ← forth_heap_allocate fuel bytes
  branch (addr == 0) (forth_push 0 >> forth_push 0xFFFFFFFF) (forth_push addr >> forth_push 0))

unfoldable pub forth_cmd_free : ℕ → Action (Unit {0})
forth_cmd_free fuel =
    if_vm
      (do addr ← forth_pop; if_running (do result ← forth_heap_free fuel addr; forth_push result))
