-- ===== src/Tests/Heap.antt =====
-- The heap: tests and instances.
use u_forth.Prelude.{ℕ, ◌+◌, ◌≤◌, ◌≡◌, refl, true, false, ◌≢◌, ◌⊎◌, inl, inr, arith}
use u_forth.Bus.{Bus}
use u_forth.Bus.Access.{load, store}
use u_forth.Machine.{Machine, ok, ◌>>=◌, ◌>>◌}
use u_forth.Machine.Laws.{with_bus}
use u_forth.Heap.{
  heap_base_addr, heap_managed_size, required_total_size, heap_init, forth_heap_allocate,
  forth_heap_free, size_of, is_busy,
}
use u_forth.Heap.Blocks.{fits, flags_at, next_at}
use u_forth.Heap.Fresh.{allocate-free_grows}
use u_forth.Heap.Chain.{Chain, done, block, first}
use u_forth.Heap.Coalesce.{Merged}
use u_forth.Heap.Release.{heap_free-Merged}
use u_forth.Heap.Tiles.{Tiles, tile, filled, IsBlock, heap_end}
use u_forth.Heap.Search.{heap_allocate-Tiles}
use u_forth.Tests.Fixtures.{bus, start}

-- A block of 16 bytes that is in use, before one of 64 bytes that is free.
abbrev two_blocks : Machine
two_blocks = with_bus start (
    store (store (store (store bus 0x60000000 17) 0x60000004 0x60000010) 0x60000010 64) 0x60000014
      0)

allocate-free_grows_example :
    (m' : Machine) × ((do heap_init; addr ← forth_heap_allocate 3 100; forth_heap_free 3 addr) start
      ≡ ok 0 m')
    × (flags_at m'.bus heap_base_addr ≡ heap_managed_size + 8)
    × (next_at m'.bus heap_base_addr ≡ 0)
allocate-free_grows_example = allocate-free_grows start 100 0 (omega arith)

two_blocks-Chain : Chain two_blocks.bus heap_base_addr 2
unfolding load store
two_blocks-Chain =
    block 0x60000010 refl refl (inr (omega arith)) (block 0 refl refl (inl refl) done)

heap_free-Merged_example :
    (b : Bus) × (k : ℕ) × (forth_heap_free 3 0x60000008 two_blocks ≡ ok 0 (with_bus two_blocks b))
    × Merged b heap_base_addr k
    × (k ≤ 2)
unfolding load store
heap_free-Merged_example =
    heap_free-Merged two_blocks 3 2 heap_base_addr two_blocks-Chain first (omega arith) refl
      (omega arith)

-- The heap as `heap_init` leaves it.
abbrev one_block : Machine
one_block = with_bus start (store (store bus 0x60000000 0x100000) 0x60000004 0)

one_block-Tiles : Tiles one_block.bus heap_base_addr 1
unfolding load store
one_block-Tiles = tile heap_end (omega arith) refl refl (omega arith) refl filled

heap_allocate-Tiles_example :
    (forth_heap_allocate 2 20 one_block ≡ ok 0 one_block)
      × ((t : ℕ)
          → IsBlock one_block.bus t heap_base_addr
          → fits one_block.bus (required_total_size 20) t ≡ false)
    ⊎ (t : ℕ) × (b : Bus) × (k : ℕ) × (forth_heap_allocate 2 20 one_block
        ≡ ok (t + 8) (with_bus one_block b))
      × IsBlock one_block.bus t heap_base_addr
      × (is_busy (flags_at one_block.bus t) ≡ false)
      × (is_busy (flags_at b t) ≡ true)
      × (20 + 8 ≤ size_of (flags_at b t))
      × Tiles b heap_base_addr k
      × ((u : ℕ)
          → IsBlock one_block.bus u heap_base_addr
          → u ≢ t
          → flags_at b u ≡ flags_at one_block.bus u)
heap_allocate-Tiles_example =
    heap_allocate-Tiles one_block 2 1 20 one_block-Tiles (omega arith) (omega arith)
