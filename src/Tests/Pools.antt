-- ===== src/Tests/Pools.antt =====
-- The two pools: tests and instances.
use u_forth.Prelude.{◌≡◌, refl, some, inl, List, [], ◌∷◌, arith}
use u_forth.Vm
use u_forth.Vm.{Vm}
use u_forth.Machine.{Machine, ok, ◌>>◌}
use u_forth.CellPool.{is_free_bit, forth_cmd_fast_cell, forth_cmd_fast_cell_free}
use u_forth.CellPool.Alloc as CellAlloc
use u_forth.CellPool.Roundtrip.{Restores, fast_cell-fast_cell_free}
use u_forth.ChunkPool.{forth_cmd_alloc_chunk, free_chunk_at}
use u_forth.ChunkPool.Chain.{IsChunk, IsValid}
use u_forth.ChunkPool.Alloc as ChunkAlloc
use u_forth.ChunkPool.Runs.{Call, calls, Serves, Holds, calls-Serves}
use u_forth.ChunkPool.Misuse.{double_free}
use u_forth.Tests.Fixtures.{vm, vm-HasRoom, start, start-cells, two_free, two_free-chunks}

fast_cell-Takes_example :
    (m' : Machine) × (forth_cmd_fast_cell start ≡ ok tt m') × CellAlloc.Takes start vm 0 m'
unfolding is_free_bit
fast_cell-Takes_example =
    CellAlloc.fast_cell-Takes start vm start-cells refl 0 (omega arith) refl (λ j h. elim h [ ])

fast_cell-fast_cell_free_example :
    (m' : Machine) × ((forth_cmd_fast_cell >> forth_cmd_fast_cell_free) start ≡ ok tt m')
    × Restores start vm m'
unfolding is_free_bit
fast_cell-fast_cell_free_example =
    fast_cell-fast_cell_free start vm 0 start-cells refl vm-HasRoom (omega arith) refl
      (λ j h. elim h [ ])

alloc_chunk-Takes_example :
    (m' : Machine) × (forth_cmd_alloc_chunk two_free ≡ ok tt m')
    × ChunkAlloc.Takes two_free vm 0x20000C20 m'
    × IsValid m' (0x20000C00 ∷ [])
alloc_chunk-Takes_example =
    ChunkAlloc.alloc_chunk-Takes two_free vm refl 0x20000C20 (0x20000C00 ∷ []) two_free-chunks

-- Both chunks are taken, one of them twice; the last `FREE-CHUNK` is of the address 0.
abbrev pool_calls : List Call
pool_calls =
    Call.alloc ∷ Call.free ∷ Call.alloc ∷ Call.alloc ∷ Call.alloc ∷ Call.push 0 ∷ Call.free ∷ []

abbrev first_freed : Vm
first_freed = (Vm.pop (Vm.push 0x20000C20 vm)).1

abbrev both_taken : Vm
both_taken = Vm.push 0x20000C00 (Vm.push 0x20000C20 first_freed)

pool_calls-Serves :
    Serves (0x20000C20 ∷ 0x20000C00 ∷ []) vm pool_calls [] (Vm.pop (Vm.push 0 both_taken)).1
unfolding Vm.push Vm.pop
pool_calls-Serves = Serves.takes (
    Serves.gives in_pool (omega arith, tt) (omega arith)
      (Serves.takes (
        Serves.takes
          (Serves.empty (Serves.pushes 0 (Serves.ignores (inl (omega arith)) Serves.done))))))
  where
    in_pool : IsChunk 0x20000C20
    in_pool = record { low = omega arith; high = omega arith; aligned = refl }

calls-Serves_example :
    (m' : Machine) × (calls pool_calls two_free ≡ ok tt m')
    × Holds m' [] (Vm.pop (Vm.push 0 both_taken)).1
calls-Serves_example =
    calls-Serves (0x20000C20 ∷ 0x20000C00 ∷ []) [] vm (Vm.pop (Vm.push 0 both_taken)).1 pool_calls
      pool_calls-Serves two_free (record { pool = two_free-chunks; running = refl })

double_free_example :
    (m' : Machine) × ((free_chunk_at 0x20000C20 >> forth_cmd_alloc_chunk >> forth_cmd_alloc_chunk)
        two_free
      ≡ ok tt m')
    × (m'.current_forth_vm ≡ some (Vm.push 0x20000C20 (Vm.push 0x20000C20 vm)))
    × (m'.chunks.chunk_free_list_head ≡ 0)
double_free_example = double_free two_free vm 0x20000C20 (0x20000C00 ∷ []) two_free-chunks refl
