-- ===== src/ChunkPool/Misuse.antt =====
-- What a chunk that is freed twice does to the pool.
use u_forth.Prelude.{ℕ, ◌≡◌, refl, some, List, ◌∷◌, arith, ◌∙◌, ap}
use u_forth.Bus.Access.{load}
use u_forth.Bus.Words.{load-store_self}
use u_forth.Vm
use u_forth.Vm.{Vm}
use u_forth.Machine.{Machine, ok, ◌>>◌, ◌>>=◌}
use u_forth.ChunkPool.{free_chunk_at, forth_cmd_alloc_chunk}
use u_forth.ChunkPool.Chain.{IsValid}
use u_forth.ChunkPool.Clear.{cleared-inside}
use u_forth.ChunkPool.Alloc.{after_take, alloc_chunk-run}
use u_forth.ChunkPool.Free.{after_put, free_chunk_at-run}

-- When the chunk at the head of the free list is freed once more, the next two `ALLOC-CHUNK` both
-- push the address of that chunk, and the free list is empty after them, whatever it held.
pub double_free :
    (m : Machine) (v : Vm) (a : ℕ) (xs : List ℕ)
    → IsValid m (a ∷ xs)
    → m.current_forth_vm ≡ some v
    → (m' : Machine) × ((free_chunk_at a >> forth_cmd_alloc_chunk >> forth_cmd_alloc_chunk) m
        ≡ ok tt m')
      × (m'.current_forth_vm ≡ some (Vm.push a (Vm.push a v)))
      × (m'.chunks.chunk_free_list_head ≡ 0)
unfolding after_put after_take
double_free m v a xs inv running =
    let (e, h, out, rest) = inv.chain in
    let m₁ = after_put m a in
    let m₂ = after_take m₁ v a in
    let looped : load m₁.bus a ≡ a =
      load-store_self m.bus a m.chunks.chunk_free_list_head (omega (arith, e, h.high)) ∙ e in
    let ended : load m₂.bus a ≡ 0 =
      ap (load m₂.bus) (omega arith) ∙ cleared-inside h m₁.bus 0 (omega arith) in
    (
      after_take m₂ (Vm.push a v) a,
      rw (free_chunk_at-run m h, ◌>>◌, ◌>>=◌, alloc_chunk-run m₁ v running a refl h)
          (alloc_chunk-run m₂ (Vm.push a v) refl a looped h),
      refl,
      ended,
    )
