-- ===== src/ChunkPool/Free.antt =====
-- `forth_cmd_free_chunk` puts a chunk at the head of the free list.
use u_forth.Prelude.{
  ℕ, ◌+◌, ◌-◌, ◌*◌, ◌^◌, ◌≤◌, ◌<◌, ◌≡◌, ◌⊎◌, inl, inr, ◌||◌, ltb, leb, if◌then◌else◌, true, false,
  some, List, [], ◌∷◌, length, arith, refl, ◌∙◌, lt→ltb,
}
use u_forth.Bus.Access.{store, is_word}
use u_forth.Bus.Words.{load-store_self, load-store_ne}
use u_forth.Vm
use u_forth.Vm.{Vm}
use u_forth.Vm.Refine.{HasRoom, view, pop-push}
use u_forth.Machine.{Machine, ok, ◌>>◌, ◌>>=◌}
use u_forth.Machine.Laws.{with_vm, pop_at, write32_at}
use u_forth.ChunkPool.{
  chunk_count, chunk_size, chunk_pool_base, put_chunk, free_chunk_at, forth_cmd_free_chunk,
  forth_cmd_alloc_chunk,
}
use u_forth.ChunkPool.Chain.{
  IsChunk, IsChunk-is_word_head, IsValid, SameOutside, NotIn, Chain-frame,
}
use u_forth.ChunkPool.Alloc.{alloc_chunk-Takes}

unfoldable pub after_put : Machine → ℕ → Machine
after_put m a = record m {
  bus = store m.bus a m.chunks.chunk_free_list_head;
  chunks = record {
    chunk_free_list_head = a;
    chunk_allocated_count =
        if ltb 0 m.chunks.chunk_allocated_count
        then m.chunks.chunk_allocated_count - 1
        else m.chunks.chunk_allocated_count;
  };
}

module _ (m : Machine) where
  pub free_chunk_at-run : {a : ℕ} → IsChunk a → free_chunk_at a m ≡ ok tt (after_put m a)
  unfolding free_chunk_at put_chunk after_put
  free_chunk_at-run {a} h =
      let inside : (ltb a chunk_pool_base || leb (chunk_pool_base + chunk_count * chunk_size) a)
          ≡ false =
        ground (arith, h.low, h.high) in
      rw (
        free_chunk_at,
        inside,
        put_chunk,
        ◌>>◌,
        ◌>>=◌,
        write32_at a m m.chunks.chunk_free_list_head (IsChunk-is_word_head h),
      )

  -- The head of a valid list is an address in 32 bits.
  head-lt : (xs : List ℕ) → IsValid m xs → m.chunks.chunk_free_list_head < 2 ^ 32
  head-lt [] inv = omega (arith, inv.chain)
  head-lt (x ∷ xs) inv = omega (arith, inv.chain.0, inv.chain.1.high)

  -- A chunk that is in use and not on the list, given to `FREE-CHUNK`, comes to the head of the free
  -- list, no word outside the chunk changes, and the pool stays valid.
  pub free_chunk_at-IsValid :
      (a : ℕ) (xs : List ℕ)
      → IsChunk a
      → NotIn a xs
      → length xs < chunk_count
      → IsValid m xs
      → (m' : Machine) × (free_chunk_at a m ≡ ok tt m')
        × IsValid m' (a ∷ xs)
        × SameOutside a m.bus m'.bus
        × (m'.current_forth_vm ≡ m.current_forth_vm)
  unfolding after_put
  free_chunk_at-IsValid a xs h out fit inv =
      let head = m.chunks.chunk_free_list_head in
      let same = λ (w : ℕ) (q : is_word w ≡ true) (apart : (w < a) ⊎ (a + chunk_size ≤ w)).
        load-store_ne m.bus a w head (IsChunk-is_word_head h) q (omega arith) in
      let stored = load-store_self m.bus a head (head-lt xs inv) in
      (
        after_put m a,
        free_chunk_at-run h,
        record {
          chain = (
            refl,
            h,
            out,
            rw stored (Chain-frame a m.bus (store m.bus a head) xs head h out same inv.chain),
          );
          counted = ground (arith, inv.counted);
        },
        same,
        refl,
      )

  -- `FREE-CHUNK` ignores an address outside the pool.
  pub free_chunk_at-ignored :
      (a : ℕ)
      → (a < chunk_pool_base) ⊎ (chunk_pool_base + chunk_count * chunk_size ≤ a)
      → free_chunk_at a m ≡ ok tt m
  unfolding free_chunk_at
  free_chunk_at-ignored a (inl low) = rw (free_chunk_at, lt→ltb a chunk_pool_base low)
  free_chunk_at-ignored a (inr high) = ground arith

pub free_chunk-pop :
    (m : Machine) {v : Vm}
    → m.current_forth_vm ≡ some v
    → forth_cmd_free_chunk m ≡ free_chunk_at (Vm.pop v).0 (with_vm m (Vm.pop v).1)
unfolding forth_cmd_free_chunk
free_chunk-pop m e = rw (forth_cmd_free_chunk, ◌>>=◌, pop_at m e)

-- While a chunk is free and the data stack has room, `ALLOC-CHUNK FREE-CHUNK` succeeds and leaves
-- the same free list and the same stacks.
alloc_chunk-free_chunk :
    (m : Machine) (v : Vm) (a : ℕ) (xs : List ℕ)
    → IsValid m (a ∷ xs)
    → m.current_forth_vm ≡ some v
    → HasRoom v
    → (m' : Machine) × (v' : Vm) × ((forth_cmd_alloc_chunk >> forth_cmd_free_chunk) m ≡ ok tt m')
      × IsValid m' (a ∷ xs)
      × (m'.current_forth_vm ≡ some v')
      × (view v' ≡ view v)
alloc_chunk-free_chunk m v a xs inv running room =
    let (m₁, run, t, inv₁) = alloc_chunk-Takes m v running a xs inv in
    let (popped, kept) = pop-push a room in
    let v' = (Vm.pop (Vm.push a v)).1 in
    let m₂ = with_vm m₁ v' in
    let (e, h, out, rest) = inv.chain in
    let inv₂ : IsValid m₂ xs = record { chain = inv₁.chain; counted = inv₁.counted } in
    let (m', run', inv', same, vm) =
      free_chunk_at-IsValid m₂ a xs h out (omega (arith, inv.counted)) inv₂ in
    (m', v', rw (run, ◌>>◌, ◌>>=◌) (free_chunk-pop m₁ t.pushed ∙ (rw popped run')), inv', vm, kept)
