-- ===== src/ChunkPool/Alloc.antt =====
-- `forth_cmd_alloc_chunk` takes the chunk at the head of the free list.
use u_forth.Prelude.{
  ℕ, ◌+◌, ◌*◌, ◌%◌, ◌^◌, ◌<◌, ◌≡◌, ◌==◌, false, some, List, [], ◌∷◌, arith, refl, ◌∙◌, ap,
}
use u_forth.Bus.Access.{load}
use u_forth.Vm
use u_forth.Vm.{Vm}
use u_forth.Machine.{Machine, ok, ◌>>◌, ◌>>=◌}
use u_forth.Machine.Laws.{with_bus, push_at, read32_at}
use u_forth.ChunkPool.{take_chunk, forth_cmd_alloc_chunk}
use u_forth.ChunkPool.Chain.{IsChunk, IsChunk-is_word_head, IsValid, SameOutside, Chain-frame}
use u_forth.ChunkPool.Clear.{cleared, clear_words-cleared, cleared-outside, cleared-inside}

-- `m'` is `m`, whose context is `v`, after the chunk `a` was taken.
pub record Takes (m : Machine) (v : Vm) (a : ℕ) (m' : Machine) : Type 0 where
  pub zeroed : (k : ℕ) → k < 8 → load m'.bus (a + 4 * k) ≡ 0
  pub spared : SameOutside a m.bus m'.bus
  pub pushed : m'.current_forth_vm ≡ some (Vm.push a v)
  pub same_cells : m'.cells ≡ m.cells

unfoldable pub after_take : Machine → Vm → ℕ → Machine
after_take m v a = record m {
  chunks = record {
    chunk_free_list_head = load m.bus a;
    chunk_allocated_count = (m.chunks.chunk_allocated_count + 1) % 2 ^ 32;
  };
  bus = cleared a m.bus;
  current_forth_vm = some (Vm.push a v);
}

module _ (m : Machine) (v : Vm) (running : m.current_forth_vm ≡ some v) where
  take_chunk-run : {a : ℕ} → IsChunk a → take_chunk a m ≡ ok tt (after_take m v a)
  unfolding take_chunk after_take
  take_chunk-run {a} h =
      let m₁ : Machine = record m {
        chunks = record {
          chunk_free_list_head = load m.bus a;
          chunk_allocated_count = (m.chunks.chunk_allocated_count + 1) % 2 ^ 32;
        };
      } in
      rw (take_chunk, ◌>>◌, ◌>>=◌, read32_at a m (IsChunk-is_word_head h), clear_words-cleared h m₁)
        (push_at (with_bus m₁ (cleared a m.bus)) running a)

  pub alloc_chunk-run :
      (a : ℕ)
      → m.chunks.chunk_free_list_head ≡ a
      → IsChunk a
      → forth_cmd_alloc_chunk m ≡ ok tt (after_take m v a)
  unfolding forth_cmd_alloc_chunk
  alloc_chunk-run a e h =
      let some_chunk : (m.chunks.chunk_free_list_head == 0) ≡ false = ground (arith, e, h.low) in
      rw (forth_cmd_alloc_chunk, some_chunk) (ap (λ p. take_chunk p m) e ∙ take_chunk-run h)

  -- While a chunk is free, `ALLOC-CHUNK` takes the first one of the free list, clears its 32 bytes
  -- and changes no word outside it, pushes its address, and leaves a valid pool with the rest of the
  -- list.
  pub alloc_chunk-Takes :
      (a : ℕ) (xs : List ℕ)
      → IsValid m (a ∷ xs)
      → (m' : Machine) × (forth_cmd_alloc_chunk m ≡ ok tt m') × Takes m v a m' × IsValid m' xs
  unfolding after_take
  alloc_chunk-Takes a xs inv =
      let (e, h, fresh, rest) = inv.chain in
      (
        after_take m v a,
        alloc_chunk-run a e h,
        record {
          zeroed = cleared-inside h m.bus;
          spared = cleared-outside h m.bus;
          pushed = refl;
          same_cells = refl;
        },
        record {
          chain =
              Chain-frame a m.bus (cleared a m.bus) xs (load m.bus a) h fresh
                (cleared-outside h m.bus) rest;
          counted = omega (arith, inv.counted);
        },
      )

-- With no chunk free, `ALLOC-CHUNK` changes nothing: it pushes nothing either.
pub alloc_chunk_empty : (m : Machine) → IsValid m [] → forth_cmd_alloc_chunk m ≡ ok tt m
unfolding forth_cmd_alloc_chunk
alloc_chunk_empty m inv = rw (forth_cmd_alloc_chunk, inv.chain)
