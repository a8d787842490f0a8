-- ===== src/ChunkPool/Init.antt =====
-- `chunk_pool_init` links all chunks into the free list.
use u_forth.Prelude.{ℕ, zero, suc, ◌+◌, ◌*◌, ◌≤◌, ◌<◌, ◌≡◌, refl, List, [], ◌∷◌, arith, ◌∙◌}
use native.Mathlib.Decide.{ℕ_discrete}
use u_forth.Bus.{Bus}
use u_forth.Bus.Access.{load, store}
use u_forth.Bus.Words.{load-store_self, load-store_ne}
use u_forth.Machine.{Machine, ok, ◌>>◌, ◌>>=◌}
use u_forth.Machine.Laws.{with_bus, write32_at}
use u_forth.ChunkPool.{chunk_size, chunk_pool_base, link_chunks, chunk_pool_init}
use u_forth.ChunkPool.Chain.{IsChunk, IsChunk-is_word_head, IsValid, Chain, NotIn}

abbrev pub chunk_addr : ℕ → ℕ
chunk_addr i = chunk_pool_base + i * chunk_size

-- The addresses of `n` chunks from chunk `i` on.
abbrev pub chunk_addrs : ℕ → ℕ → List ℕ
chunk_addrs zero i = []
chunk_addrs (suc n) i = chunk_addr i ∷ chunk_addrs n (i + 1)

pub chunk_addr-IsChunk : (i : ℕ) → i < 20 → IsChunk (chunk_addr i)
chunk_addr-IsChunk i lt = omega arith

chunk_addrs-NotIn : (n i j : ℕ) → i < j → NotIn (chunk_addr i) (chunk_addrs n j)
chunk_addrs-NotIn zero i j lt = tt
chunk_addrs-NotIn (suc n) i j lt = (omega arith, chunk_addrs-NotIn n i (j + 1) (omega arith))

-- The bus after the linking loop.
linked : ℕ → ℕ → Bus → Bus
linked zero i b = b
linked (suc left) i b = linked left (i + 1) (store b (chunk_addr i) (chunk_addr i + chunk_size))

link_chunks-linked :
    (left i : ℕ) (m : Machine)
    → i + left < 20
    → link_chunks left i m ≡ ok tt (with_bus m (linked left i m.bus))
unfolding link_chunks linked
link_chunks-linked zero i m fit = refl
link_chunks-linked (suc left) i m fit =
    rw
      (
        link_chunks,
        ◌>>◌,
        ◌>>=◌,
        write32_at (chunk_addr i) m (chunk_addr i + chunk_size)
            (IsChunk-is_word_head (chunk_addr-IsChunk i (omega arith))),
      )
      (link_chunks-linked left (i + 1)
        (with_bus m (store m.bus (chunk_addr i) (chunk_addr i + chunk_size))) (omega arith))

linked-before :
    (left i j : ℕ) (b : Bus)
    → i + left < 20
    → j < i
    → load (linked left i b) (chunk_addr j) ≡ load b (chunk_addr j)
unfolding linked
linked-before zero i j b fit lt = refl
linked-before (suc left) i j b fit lt =
    linked-before left (i + 1) j (store b (chunk_addr i) (chunk_addr i + chunk_size)) (omega arith)
      (omega arith)
    ∙ load-store_ne b (chunk_addr i) (chunk_addr j) (chunk_addr i + chunk_size)
        (IsChunk-is_word_head (chunk_addr-IsChunk i (omega arith)))
        (IsChunk-is_word_head (chunk_addr-IsChunk j (omega arith))) (omega arith)

linked-at :
    (left i j : ℕ) (b : Bus)
    → i + left < 20
    → i ≤ j
    → j < i + left
    → load (linked left i b) (chunk_addr j) ≡ chunk_addr (j + 1)
unfolding linked
linked-at zero i j b fit l lt = absurd (omega arith)
linked-at (suc left) i j b fit l lt = elim (ℕ_discrete i j) [
  | no ne ↦
      linked-at left (i + 1) j (store b (chunk_addr i) (chunk_addr i + chunk_size)) (omega arith)
        (omega arith) (omega arith)
  | yes e ↦
      linked-before left (i + 1) j (store b (chunk_addr i) (chunk_addr i + chunk_size))
        (omega arith) (omega arith)
      ∙ (rw (← e) (
          load-store_self b (chunk_addr i) (chunk_addr i + chunk_size) (omega arith) ∙ omega arith))
]

-- A bus where each chunk leads to the next and the last one to 0.
chunk_addrs-Chain :
    (b : Bus)
    → ((j : ℕ) → j < 19 → load b (chunk_addr j) ≡ chunk_addr (j + 1))
    → load b (chunk_addr 19) ≡ 0
    → (n i : ℕ) → i + n ≡ 20
    → 0 < n
    → Chain b (chunk_addr i) (chunk_addrs n i)
chunk_addrs-Chain b next last zero i e h = elim h [ ]
chunk_addrs-Chain b next last (suc zero) i e h =
    (refl, chunk_addr-IsChunk i (omega arith), tt, (let at : i ≡ 19 = omega arith in rw at last))
chunk_addrs-Chain b next last (suc (suc n)) i e h = (
  refl,
  chunk_addr-IsChunk i (omega arith),
  chunk_addrs-NotIn (suc n) i (i + 1) (omega arith),
  rw (next i (omega arith))
      (chunk_addrs-Chain b next last (suc n) (i + 1) (omega arith) (omega arith)),
)

-- The machine after `chunk_pool_init`.
unfoldable pub with_chunks : Machine → Machine
unfolding linked
with_chunks m = record m {
  bus = store (linked 19 0 m.bus) (chunk_addr 19) 0;
  chunks = record { chunk_free_list_head = chunk_pool_base; chunk_allocated_count = 0 };
}

pub chunk_pool_init_at : (m : Machine) → chunk_pool_init m ≡ ok tt (with_chunks m)
unfolding chunk_pool_init with_chunks
chunk_pool_init_at m =
    let m₁ : Machine = record m {
      chunks = record { chunk_free_list_head = chunk_pool_base; chunk_allocated_count = 0 };
    } in
    rw (chunk_pool_init, ◌>>◌, ◌>>=◌, link_chunks-linked 19 0 m₁ (omega arith))
      (write32_at (chunk_addr 19) (with_bus m₁ (linked 19 0 m.bus)) 0
        (IsChunk-is_word_head (chunk_addr-IsChunk 19 (omega arith))))

pub with_chunks-IsValid : (m : Machine) → IsValid (with_chunks m) (chunk_addrs 20 0)
unfolding with_chunks
with_chunks-IsValid m =
    let b = linked 19 0 m.bus in
    let w = IsChunk-is_word_head (chunk_addr-IsChunk 19 (omega arith)) in
    let b' = store b (chunk_addr 19) 0 in
    record {
      chain =
          chunk_addrs-Chain b'
            (λ j lt.
              load-store_ne b (chunk_addr 19) (chunk_addr j) 0 w
                (IsChunk-is_word_head (chunk_addr-IsChunk j (omega arith))) (omega arith)
              ∙ linked-at 19 0 j m.bus (omega arith) (omega arith) (omega arith))
            (load-store_self b (chunk_addr 19) 0 (omega arith)) 20 0 refl (omega arith);
      counted = refl;
    }

-- `chunk_pool_init` succeeds from any machine, and leaves a valid pool whose free list holds all 20
-- chunks in the order of their addresses.
chunk_pool_init-IsValid :
    (m : Machine) → (m' : Machine) × (chunk_pool_init m ≡ ok tt m') × IsValid m' (chunk_addrs 20 0)
chunk_pool_init-IsValid m = (with_chunks m, chunk_pool_init_at m, with_chunks-IsValid m)
