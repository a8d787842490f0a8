-- ===== src/Heap/FirstFit.antt =====
-- The search of `forth_heap_allocate` along the chain: the first block that fits is taken.
use u_forth.Prelude.{ℕ, zero, suc, ◌<◌, ◌≡◌, true, false, ◌∙◌, ◌==◌, refl, arith, &&-eq_true}
use u_forth.Machine.{Machine, ok, ◌>>=◌}
use u_forth.Machine.Laws.{read32_at}
use u_forth.Words.Arith.{add32}
use u_forth.Heap.{
  size_of, find_block, take_block, forth_heap_allocate, heap_base_addr, required_total_size,
}
use u_forth.Heap.Blocks.{Unfit, here, past, is_header, fits, flags_at, next_at}

header-pos : (a : ℕ) → is_header a ≡ true → (a == 0) ≡ false
header-pos a h = ground arith

module _ (m : Machine) (required : ℕ) where
  pub find_block-fits :
      (fuel a : ℕ)
      → is_header a ≡ true
      → fits m.bus required a ≡ true
      → find_block (suc fuel) required a m
        ≡ take_block a required (size_of (flags_at m.bus a)) (next_at m.bus a) m
  unfolding find_block
  find_block-fits fuel a h f =
      let (w₁, w₂) = &&-eq_true _ _ h in
      rw (header-pos a h, ◌>>=◌, read32_at a m w₁, read32_at (add32 a 4) m w₂, f)

  pub find_block_no_fit :
      (fuel a : ℕ)
      → is_header a ≡ true
      → fits m.bus required a ≡ false
      → find_block (suc fuel) required a m ≡ find_block fuel required (next_at m.bus a) m
  unfolding find_block
  find_block_no_fit fuel a h f =
      let (w₁, w₂) = &&-eq_true _ _ h in
      rw (header-pos a h, ◌>>=◌, read32_at a m w₁, read32_at (add32 a 4) m w₂, f)

  find_block_first :
      (fuel : ℕ) {a c n : ℕ}
      → Unfit m.bus required a c n
      → n < fuel
      → is_header c ≡ true
      → fits m.bus required c ≡ true
      → find_block fuel required a m
        ≡ take_block c required (size_of (flags_at m.bus c)) (next_at m.bus c) m
  find_block_first zero walk lt h f = absurd (omega arith)
  find_block_first (suc fuel) {a = a} here lt h f = find_block-fits fuel a h f
  find_block_first (suc fuel) {a = a} (past h' f' walk) lt h f =
      find_block_no_fit fuel a h' f' ∙ find_block_first fuel walk (omega arith) h f

  find_block_end :
      {a n : ℕ} (fuel : ℕ)
      → Unfit m.bus required a 0 n
      → n < fuel
      → find_block fuel required a m ≡ ok 0 m
  unfolding find_block
  find_block_end fuel walk lt = end fuel walk lt refl
    where
      end :
          (fuel : ℕ) {a c n : ℕ}
          → Unfit m.bus required a c n
          → n < fuel
          → c ≡ 0
          → find_block fuel required a m ≡ ok 0 m
      end zero walk lt e = absurd (omega arith)
      end (suc fuel) {a = a} here lt e = rw e refl
      end (suc fuel) {a = a} (past h' f' walk) lt e =
          find_block_no_fit fuel a h' f' ∙ end fuel walk (omega arith) e

module _ (m : Machine) (size fuel n : ℕ) where
  -- When `n` blocks that are in use or too small lead to a free block that is large enough, the
  -- allocation takes that block, with fuel for more than `n` rounds.
  pub heap_allocate-first_fit :
      (c : ℕ)
      → Unfit m.bus (required_total_size size) heap_base_addr c n
      → n < fuel
      → is_header c ≡ true
      → fits m.bus (required_total_size size) c ≡ true
      → forth_heap_allocate fuel size m
        ≡ take_block c (required_total_size size) (size_of (flags_at m.bus c)) (next_at m.bus c) m
  unfolding forth_heap_allocate
  heap_allocate-first_fit c walk lt h f = find_block_first m _ fuel walk lt h f

  -- When all the `n` blocks of the chain are in use or too small, the allocation returns 0 and
  -- changes nothing, with fuel for more than `n` rounds.
  heap_allocate_full :
      Unfit m.bus (required_total_size size) heap_base_addr 0 n
      → n < fuel
      → forth_heap_allocate fuel size m ≡ ok 0 m
  unfolding forth_heap_allocate
  heap_allocate_full walk lt = find_block_end m _ fuel walk lt
