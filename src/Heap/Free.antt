-- ===== src/Heap/Free.antt =====
-- The checks of `forth_heap_free` before it walks along the chain.
use u_forth.Prelude.{
  ℕ, ◌+◌, ◌<◌, ◌≤◌, ◌≡◌, ◌⊎◌, inl, inr, Bool, Bool-cases, true, false, ◌||◌, ltb, leb, arith,
}
use u_forth.Bus.Access.{is_word, load}
use u_forth.Machine.{Machine, ok, stop, Stop, ◌>>=◌}
use u_forth.Machine.Laws.{read32_at, read32_out}
use u_forth.Words.Arith.{sub32}
use u_forth.Heap.{heap_base_addr, heap_managed_size, forth_heap_free, is_busy}

abbrev out_of_bounds : ℕ → Bool
out_of_bounds addr = ltb addr heap_base_addr || leb (heap_base_addr + heap_managed_size) addr

module _ (m : Machine) (fuel addr : ℕ) where
  -- An address outside the heap, or behind a header that is marked free, is refused with the error
  -- code 1, and nothing changes.
  heap_free-refused :
      (addr < heap_base_addr)
        ⊎ (heap_base_addr + heap_managed_size ≤ addr)
        ⊎ (is_word (sub32 addr 8) ≡ true) × (is_busy (load m.bus (sub32 addr 8)) ≡ false)
      → forth_heap_free fuel addr m ≡ ok 1 m
  unfolding forth_heap_free
  heap_free-refused (inl h) = ground arith
  heap_free-refused (inr (inl h)) = ground arith
  heap_free-refused (inr (inr (w, e))) = elim (Bool-cases (out_of_bounds addr)) [
    | inl h ↦ rw h
    | inr h ↦ rw (h, ◌>>=◌, read32_at (sub32 addr 8) m w, e)
  ]

  -- An address in the first 8 bytes of the heap passes the check of the bounds; the header that
  -- would stand before it lies below the SPI-RAM, and reading it ends the program.
  heap_free_first_bytes :
      heap_base_addr ≤ addr
      → addr < heap_base_addr + 8
      → forth_heap_free fuel addr m ≡ stop Stop.bus_fault
  unfolding forth_heap_free
  heap_free_first_bytes low high =
      let inside : (ltb addr heap_base_addr || leb (heap_base_addr + heap_managed_size) addr)
          ≡ false =
        ground arith in
      let below : is_word (sub32 addr 8) ≡ false = ground arith in
      rw (inside, ◌>>=◌, read32_out (sub32 addr 8) m below)
