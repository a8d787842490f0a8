-- ===== src/Heap/Fresh.antt =====
-- The heap as `heap_init` leaves it: the first allocation, and its release.
use u_forth.Prelude.{ℕ, suc, ◌+◌, ◌-◌, ◌%◌, ◌≤◌, ◌<◌, ◌≡◌, refl, sym, true, ◌∙◌, arith, &&-eq_true}
use u_forth.Bus.{Bus}
use u_forth.Bus.Access.{is_word, load, store}
use u_forth.Bus.Words.{load-store_self, load-store_ne}
use u_forth.Machine.{Machine, Action, ok, ◌>>=◌, ◌>>◌}
use u_forth.Machine.Laws.{with_bus, read32_at, write32_at}
use u_forth.Words.Arith.{add32}
use u_forth.Heap.{
  heap_base_addr, heap_managed_size, size_of, is_busy, heap_init, required_total_size,
  forth_heap_allocate, coalesce, forth_heap_free,
}
use u_forth.Heap.Blocks.{here, is_header, fits, flags_at, next_at, required_total_size-bounds}
use u_forth.Heap.FirstFit.{heap_allocate-first_fit}
use u_forth.Heap.Split.{Splits, take_block-Splits}
use u_forth.Heap.Merge.{with_merged, coalesce_at_end, coalesce_last, coalesce_merge}

unfoldable pub fresh : Bus → Bus
fresh b = store (store b heap_base_addr heap_managed_size) (heap_base_addr + 4) 0

pub heap_init_at : (m : Machine) → heap_init m ≡ ok tt (with_bus m (fresh m.bus))
unfolding heap_init fresh
heap_init_at m =
    rw (◌>>◌, ◌>>=◌, write32_at heap_base_addr m heap_managed_size refl)
      (write32_at (heap_base_addr + 4) (with_bus m (store m.bus heap_base_addr heap_managed_size)) 0
        refl)

pub fresh-flags : (b : Bus) → flags_at (fresh b) heap_base_addr ≡ heap_managed_size
unfolding fresh
fresh-flags b =
    load-store_ne (store b heap_base_addr heap_managed_size) (heap_base_addr + 4) heap_base_addr 0
      refl refl (omega arith)
    ∙ load-store_self b heap_base_addr heap_managed_size (omega arith)

pub fresh-next : (b : Bus) → next_at (fresh b) heap_base_addr ≡ 0
unfolding fresh
fresh-next b =
    load-store_self (store b heap_base_addr heap_managed_size) (heap_base_addr + 4) 0 (omega arith)

rest-is_header :
    (r : ℕ) → r % 4 ≡ 0 → r + 12 ≤ heap_managed_size → is_header (heap_base_addr + r) ≡ true
rest-is_header r e h = ground arith

module _ (m : Machine) (size fuel : ℕ) (small : size + 32 ≤ heap_managed_size) where
  required-bounds :
      (size + 8 ≤ required_total_size size)
      × (required_total_size size < size + 12)
      × (required_total_size size % 4 ≡ 0)
  required-bounds = required_total_size-bounds size (omega (arith, small))

  -- On a fresh heap an allocation that leaves 24 bytes free returns the address behind the first
  -- header and splits the one block there is.
  heap_init-allocate :
      (b' : Bus) × ((heap_init >> forth_heap_allocate (suc fuel) size) m
        ≡ ok (heap_base_addr + 8) (with_bus m b'))
      × Splits (fresh m.bus) heap_base_addr (required_total_size size) heap_managed_size 0 b'
  heap_init-allocate =
      let (low, high, aligned) = required-bounds in
      let r = required_total_size size in
      let m₁ = with_bus m (fresh m.bus) in
      let (b', run, splits) =
        take_block-Splits m₁ heap_base_addr r heap_managed_size 0 refl
          (rest-is_header r aligned (omega arith)) (omega arith) aligned (omega arith) refl
          (omega arith) (omega arith) in
      let fit : fits (fresh m.bus) r heap_base_addr ≡ true =
        rw (fresh-flags m.bus) (ground arith) in
      (
        b',
        (rw (◌>>◌, ◌>>=◌, heap_init_at m)
            (heap_allocate-first_fit m₁ size (suc fuel) 0 heap_base_addr here (omega arith) refl fit
              ∙ (rw (fresh-flags m.bus, fresh-next m.bus) run))),
        splits,
      )

-- Two blocks that fill the heap, the first in use and the second free, and the release of the first.
module _ (m : Machine) (b : Bus) (r fuel : ℕ) (low : 8 ≤ r) (aligned : r % 4 ≡ 0)
    (room : r + 12 ≤ heap_managed_size)
    (splits : Splits b heap_base_addr r heap_managed_size 0 m.bus) where
  released : Bus
  released = store m.bus heap_base_addr r

  released-flags : flags_at released heap_base_addr ≡ r
  unfolding released
  released-flags = load-store_self m.bus heap_base_addr r (omega arith)

  released-kept : (a : ℕ) → is_word a ≡ true → heap_base_addr < a → load released a ≡ load m.bus a
  unfolding released
  released-kept a w lt = load-store_ne m.bus heap_base_addr a r refl w (omega arith)

  released-next : next_at released heap_base_addr ≡ heap_base_addr + r
  released-next = released-kept (heap_base_addr + 4) refl (omega arith) ∙ splits.to_rest

  rest_header : is_header (heap_base_addr + r) ≡ true
  rest_header = rest-is_header r aligned room

  released-rest : flags_at released (heap_base_addr + r) ≡ heap_managed_size - r
  released-rest =
      released-kept (heap_base_addr + r) (&&-eq_true _ _ rest_header).0 (omega arith) ∙ splits.rest

  released-end : next_at released (heap_base_addr + r) ≡ 0
  released-end =
      released-kept (add32 (heap_base_addr + r) 4) (&&-eq_true _ _ rest_header).1 (omega arith)
      ∙ splits.to_next

  merged : Bus
  merged = with_merged released heap_base_addr

  merged-is :
      merged ≡ store (store released heap_base_addr (heap_managed_size + 8)) (heap_base_addr + 4) 0
  unfolding merged with_merged
  merged-is =
      let total : add32 (add32 (size_of r) (size_of (heap_managed_size - r))) 8
          ≡ heap_managed_size + 8 =
        omega arith in
      rw (released-next, released-flags, released-rest, released-end, total)

  merged-flags : flags_at merged heap_base_addr ≡ heap_managed_size + 8
  merged-flags = rw merged-is (
      load-store_ne (store released heap_base_addr (heap_managed_size + 8)) (heap_base_addr + 4)
        heap_base_addr 0 refl refl (omega arith)
      ∙ load-store_self released heap_base_addr (heap_managed_size + 8) (omega arith))

  merged-next : next_at merged heap_base_addr ≡ 0
  merged-next = rw merged-is (
      load-store_self (store released heap_base_addr (heap_managed_size + 8)) (heap_base_addr + 4) 0
        (omega arith))

  coalesce-run :
      coalesce (suc (suc (suc fuel))) heap_base_addr (with_bus m released)
      ≡ ok tt (with_bus m merged)
  unfolding merged
  coalesce-run =
      coalesce_merge (suc (suc fuel)) heap_base_addr (with_bus m released) refl
        (rw released-flags (ground arith)) (rw released-next rest_header)
        (rw (released-next, released-rest) (ground arith))
      ∙ coalesce_last (suc fuel) heap_base_addr (with_bus m merged) refl merged-next
      ∙ coalesce_at_end fuel (with_bus m merged)

  free-run :
      forth_heap_free (suc (suc (suc fuel))) (heap_base_addr + 8) m ≡ ok 0 (with_bus m merged)
  unfolding forth_heap_free released
  free-run =
      let busy : is_busy (r + 1) ≡ true = ground arith in
      let size : size_of (r + 1) ≡ r = omega arith in
      rw (
        ◌>>◌,
        ◌>>=◌,
        read32_at heap_base_addr m refl,
        splits.used,
        busy,
        size,
        write32_at heap_base_addr m r refl,
        coalesce-run,
      )

allocate_then :
    (m : Machine) (size fuel : ℕ) (next : ℕ → Action ℕ) {a : ℕ} {m' : Machine}
    → (heap_init >> forth_heap_allocate (suc fuel) size) m ≡ ok a m'
    → (heap_init >> (forth_heap_allocate (suc fuel) size >>= next)) m ≡ next a m'
allocate_then m size fuel next e =
    let allocated = forth_heap_allocate (suc fuel) size (with_bus m (fresh m.bus)) in
    let e' : allocated ≡ ok _ _ = sym (rw (◌>>◌, ◌>>=◌, heap_init_at m) refl) ∙ e in
    rw (◌>>◌, ◌>>=◌, heap_init_at m, e')

-- The first block of a fresh heap, allocated and freed at once, is joined with the rest into one free
-- block whose size is 8 bytes more than the heap has; three rounds of the walk are enough.
pub allocate-free_grows :
    (m : Machine) (size fuel : ℕ)
    → size + 32 ≤ heap_managed_size
    → (m' : Machine) × ((do
      heap_init
      addr ← forth_heap_allocate (suc (suc (suc fuel))) size
      forth_heap_free (suc (suc (suc fuel))) addr)
          m
        ≡ ok 0 m')
      × (flags_at m'.bus heap_base_addr ≡ heap_managed_size + 8)
      × (next_at m'.bus heap_base_addr ≡ 0)
allocate-free_grows m size fuel small =
    let (low, high, aligned) = required-bounds m size fuel small in
    let r = required_total_size size in
    let (b', run, splits) = heap_init-allocate m size (suc (suc fuel)) small in
    let m' = with_bus m b' in
    (
      with_bus m (merged m' (fresh m.bus) r fuel (omega arith) aligned (omega arith) splits),
      allocate_then m size (suc (suc fuel)) (forth_heap_free (suc (suc (suc fuel)))) run
          ∙ free-run m' (fresh m.bus) r fuel (omega arith) aligned (omega arith) splits,
      merged-flags m' (fresh m.bus) r fuel (omega arith) aligned (omega arith) splits,
      merged-next m' (fresh m.bus) r fuel (omega arith) aligned (omega arith) splits,
    )
