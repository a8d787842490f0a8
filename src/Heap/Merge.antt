-- ===== src/Heap/Merge.antt =====
-- The rounds of the loop of `forth_heap_free`.
use u_forth.Prelude.{ℕ, suc, ◌≡◌, refl, Bool-cases, inl, inr, true, false, ◌==◌, arith, &&-eq_true}
use u_forth.Bus.{Bus}
use u_forth.Bus.Access.{store}
use u_forth.Machine.{Machine, ok, ◌>>=◌, ◌>>◌}
use u_forth.Machine.Laws.{with_bus, read32_at, write32_at}
use u_forth.Words.Arith.{add32}
use u_forth.Heap.{size_of, is_busy, coalesce}
use u_forth.Heap.Blocks.{is_header, flags_at, next_at}

not_null : (a : ℕ) → is_header a ≡ true → (a == 0) ≡ false
not_null a h = ground arith

-- The header of the block at `c` after it took in the block at `next_at b c`.
unfoldable pub with_merged : Bus → ℕ → Bus
with_merged b c =
    let d = next_at b c in
    let merged_size = add32 (add32 (size_of (flags_at b c)) (size_of (flags_at b d))) 8 in
    store (store b c merged_size) (add32 c 4) (next_at b d)

pub coalesce_at_end : (fuel : ℕ) (m : Machine) → coalesce (suc fuel) 0 m ≡ ok tt m
unfolding coalesce
coalesce_at_end fuel m = refl

module _ (fuel c : ℕ) (m : Machine) (h : is_header c ≡ true) where
  -- A block with no successor ends the walk.
  pub coalesce_last : next_at m.bus c ≡ 0 → coalesce (suc fuel) c m ≡ coalesce fuel 0 m
  unfolding coalesce
  coalesce_last e =
      let (w, w₄) = &&-eq_true _ _ h in
      elim (Bool-cases (is_busy (flags_at m.bus c))) [
        | inl b ↦ rw (not_null c h, ◌>>=◌, read32_at c m w, read32_at (add32 c 4) m w₄, e, b)
        | inr b ↦ rw (not_null c h, ◌>>=◌, read32_at c m w, read32_at (add32 c 4) m w₄, e, b)
      ]

  -- A free block takes in a free successor, and the walk stays.
  pub coalesce_merge :
      is_busy (flags_at m.bus c) ≡ false
      → is_header (next_at m.bus c) ≡ true
      → is_busy (flags_at m.bus (next_at m.bus c)) ≡ false
      → coalesce (suc fuel) c m ≡ coalesce fuel c (with_bus m (with_merged m.bus c))
  unfolding coalesce with_merged
  coalesce_merge free h' free' =
      let (w, w₄) = &&-eq_true _ _ h in
      let (w', w₄') = &&-eq_true _ _ h' in
      let d = next_at m.bus c in
      let merged_size = add32 (add32 (size_of (flags_at m.bus c)) (size_of (flags_at m.bus d))) 8 in
      rw (
        not_null c h,
        ◌>>◌,
        ◌>>=◌,
        read32_at c m w,
        read32_at (add32 c 4) m w₄,
        free,
        not_null d h',
        read32_at d m w',
        free',
        read32_at (add32 d 4) m w₄',
        write32_at c m merged_size w,
        write32_at (add32 c 4) (with_bus m (store m.bus c merged_size)) (next_at m.bus d) w₄,
      )

  -- A block in use is passed.
  pub coalesce_busy :
      is_busy (flags_at m.bus c) ≡ true
      → coalesce (suc fuel) c m ≡ coalesce fuel (next_at m.bus c) m
  unfolding coalesce
  coalesce_busy busy =
      let (w, w₄) = &&-eq_true _ _ h in
      rw (not_null c h, ◌>>=◌, read32_at c m w, read32_at (add32 c 4) m w₄, busy) refl

  -- So is a free block with a successor in use.
  pub coalesce_before_busy :
      is_busy (flags_at m.bus c) ≡ false
      → is_header (next_at m.bus c) ≡ true
      → is_busy (flags_at m.bus (next_at m.bus c)) ≡ true
      → coalesce (suc fuel) c m ≡ coalesce fuel (next_at m.bus c) m
  unfolding coalesce
  coalesce_before_busy free h' busy =
      let (w, w₄) = &&-eq_true _ _ h in
      let (w', w₄') = &&-eq_true _ _ h' in
      let d = next_at m.bus c in
      rw
        (
          not_null c h,
          ◌>>=◌,
          read32_at c m w,
          read32_at (add32 c 4) m w₄,
          free,
          not_null d h',
          read32_at d m w',
          busy,
        )
        refl
