-- ===== src/Heap/Search.antt =====
-- The search of `forth_heap_allocate` on blocks side by side: what it hands out, and what it leaves.
use u_forth.Prelude.{
  ℕ, zero, suc, ◌+◌, ◌%◌, ◌^◌, ◌≤◌, ◌<◌, ◌≡◌, ◌≢◌, refl, sym, ◌∙◌, ap, subst, ◌⊎◌, inl, inr,
  Bool-cases, true, false, arith, &&-eq_true,
}
use u_forth.Bus.{Bus}
use u_forth.Machine.{Machine, ok}
use u_forth.Machine.Laws.{with_bus}
use u_forth.Words.Arith.{add32}
use u_forth.Heap.{
  size_of, is_busy, find_block, forth_heap_allocate, required_total_size, heap_base_addr,
}
use u_forth.Heap.Blocks.{is_header, flags_at, next_at, fits}
use u_forth.Heap.Chain.{next-address}
use u_forth.Heap.FirstFit.{find_block_no_fit}
use u_forth.Heap.Tiles.{Tiles, filled, tile, IsBlock, here, there, heap_end, link}
use u_forth.Heap.Blocks.{required_total_size-bounds}
use u_forth.Heap.Takes.{Takes, link-header, found-Takes}

-- The search goes past a block.
past-Takes :
    (m : Machine) (required fuel a d n : ℕ)
    → is_header a ≡ true
    → a + size_of (flags_at m.bus a) ≡ d
    → 8 ≤ size_of (flags_at m.bus a)
    → heap_base_addr ≤ a
    → next_at m.bus a ≡ link d
    → find_block (suc fuel) required (link a) m ≡ find_block fuel required (link d) m
    → Takes fuel required m d n
    → Takes (suc fuel) required m a (suc n)
past-Takes m required fuel a d n h s l o e step r =
    let (w, w₄) = &&-eq_true _ _ h in
    let e₄ = next-address a h in
    let flags : flags_at r.bus a ≡ flags_at m.bus a = r.below a w (omega (arith, s)) in
    let next : next_at r.bus a ≡ next_at m.bus a = r.below (add32 a 4) w₄ (omega (arith, s, e₄)) in
    record {
      taken = r.taken;
      bus = r.bus;
      blocks = suc r.blocks;
      runs = step ∙ r.runs;
      on = there d h s r.on;
      was_free = r.was_free;
      tiles = tile d o h (rw flags s) (rw flags l) (next ∙ e) r.tiles;
      few = omega (arith, r.few);
      used = r.used;
      enough = r.enough;
      others = λ t on. by_block t on flags;
      below = λ x w' lt. r.below x w' (omega (arith, s));
    }
  where
    by_block :
        (t : ℕ)
        → IsBlock m.bus t a
        → flags_at r.bus a ≡ flags_at m.bus a
        → t ≢ r.taken
        → flags_at r.bus t ≡ flags_at m.bus t
    by_block t (here h') flags ne = flags
    by_block t (there d' h' s' on) flags ne =
        r.others t (subst (IsBlock m.bus t) (sym s' ∙ s) on) ne

-- Nothing fits, and nothing is changed.
abbrev Full : ℕ → ℕ → Machine → ℕ → Type 0
Full fuel required m a =
    (find_block fuel required (link a) m ≡ ok 0 m)
    × ((t : ℕ) → IsBlock m.bus t a → fits m.bus required t ≡ false)

module _ (m : Machine) (required : ℕ) (header : 8 ≤ required) (aligned : required % 4 ≡ 0) where
  Full-past :
      (fuel a d : ℕ)
      → a + size_of (flags_at m.bus a) ≡ d
      → fits m.bus required a ≡ false
      → find_block (suc fuel) required (link a) m ≡ find_block fuel required (link d) m
      → Full fuel required m d
      → Full (suc fuel) required m a
  Full-past fuel a d s unfit step (runs, rest) = (step ∙ runs, by_block)
    where
      by_block : (t : ℕ) → IsBlock m.bus t a → fits m.bus required t ≡ false
      by_block t (here h') = unfit
      by_block t (there d' h' s' on) = rest t (subst (IsBlock m.bus t) (sym s' ∙ s) on)

  find_block-Takes :
      (fuel n a : ℕ)
      → Tiles m.bus a n
      → n < fuel
      → Full fuel required m a ⊎ Takes fuel required m a n
  unfolding find_block
  find_block-Takes zero n a tiles lt = absurd (omega arith)
  find_block-Takes (suc fuel) zero a filled lt = inl (refl, no_block)
    where
      no_block : (t : ℕ) → IsBlock m.bus t heap_end → fits m.bus required t ≡ false
      no_block t (here h) = absurd (cc)
      no_block t (there d h s on) = absurd (cc)
  find_block-Takes (suc fuel) (suc n) a (tile d o h s l e rest) lt =
      elim (Bool-cases (fits m.bus required a)) [
        | inl fit ↦
            let free : is_busy (flags_at m.bus a) ≡ false = ground (arith, fit) in
            let large : required ≤ size_of (flags_at m.bus a) = ground (arith, fit) in
            inr (found-Takes m required a d n o h s l e rest header aligned free large fuel)
        | inr unfit ↦
            let step =
              ap (λ x. find_block (suc fuel) required x m) (link-header a h)
              ∙ find_block_no_fit m required fuel a h unfit
              ∙ ap (λ x. find_block fuel required x m) e in
            elim (find_block-Takes fuel n d rest (omega arith)) [
              | inl full ↦ inl (Full-past fuel a d s unfit step full)
              | inr r ↦ inr (past-Takes m required fuel a d n h s l o e step r)
            ]
      ]

-- On blocks that fill the heap side by side, with fuel for more than their number of rounds, and for a
-- request of which the rounded size does not wrap around: the allocation returns 0 and changes nothing,
-- and then no free block holds the request with its header; or it returns the address behind the header of
-- a block that was free, which is then in use and holds the request. In that case the blocks fill the heap
-- side by side as before, and the header word of no other block is changed.
pub heap_allocate-Tiles :
    (m : Machine) (fuel n bytes : ℕ)
    → Tiles m.bus heap_base_addr n
    → n < fuel
    → bytes + 11 < 2 ^ 32
    → (forth_heap_allocate fuel bytes m ≡ ok 0 m)
        × ((t : ℕ)
            → IsBlock m.bus t heap_base_addr
            → fits m.bus (required_total_size bytes) t ≡ false)
      ⊎ (t : ℕ) × (b : Bus) × (k : ℕ) × (forth_heap_allocate fuel bytes m
          ≡ ok (t + 8) (with_bus m b))
        × IsBlock m.bus t heap_base_addr
        × (is_busy (flags_at m.bus t) ≡ false)
        × (is_busy (flags_at b t) ≡ true)
        × (bytes + 8 ≤ size_of (flags_at b t))
        × Tiles b heap_base_addr k
        × ((u : ℕ) → IsBlock m.bus u heap_base_addr → u ≢ t → flags_at b u ≡ flags_at m.bus u)
unfolding forth_heap_allocate
heap_allocate-Tiles m fuel n bytes tiles lt h =
    let (low, _, aligned) = required_total_size-bounds bytes h in
    elim (find_block-Takes m (required_total_size bytes) (omega (arith, low)) aligned fuel n
      heap_base_addr tiles lt) [
        | inl full ↦ inl full
        | inr r ↦ inr (
          r.taken,
          r.bus,
          r.blocks,
          r.runs,
          r.on,
          r.was_free,
          r.used,
          omega (arith, low, r.enough),
          r.tiles,
          r.others,
        )
      ]
