-- ===== src/Heap/Release.antt =====
-- FREE of a block of the chain.
use u_forth.Prelude.{
  ℕ, ◌+◌, ◌≤◌, ◌<◌, ◌≡◌, ◌≢◌, refl, sym, ◌∙◌, subst, ◌⊎◌, inl, inr, true, false, ◌||◌, ltb, leb,
  arith, &&-eq_true,
}
use u_forth.Bus.{Bus}
use u_forth.Bus.Access.{is_word, store}
use u_forth.Bus.Words.{load-store_ne}
use u_forth.Machine.{Machine, ok, ◌>>=◌, ◌>>◌}
use u_forth.Machine.Laws.{with_bus, read32_at, write32_at}
use u_forth.Words.Arith.{add32, sub32}
use u_forth.Heap.{size_of, is_busy, forth_heap_free, heap_base_addr, heap_managed_size}
use u_forth.Heap.Blocks.{is_header, flags_at, next_at}
use u_forth.Heap.Chain.{
  Chain, done, block, IsOn, first, later, SameFrom, next-address, Chain-SameFrom,
}
use u_forth.Heap.Coalesce.{Merged, coalesce-Ends}

IsOn-le : {b : Bus} {t a : ℕ} → IsOn b t a → a ≤ t
IsOn-le first = omega arith
IsOn-le (later d h up e on) = omega (arith, IsOn-le on)

-- The headers of a chain are behind its start.
IsOn-header :
    {b : Bus} {t a n : ℕ} → Chain b a n → IsOn b t a → t ≢ 0 → (is_header t ≡ true) × (a ≤ t)
IsOn-header done first ne = absurd (ne refl)
IsOn-header done (later c h up e on) ne = absurd (cc)
IsOn-header (block d h e up rest) first ne = (h, omega arith)
IsOn-header {b} {t} (block d h e up rest) (later c h' up' e' on) ne =
    let (header, le) = IsOn-header rest (subst (IsOn b t) (sym e' ∙ e) on) ne in
    (header, omega (arith, sym e' ∙ e))

-- Another size in a header leaves the chain.
module _ (b : Bus) (t v : ℕ) (ht : is_header t ≡ true) where
  same_behind : (lo : ℕ) → t + 4 ≤ lo → SameFrom lo b (store b t v)
  same_behind lo le x w le' = load-store_ne b t x v (&&-eq_true _ _ ht).0 w (omega arith)

  same_next :
      (a : ℕ) → is_header a ≡ true → (t ≡ a) ⊎ (a + 8 ≤ t) → next_at (store b t v) a ≡ next_at b a
  same_next a h apart =
      let e₄ = next-address a h in
      load-store_ne b t (add32 a 4) v (&&-eq_true _ _ ht).0 (&&-eq_true _ _ h).1
        (ground (arith, e₄, apart))

  Chain-store : {a n : ℕ} → Chain b a n → IsOn b t a → Chain (store b t v) a n
  Chain-store done on = done
  Chain-store {a = a} (block d h e up rest) first =
      let behind : (d ≡ 0) ⊎ (t + 4 ≤ d) = ground (arith, up) in
      block d h (same_next t ht (inl refl) ∙ e) up
        (Chain-SameFrom b _ (t + 4) (same_behind (t + 4) (omega arith)) rest behind)
  Chain-store {a = a} (block d h e up rest) (later c h' up' e' on) =
      let on' : IsOn b t d = subst (IsOn b t) (sym e' ∙ e) on in
      let (header, le) = IsOn-header rest on' (not_null ht) in
      block d h (same_next a h (inr (omega (arith, sym e' ∙ e))) ∙ e) up (Chain-store rest on')
    where
      not_null : is_header t ≡ true → t ≢ 0
      not_null ht z = ground (arith, z)

module _ (m : Machine) (fuel n t : ℕ) where
  -- FREE of a block in use, at an address inside the heap: on a chain of `n` headers, each at least 8 bytes
  -- behind the one before, that ends in 0, and with fuel for more than `n` rounds, the call returns 0. It
  -- leaves such a chain of no more blocks, of which no two neighbours are free, and changes nothing but
  -- memory.
  pub heap_free-Merged :
      Chain m.bus heap_base_addr n
      → IsOn m.bus t heap_base_addr
      → t + 8 < heap_base_addr + heap_managed_size
      → is_busy (flags_at m.bus t) ≡ true
      → n < fuel
      → (b : Bus) × (k : ℕ) × (forth_heap_free fuel (t + 8) m ≡ ok 0 (with_bus m b))
        × Merged b heap_base_addr k
        × (k ≤ n)
  unfolding forth_heap_free
  heap_free-Merged chain on inside busy lt =
      let low : heap_base_addr ≤ t = IsOn-le on in
      let (ht, _) = IsOn-header chain on (omega (arith, low)) in
      let w : is_word t ≡ true = (&&-eq_true _ _ ht).0 in
      let within : (ltb (t + 8) heap_base_addr || leb (heap_base_addr + heap_managed_size) (t + 8))
          ≡ false =
        ground (arith, low) in
      let target : sub32 (t + 8) 8 ≡ t = omega (arith, low) in
      let freed = with_bus m (store m.bus t (size_of (flags_at m.bus t))) in
      let after =
        coalesce-Ends fuel n heap_base_addr freed (Chain-store m.bus t _ ht chain on) lt in
      (
        after.bus,
        after.left,
        rw
            (
              within,
              ◌>>◌,
              ◌>>=◌,
              target,
              read32_at t m w,
              busy,
              target,
              write32_at t m (size_of (flags_at m.bus t)) w,
              after.runs,
            )
            refl,
        after.merged,
        after.fewer,
      )
