-- ===== src/Heap/Coalesce.antt =====
-- The loop of `forth_heap_free` on a chain: it ends, and no free block is left beside a free one.
use u_forth.Prelude.{
  ℕ, zero, suc, ◌+◌, ◌%◌, ◌^◌, ◌≤◌, ◌<◌, ◌≡◌, ◌≢◌, refl, sym, ◌∙◌, ap, ◌⊎◌, inl, inr, Bool-cases,
  true, false, arith, &&-eq_true,
}
use u_forth.Bus.{Bus}
use u_forth.Bus.Access.{is_word, load, store}
use u_forth.Bus.Words.{load-store_ne, load-store_self}
use u_forth.Machine.{Machine, ok}
use u_forth.Machine.Laws.{with_bus}
use u_forth.Words.Arith.{add32}
use u_forth.Heap.{size_of, is_busy, coalesce}
use u_forth.Heap.Blocks.{is_header, flags_at, next_at}
use u_forth.Heap.Chain.{
  Chain, done, block, Chain-lt, SameFrom, SameBelow, next-address, Chain-SameFrom,
}
use u_forth.Heap.Merge.{
  with_merged, coalesce_at_end, coalesce_last, coalesce_merge, coalesce_busy, coalesce_before_busy,
}

-- A chain of which no two neighbours are free.
pub data Merged (b : Bus) : ℕ → ℕ → Type 0 where
  merged_end : Merged b 0 0
  merged_block :
      {a n : ℕ} (d : ℕ)
      → is_header a ≡ true
      → next_at b a ≡ d
      → (d ≡ 0) ⊎ (a + 8 ≤ d)
      → (is_busy (flags_at b a) ≡ true) ⊎ (d ≡ 0) ⊎ (is_busy (flags_at b d) ≡ true)
      → Merged b d n
      → Merged b a (suc n)

-- How the walk from `a` along `n` blocks ends.
pub record Ends (fuel : ℕ) (m : Machine) (a n : ℕ) : Type 0 where
  pub bus : Bus
  pub left : ℕ
  pub runs : coalesce fuel a m ≡ ok tt (with_bus m bus)
  pub merged : Merged bus a left
  pub fewer : left ≤ n
  pub below : SameBelow a m.bus bus
  pub head : is_busy (flags_at bus a) ≡ is_busy (flags_at m.bus a)

module _ (b : Bus) (c : ℕ) (h : is_header c ≡ true) where
  -- What the merged header leaves alone.
  with_merged-load :
      (x : ℕ) → is_word x ≡ true → x ≢ c → x ≢ c + 4 → load (with_merged b c) x ≡ load b x
  unfolding with_merged
  with_merged-load x w n n₄ =
      let (w', w₄) = &&-eq_true _ _ h in
      let e₄ = next-address c h in
      load-store_ne (store b c _) (add32 c 4) x _ w₄ w (omega (arith, e₄, n₄))
      ∙ load-store_ne b c x _ w' w n

  with_merged-next :
      next_at b (next_at b c) < 2 ^ 32 → next_at (with_merged b c) c ≡ next_at b (next_at b c)
  unfolding with_merged
  with_merged-next lt = load-store_self _ (add32 c 4) _ lt

  with_merged-free : is_busy (flags_at (with_merged b c) c) ≡ false
  unfolding with_merged
  with_merged-free =
      let (w', w₄) = &&-eq_true _ _ h in
      let e₄ = next-address c h in
      let s = add32 (add32 (size_of (flags_at b c)) (size_of (flags_at b (next_at b c)))) 8 in
      let same : flags_at (with_merged b c) c ≡ s =
        load-store_ne (store b c s) (add32 c 4) c _ w₄ w' (omega (arith, e₄))
        ∙ load-store_self b c s (omega arith) in
      let even : s % 2 ≡ 0 = omega arith in rw same (ground (arith, even))

null_no_header : (d : ℕ) → d ≡ 0 → is_header d ≡ true → ⊥
null_no_header d z h = ground (arith, h, z)

-- A block that stays as it is, in front of the rest of the walk.
module _ (fuel a d n : ℕ) (m : Machine) (h : is_header a ≡ true) (e : next_at m.bus a ≡ d)
    (up : a + 8 ≤ d) (step : coalesce (suc fuel) a m ≡ coalesce fuel d m) where
  Ends-past :
      (is_busy (flags_at m.bus a) ≡ true) ⊎ (is_busy (flags_at m.bus d) ≡ true)
      → Ends fuel m d n
      → Ends (suc fuel) m a (suc n)
  Ends-past apart r =
      let (w, w₄) = &&-eq_true _ _ h in
      let e₄ = next-address a h in
      let flags : flags_at r.bus a ≡ flags_at m.bus a = r.below a w (omega arith) in
      let next : next_at r.bus a ≡ d = r.below (add32 a 4) w₄ (omega (arith, e₄)) ∙ e in
      record {
        bus = r.bus;
        left = suc r.left;
        runs = step ∙ r.runs;
        merged = merged_block d h next (inr up) (by_case apart flags) r.merged;
        fewer = omega (arith, r.fewer);
        below = λ x wx lt. r.below x wx (omega arith);
        head = ap is_busy flags;
      }
    where
      by_case :
          (is_busy (flags_at m.bus a) ≡ true) ⊎ (is_busy (flags_at m.bus d) ≡ true)
          → flags_at r.bus a ≡ flags_at m.bus a
          → (is_busy (flags_at r.bus a) ≡ true) ⊎ (d ≡ 0) ⊎ (is_busy (flags_at r.bus d) ≡ true)
      by_case (inl k) flags = inl (ap is_busy flags ∙ k)
      by_case (inr k) flags = inr (inr (r.head ∙ k))

-- Two free blocks are joined in front of the rest of the walk.
module _ (fuel a d d' n : ℕ) (m : Machine) (h : is_header a ≡ true) (e : next_at m.bus a ≡ d)
    (up : a + 8 ≤ d) (h' : is_header d ≡ true) (e' : next_at m.bus d ≡ d')
    (up' : (d' ≡ 0) ⊎ (d + 8 ≤ d')) (rest : Chain m.bus d' n)
    (free : is_busy (flags_at m.bus a) ≡ false) (free' : is_busy (flags_at m.bus d) ≡ false) where
  abbrev joined : Machine
  joined = with_bus m (with_merged m.bus a)

  joined-same : SameFrom (a + 8) m.bus joined.bus
  joined-same x w le = with_merged-load m.bus a h x w (omega arith) (omega arith)

  joined-Chain : Chain joined.bus a (suc n)
  joined-Chain =
      let e₂ : next_at m.bus (next_at m.bus a) ≡ d' = ap (next_at m.bus) e ∙ e' in
      let behind : (d' ≡ 0) ⊎ (a + 8 ≤ d') = (ground (arith, up')) in
      let next : next_at joined.bus a ≡ d' =
        with_merged-next m.bus a h (rw e₂ (Chain-lt rest)) ∙ e₂ in
      block d' h next behind (Chain-SameFrom m.bus joined.bus (a + 8) joined-same rest behind)

  Ends-joined : Ends fuel joined a (suc n) → Ends (suc fuel) m a (suc (suc n))
  Ends-joined r = record {
    bus = r.bus;
    left = r.left;
    runs = coalesce_merge fuel a m h free (rw e h') (rw e free') ∙ r.runs;
    merged = r.merged;
    fewer = omega (arith, r.fewer);
    below = λ x w lt. r.below x w lt ∙ with_merged-load m.bus a h x w (omega arith) (omega arith);
    head = r.head ∙ with_merged-free m.bus a h ∙ sym free;
  }

pub coalesce-Ends : (fuel n a : ℕ) (m : Machine) → Chain m.bus a n → n < fuel → Ends fuel m a n
coalesce-Ends zero n a m chain lt = absurd (omega arith)
coalesce-Ends (suc fuel) zero a m done lt = record {
  bus = m.bus;
  left = 0;
  runs = coalesce_at_end fuel m;
  merged = merged_end;
  fewer = omega arith;
  below = λ x w lt. refl;
  head = refl;
}
coalesce-Ends (suc fuel) (suc n) a m (block d h e (inl z) (block d' h' e' up' rest)) lt =
    absurd (null_no_header d z h')
coalesce-Ends (suc zero) (suc n) a m (block d h e (inl z) done) lt = absurd (omega arith)
coalesce-Ends (suc (suc fuel)) (suc n) a m (block d h e (inl z) done) lt = record {
  bus = m.bus;
  left = 1;
  runs = coalesce_last (suc fuel) a m h e ∙ coalesce_at_end fuel m;
  merged = merged_block 0 h e (inl refl) (inr (inl refl)) merged_end;
  fewer = omega arith;
  below = λ x w lt. refl;
  head = refl;
}
coalesce-Ends (suc fuel) (suc n) a m (block d h e (inr up) done) lt = absurd (omega arith)
coalesce-Ends (suc fuel) (suc (suc n)) a m (block d h e (inr up) (block d' h' e' up' rest)) lt =
    let after = coalesce-Ends fuel (suc n) d m (block d' h' e' up' rest) (omega arith) in
    elim (Bool-cases (is_busy (flags_at m.bus a))) [
      | inl busy ↦
          let step = coalesce_busy fuel a m h busy ∙ ap (λ x. coalesce fuel x m) e in
          Ends-past fuel a d (suc n) m h e up step (inl busy) after
      | inr free ↦ elim (Bool-cases (is_busy (flags_at m.bus d))) [
        | inl busy ↦
            let step =
              coalesce_before_busy fuel a m h free (rw e h') (rw e busy)
              ∙ ap (λ x. coalesce fuel x m) e in
            Ends-past fuel a d (suc n) m h e up step (inr busy) after
        | inr free' ↦
            let chain = joined-Chain fuel a d d' n m h e up h' e' up' rest free free' in
            Ends-joined fuel a d d' n m h e up h' e' up' rest free free'
              (coalesce-Ends fuel (suc n) a _ chain (omega arith))
      ]
    ]
