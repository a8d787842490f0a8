-- ===== src/Heap/Takes.antt =====
-- A block that the search of `forth_heap_allocate` takes, among blocks side by side.
use u_forth.Prelude.{
  ℕ, suc, ◌+◌, ◌-◌, ◌%◌, ◌^◌, ◌≤◌, ◌<◌, ◌≡◌, ◌≢◌, refl, sym, ◌∙◌, ap, subst, inl, inr, Bool-cases,
  true, false, leb, arith, &&-eq_true,
}
use u_forth.Bus.{Bus}
use u_forth.Bus.Access.{is_word, load, store}
use u_forth.Bus.Words.{load-store_ne, load-store_self}
use u_forth.Machine.{Machine, ok, ◌>>=◌, ◌>>◌}
use u_forth.Machine.Laws.{with_bus, write32_at}
use u_forth.Words.Arith.{add32}
use u_forth.Heap.{size_of, is_busy, take_block, find_block, heap_base_addr}
use u_forth.Heap.Blocks.{is_header, flags_at, next_at, fits}
use u_forth.Heap.Chain.{SameFrom, SameBelow, next-address}
use u_forth.Heap.FirstFit.{find_block-fits}
use u_forth.Heap.Split.{Splits, take_block-Splits}
use u_forth.Heap.Tiles.{
  Tiles, tile, IsBlock, here, there, heap_end, link, header-end, Tiles-le, Tiles-SameFrom,
  IsBlock-header,
}

-- How the search from `a` on takes a block.
pub record Takes (fuel required : ℕ) (m : Machine) (a n : ℕ) : Type 0 where
  pub taken : ℕ
  pub bus : Bus
  pub blocks : ℕ
  pub runs : find_block fuel required (link a) m ≡ ok (taken + 8) (with_bus m bus)
  pub on : IsBlock m.bus taken a
  pub was_free : is_busy (flags_at m.bus taken) ≡ false
  pub tiles : Tiles bus a blocks
  pub few : blocks ≤ n + 1
  pub used : is_busy (flags_at bus taken) ≡ true
  pub enough : required ≤ size_of (flags_at bus taken)
  pub others : (t : ℕ) → IsBlock m.bus t a → t ≢ taken → flags_at bus t ≡ flags_at m.bus t
  pub below : SameBelow a m.bus bus

pub link-header : (a : ℕ) → is_header a ≡ true → link a ≡ a
link-header a h = ground (arith, h)

-- The block at `a` that is found free and large enough.
module _ (m : Machine) (required a d n : ℕ) (o : heap_base_addr ≤ a) (h : is_header a ≡ true)
    (s : a + size_of (flags_at m.bus a) ≡ d) (l : 8 ≤ size_of (flags_at m.bus a))
    (e : next_at m.bus a ≡ link d) (rest : Tiles m.bus d n) (header : 8 ≤ required)
    (aligned : required % 4 ≡ 0) (free : is_busy (flags_at m.bus a) ≡ false)
    (large : required ≤ size_of (flags_at m.bus a)) where
  abbrev size : ℕ
  size = size_of (flags_at m.bus a)

  a_word : is_word a ≡ true
  a_word = (&&-eq_true _ _ h).0

  a_word₄ : is_word (add32 a 4) ≡ true
  a_word₄ = (&&-eq_true _ _ h).1

  size-le : a + size ≤ heap_end
  size-le = omega (arith, s, Tiles-le rest)

  -- The blocks behind it, on a bus that keeps their words.
  rest-kept : (b : Bus) → SameFrom d m.bus b → Tiles b d n
  rest-kept b same = Tiles-SameFrom m.bus b d same rest (omega arith)

  -- The headers of the other blocks are behind it.
  other_block : (t : ℕ) → IsBlock m.bus t a → t ≢ a → (is_header t ≡ true) × (d ≤ t)
  other_block t (here h') ne = absurd (ne refl)
  other_block t (there d' h' s' on) ne =
      IsBlock-header rest (subst (IsBlock m.bus t) (sym s' ∙ s) on)

  abbrev whole : Bus
  whole = store m.bus a (size + 1)

  whole-flags : flags_at whole a ≡ size + 1
  whole-flags = load-store_self m.bus a (size + 1) (omega (arith, size-le))

  whole-same : (x : ℕ) → is_word x ≡ true → x ≢ a → load whole x ≡ load m.bus x
  whole-same x w ne = load-store_ne m.bus a x (size + 1) a_word w ne

  take_block-whole :
      leb (required + 12) size ≡ false
      → take_block a required size (next_at m.bus a) m ≡ ok (a + 8) (with_bus m whole)
  unfolding take_block
  take_block-whole tight =
      let small : leb (add32 required 12) size ≡ false = ground (arith, size-le, large) in
      let result : add32 a 8 ≡ a + 8 = omega (arith, (header-end a h).0) in
      rw (◌>>◌, ◌>>=◌, small, write32_at a m (size + 1) a_word, result) refl

  whole-size : size_of (flags_at whole a) ≡ size
  whole-size = ap size_of whole-flags ∙ (omega arith)

  -- Without room for a second block it is given whole.
  whole-Takes :
      (fuel : ℕ)
      → find_block fuel required (link a) m ≡ take_block a required size (next_at m.bus a) m
      → leb (required + 12) size ≡ false
      → Takes fuel required m a (suc n)
  whole-Takes fuel found tight =
      let e₄ = next-address a h in
      let odd : is_busy (size + 1) ≡ true = ground arith in
      let next : next_at whole a ≡ next_at m.bus a =
        whole-same (add32 a 4) a_word₄ (omega (arith, e₄)) in
      record {
        taken = a;
        bus = whole;
        blocks = suc n;
        runs = found ∙ take_block-whole tight;
        on = here h;
        was_free = free;
        tiles =
            tile d o h (rw whole-size s) (rw whole-size l) (next ∙ e)
              (rest-kept whole λ x w le. whole-same x w (omega (arith, s)));
        few = omega arith;
        used = ap is_busy whole-flags ∙ odd;
        enough = rw whole-size large;
        others = λ t on ne. whole-same t (&&-eq_true _ _ (other_block t on ne).0).0 ne;
        below = λ x w lt. whole-same x w (omega arith);
      }

  -- With room for one it is split.
  module _ (b : Bus) (split : Splits m.bus a required size (next_at m.bus a) b)
      (room : required + 12 ≤ size) (rest_header : is_header (a + required) ≡ true) where
    used_size : size_of (flags_at b a) ≡ required
    used_size = ap size_of split.used ∙ (omega arith)

    left_size : size_of (flags_at b (a + required)) ≡ size - required
    left_size = ap size_of split.rest ∙ (omega arith)

    split-same : SameFrom d m.bus b
    split-same x w le =
        split.others x w (omega (arith, s)) (omega (arith, s)) (omega (arith, s)) (omega (arith, s))

    split-Tiles : Tiles b a (suc (suc n))
    split-Tiles =
        let next : next_at b a ≡ link (a + required) = split.to_rest ∙ (ground (arith, size-le)) in
        let end : a + required + size_of (flags_at b (a + required)) ≡ d =
          omega (arith, s, left_size) in
        tile (a + required) o h (omega (arith, used_size)) (omega (arith, used_size)) next (
          tile d (omega (arith, o)) rest_header end (omega (arith, left_size)) (split.to_next ∙ e)
            (rest-kept b split-same))

    split-Takes :
        (fuel : ℕ)
        → find_block fuel required (link a) m ≡ ok (a + 8) (with_bus m b)
        → Takes fuel required m a (suc n)
    split-Takes fuel runs = record {
      taken = a;
      bus = b;
      blocks = suc (suc n);
      runs = runs;
      on = here h;
      was_free = free;
      tiles = split-Tiles;
      few = omega arith;
      used = ap is_busy split.used ∙ (ground arith);
      enough = omega (arith, used_size);
      others =
          λ t on ne. let (ht, le) = other_block t on ne in split-same t (&&-eq_true _ _ ht).0 le;
      below = λ x w lt. split.others x w (omega arith) (omega arith) (omega arith) (omega arith);
    }

  pub found-Takes : (fuel : ℕ) → Takes (suc fuel) required m a (suc n)
  found-Takes fuel =
      let does_fit : fits m.bus required a ≡ true = ground (arith, free, large) in
      let found =
        ap (λ x. find_block (suc fuel) required x m) (link-header a h)
        ∙ find_block-fits m required fuel a h does_fit in
      let (high, low) = header-end a h in
      elim (Bool-cases (leb (required + 12) size)) [
        | inr tight ↦ whole-Takes (suc fuel) found tight
        | inl roomy ↦
            let room : required + 12 ≤ size = ground arith in
            let rest_header : is_header (a + required) ≡ true =
              ground (arith, size-le, low, high, o) in
            let next-lt : next_at m.bus a < 2 ^ 32 = rw e (ground (arith, Tiles-le rest)) in
            let (b, runs, split) =
              take_block-Splits m a required size (next_at m.bus a) h rest_header header aligned
                room (omega arith) (omega (arith, size-le)) next-lt in
            split-Takes b split room rest_header (suc fuel) (found ∙ runs)
      ]
