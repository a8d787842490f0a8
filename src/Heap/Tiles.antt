-- ===== src/Heap/Tiles.antt =====
-- The blocks of the heap side by side, from its start to its end, as `heap_init` and `take_block` lay them.
use u_forth.Prelude.{
  ℕ, suc, ◌+◌, ◌%◌, ◌≤◌, ◌≡◌, refl, sym, ◌∙◌, subst, true, ◌==◌, if◌then◌else◌, arith, &&-eq_true,
}
use u_forth.Bus.{Bus}
use u_forth.Words.Arith.{add32}
use u_forth.Heap.{heap_base_addr, size_of}
use u_forth.Heap.Blocks.{is_header, flags_at, next_at}
use u_forth.Heap.Chain.{SameFrom, next-address}

abbrev pub heap_end : ℕ
heap_end = 0x60100000

-- What a header holds that is followed by address `d`: 0 at the end of the heap.
abbrev pub link : ℕ → ℕ
link d = if d == heap_end then 0 else d

-- `n` blocks fill the heap from address `a` on.
pub data Tiles (b : Bus) : ℕ → ℕ → Type 0 where
  filled : Tiles b heap_end 0
  tile :
      {a n : ℕ} (d : ℕ)
      → heap_base_addr ≤ a
      → is_header a ≡ true
      → a + size_of (flags_at b a) ≡ d
      → 8 ≤ size_of (flags_at b a)
      → next_at b a ≡ link d
      → Tiles b d n
      → Tiles b a (suc n)

-- `t` is the header of a block from `a` on.
pub data IsBlock (b : Bus) (t : ℕ) : ℕ → Type 0 where
  here : is_header t ≡ true → IsBlock b t t
  there :
      {a : ℕ} (d : ℕ)
      → is_header a ≡ true
      → a + size_of (flags_at b a) ≡ d
      → IsBlock b t d
      → IsBlock b t a

pub header-end : (a : ℕ) → is_header a ≡ true → (a + 8 ≤ heap_end) × (a % 4 ≡ 0)
header-end a h = ground (arith, h)

pub Tiles-le : {b : Bus} {a n : ℕ} → Tiles b a n → a ≤ heap_end
Tiles-le filled = omega arith
Tiles-le {a = a} (tile d o h s l e rest) = omega (arith, header-end a h)

-- The end of a block is aligned.
Tiles-aligned : {b : Bus} {a n : ℕ} → Tiles b a n → a % 4 ≡ 0
Tiles-aligned filled = refl
Tiles-aligned {a = a} (tile d o h s l e rest) = (header-end a h).1

pub Tiles-SameFrom :
    (b b' : Bus) (lo : ℕ) → SameFrom lo b b' → {a n : ℕ} → Tiles b a n → lo ≤ a → Tiles b' a n
Tiles-SameFrom b b' lo same filled le = filled
Tiles-SameFrom b b' lo same {a = a} (tile d o h s l e rest) le =
    let (w, w₄) = &&-eq_true _ _ h in
    let e₄ = next-address a h in
    let flags : flags_at b' a ≡ flags_at b a = same a w le in
    let next : next_at b' a ≡ next_at b a = same (add32 a 4) w₄ (omega (arith, e₄)) in
    tile d o h (rw flags s) (rw flags l) (next ∙ e)
      (Tiles-SameFrom b b' lo same rest (omega (arith, s)))

-- The header of a block is behind where the blocks start.
pub IsBlock-header :
    {b : Bus} {t a n : ℕ} → Tiles b a n → IsBlock b t a → (is_header t ≡ true) × (a ≤ t)
IsBlock-header tiles (here h) = (h, omega arith)
IsBlock-header filled (there d h s on) = absurd (cc)
IsBlock-header {b} {t} (tile d o h s l e rest) (there d' h' s' on) =
    let (header, le) = IsBlock-header rest (subst (IsBlock b t) (sym s' ∙ s) on) in
    (header, omega (arith, s))
