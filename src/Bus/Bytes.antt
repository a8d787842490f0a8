-- ===== src/Bus/Bytes.antt =====
-- Bytes on the bus: what a byte write and a word write do to every byte.
use u_forth.Prelude.{
  ℕ, ◌+◌, ◌/◌, ◌%◌, ◌^◌, ◌<◌, ◌≤◌, ◌≡◌, ◌⊎◌, inl, inr, true, some, arith, Bool-cases, ◌==◌,
  if◌then◌else◌,
}
use u_forth.Bus.{Bus, in_fast_sram, hw_read8, hw_write32}
use u_forth.Bus.Access.{is_byte, is_word, peek, poke, store, hw_read8-peek, hw_write32-store}
use u_forth.Bus.Words.{HoldsBytes}

pub peek-poke :
    (b : Bus) (a a' v : ℕ)
    → is_byte a ≡ true
    → is_byte a' ≡ true
    → peek (poke b a v) a' ≡ (if a' == a then v else peek b a')
unfolding peek poke
peek-poke b a a' v p q = ground arith

pub poke-HoldsBytes : (b : Bus) (a v : ℕ) → v < 256 → HoldsBytes b → HoldsBytes (poke b a v)
unfolding poke
poke-HoldsBytes b a v lt h = elim (Bool-cases (in_fast_sram a)) [
  | inl e ↦ rw e (record { fast = λ i. ground (arith, h.fast i); ext = h.ext })
  | inr e ↦ rw e (record { fast = h.fast; ext = λ i. ground (arith, h.ext i) })
]

peek-store_inside :
    (b : Bus) (a v : ℕ)
    → is_word a ≡ true
    → (peek (store b a v) a ≡ v % 2 ^ 8)
      × (peek (store b a v) (a + 1) ≡ v / 2 ^ 8 % 2 ^ 8)
      × (peek (store b a v) (a + 2) ≡ v / 2 ^ 16 % 2 ^ 8)
      × (peek (store b a v) (a + 3) ≡ v / 2 ^ 24 % 2 ^ 8)
unfolding peek store
peek-store_inside b a v w = ground arith

peek-store_outside :
    (b : Bus) (a a' v : ℕ)
    → is_word a ≡ true
    → is_byte a' ≡ true
    → (a' < a) ⊎ (a + 4 ≤ a')
    → peek (store b a v) a' ≡ peek b a'
unfolding peek store
peek-store_outside b a a' v w p (inl h) = ground arith
peek-store_outside b a a' v w p (inr h) = ground arith

is_byte-in_word :
    (a : ℕ)
    → is_word a ≡ true
    → (is_byte a ≡ true)
      × (is_byte (a + 1) ≡ true)
      × (is_byte (a + 2) ≡ true)
      × (is_byte (a + 3) ≡ true)
is_byte-in_word a w = ground arith

-- A 32-bit write to a word of the bus puts the value's four bytes there, the low one first, and
-- changes no other byte that can be read.
hw_write32-read8 :
    (a v : ℕ) (b : Bus)
    → is_word a ≡ true
    → (b' : Bus) × (hw_write32 a v b ≡ some b')
      × (hw_read8 a b' ≡ some (v % 2 ^ 8))
      × (hw_read8 (a + 1) b' ≡ some (v / 2 ^ 8 % 2 ^ 8))
      × (hw_read8 (a + 2) b' ≡ some (v / 2 ^ 16 % 2 ^ 8))
      × (hw_read8 (a + 3) b' ≡ some (v / 2 ^ 24 % 2 ^ 8))
      × ((a' : ℕ) → (a' < a) ⊎ (a + 4 ≤ a') → hw_read8 a' b' ≡ hw_read8 a' b)
hw_write32-read8 a v b w =
    let (p, q, r, s) = peek-store_inside b a v w in
    let (i, j, k, l) = is_byte-in_word a w in
    (
      store b a v,
      rw (hw_write32-store a v b, w),
      rw (hw_read8-peek a (store b a v), i, p),
      rw (hw_read8-peek (a + 1) (store b a v), j, q),
      rw (hw_read8-peek (a + 2) (store b a v), k, r),
      rw (hw_read8-peek (a + 3) (store b a v), l, s),
      λ a' apart. elim (Bool-cases (is_byte a')) [
        | inl w' ↦ rw (
          hw_read8-peek a' (store b a v),
          hw_read8-peek a' b,
          w',
          peek-store_outside b a a' v w w' apart,
        )
        | inr out ↦ rw (hw_read8-peek a' (store b a v), hw_read8-peek a' b, out)
      ],
    )
