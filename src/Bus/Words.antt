-- ===== src/Bus/Words.antt =====
-- 32-bit words on the bus: a store is read back, and spares every other word.
use u_forth.Prelude.{
  ℕ, ◌+◌, ◌-◌, ◌%◌, ◌^◌, ◌<◌, ◌≡◌, ◌≢◌, inl, inr, true, false, none, some, arith, Bool-cases, ◌==◌,
  if◌then◌else◌,
}
use u_forth.Bus.{
  Bus, in_fast_sram, fast_sram_base, ext_spi_ram_base, get4, put4, hw_read32, hw_write32,
}
use u_forth.Bus.Access.{is_word, load, store, hw_read32-load, hw_write32-store}

get4-put4_self : (f : ℕ → ℕ) (i v : ℕ) → v < 2 ^ 32 → get4 (put4 f i v) i ≡ v
get4-put4_self f i v h = ground arith

get4-put4_apart :
    (f : ℕ → ℕ) (i j v : ℕ) → i % 4 ≡ 0 → j % 4 ≡ 0 → j ≢ i → get4 (put4 f i v) j ≡ get4 f j
get4-put4_apart f i j v p q h = ground arith

pub load-store_self : (b : Bus) (a v : ℕ) → v < 2 ^ 32 → load (store b a v) a ≡ v
unfolding load store
load-store_self b a v h = ground arith

pub load-store_ne :
    (b : Bus) (a a' v : ℕ)
    → is_word a ≡ true
    → is_word a' ≡ true
    → a' ≢ a
    → load (store b a v) a' ≡ load b a'
unfolding load store
load-store_ne b a a' v p q ne = ground (
  arith,
  get4-put4_apart b.fast_sram (a - fast_sram_base) (a' - fast_sram_base) v,
  get4-put4_apart b.ext_spi_ram (a - ext_spi_ram_base) (a' - ext_spi_ram_base) v,
)

-- Both memories hold bytes.
pub record HoldsBytes (b : Bus) : Type 0 where
  pub fast : (i : ℕ) → b.fast_sram i < 256
  pub ext : (i : ℕ) → b.ext_spi_ram i < 256

put4-lt : (f : ℕ → ℕ) (i v k : ℕ) → f k < 256 → put4 f i v k < 256
put4-lt f i v k h = ground arith

pub store-HoldsBytes : (b : Bus) (a v : ℕ) → HoldsBytes b → HoldsBytes (store b a v)
unfolding store
store-HoldsBytes b a v h = elim (Bool-cases (in_fast_sram a)) [
  | inl e ↦ rw e (record { fast = λ i. put4-lt b.fast_sram _ v i (h.fast i); ext = h.ext })
  | inr e ↦ rw e (record { fast = h.fast; ext = λ i. put4-lt b.ext_spi_ram _ v i (h.ext i) })
]

pub load-lt : (b : Bus) (a : ℕ) → HoldsBytes b → load b a < 2 ^ 32
unfolding load
load-lt b a h = ground (
  arith,
  h.fast (a - fast_sram_base),
  h.fast (a - fast_sram_base + 1),
  h.fast (a - fast_sram_base + 2),
  h.fast (a - fast_sram_base + 3),
  h.ext (a - ext_spi_ram_base),
  h.ext (a - ext_spi_ram_base + 1),
  h.ext (a - ext_spi_ram_base + 2),
  h.ext (a - ext_spi_ram_base + 3),
)

-- A 32-bit write to a word of the bus succeeds. After it a 32-bit read of that address gives the
-- value, and a read of any other address gives what it gave before, a fault included.
hw_write32-read32 :
    (a v : ℕ) (b : Bus)
    → is_word a ≡ true
    → v < 2 ^ 32
    → (b' : Bus) × (hw_write32 a v b ≡ some b')
      × ((a' : ℕ) → hw_read32 a' b' ≡ (if a' == a then some v else hw_read32 a' b))
hw_write32-read32 a v b w h = (
  store b a v,
  rw (hw_write32-store a v b, w),
  λ a'. elim (Bool-cases (a' == a)) [
    | inl e ↦
        rw (e, hw_read32-load a' (store b a v))
          (let same : a' ≡ a = ground arith in rw (same, w, load-store_self b a v h))
    | inr ne ↦
        rw (ne, hw_read32-load a' (store b a v), hw_read32-load a' b)
          (elim (Bool-cases (is_word a')) [
            | inl w' ↦ rw (w', load-store_ne b a a' v w w' (ground arith))
            | inr out ↦ rw out
          ])
  ],
)

-- An address that is no aligned word of the two memories faults, in a read and in a write.
hw_access32_fault :
    (a v : ℕ) (b : Bus) → is_word a ≡ false → (hw_read32 a b ≡ none) × (hw_write32 a v b ≡ none)
hw_access32_fault a v b out = (rw (hw_read32-load a b, out), rw (hw_write32-store a v b, out))
