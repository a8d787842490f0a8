-- ===== src/CellPool/Scan.antt =====
-- The two loops of `forth_cmd_fast_cell` find the lowest cell that is free.
use u_forth.Prelude.{
  ℕ, zero, suc, ◌+◌, ◌-◌, ◌*◌, ◌/◌, ◌%◌, ◌≤◌, ◌<◌, ◌≡◌, refl, ◌∙◌, inl, inr, Bool, true, false,
  Option, none, some, arith, ltb, ◌==◌, Bool-cases,
}
use u_forth.CellPool.{is_free_bit, find_free_bit, find_free_cell}
use u_forth.CellPool.Bits.{is_free_bit-full}

-- Whether cell `k` is free in a bitmap.
abbrev pub is_free_cell : (ℕ → ℕ) → ℕ → Bool
is_free_cell bitmap k = is_free_bit (bitmap (k / 8)) (k % 8)

-- The result of a search for the first number from `lo` up to `hi` that passes a test.
abbrev pub FirstFree : (ℕ → Bool) → ℕ → ℕ → Option ℕ → Type 0
FirstFree p lo hi none = (j : ℕ) → lo ≤ j → j < hi → p j ≡ false
FirstFree p lo hi (some r) =
    (lo ≤ r) × (r < hi) × (p r ≡ true) × ((j : ℕ) → lo ≤ j → j < r → p j ≡ false)

-- One failed test in front of a search.
FirstFree-cons :
    (p : ℕ → Bool) (lo hi : ℕ) (o : Option ℕ)
    → p lo ≡ false
    → FirstFree p (lo + 1) hi o
    → FirstFree p lo hi o
FirstFree-cons p lo hi none no' rest =
    λ j l h. elim (Bool-cases (j == lo)) [ inl e ↦ ground arith | inr ne ↦ rest j (ground arith) h ]
FirstFree-cons p lo hi (some r) no' (l, h, y, below) = (
  omega arith,
  h,
  y,
  λ j l' h'. elim (Bool-cases (j == lo)) [
    | inl e ↦ ground arith
    | inr ne ↦ below j (ground arith) h'
  ],
)

find_free_bit-FirstFree :
    (left bit hi byte : ℕ)
    → bit + left ≡ hi
    → FirstFree (is_free_bit byte) bit hi (find_free_bit left bit byte)
unfolding find_free_bit
find_free_bit-FirstFree zero bit hi byte e = λ j l h. absurd (omega arith)
find_free_bit-FirstFree (suc left) bit hi byte e = elim (Bool-cases (is_free_bit byte bit)) [
  | inl t ↦ rw t (omega arith, omega arith, t, λ j l h. absurd (omega arith))
  | inr t ↦ rw t (
      FirstFree-cons (is_free_bit byte) bit hi _ t
        (find_free_bit-FirstFree left (bit + 1) hi byte (omega arith)))
]

-- A position in the bitmap as the number of its cell.
abbrev pub cell_at : Option (ℕ × ℕ) → Option ℕ
cell_at none = none
cell_at (some (byte_idx, bit_idx)) = some (byte_idx * 8 + bit_idx)

abbrev pub IsPosition : Option (ℕ × ℕ) → Type 0
IsPosition none = Unit {0}
IsPosition (some (byte_idx, bit_idx)) = (byte_idx < 32) × (bit_idx < 8)

module _ (bitmap : ℕ → ℕ) where
  -- The cells of one byte are the bits of that byte.
  cell_in_byte :
      (i j : ℕ)
      → i * 8 ≤ j
      → j < i * 8 + 8
      → is_free_cell bitmap j ≡ is_free_bit (bitmap i) (j - i * 8)
  cell_in_byte i j l h =
      let e : j / 8 ≡ i = omega arith in let e' : j % 8 ≡ j - i * 8 = omega arith in rw (e, e')

  -- A byte with no free bit in front of the rest of the search.
  skip_byte :
      (i hi : ℕ) (o : Option ℕ)
      → ((j : ℕ) → j < 8 → is_free_bit (bitmap i) j ≡ false)
      → FirstFree (is_free_cell bitmap) ((i + 1) * 8) hi o
      → FirstFree (is_free_cell bitmap) (i * 8) hi o
  skip_byte i hi none full rest = λ j l h. elim (Bool-cases (ltb j (i * 8 + 8))) [
    | inl e ↦ cell_in_byte i j l (ground arith) ∙ full (j - i * 8) (ground arith)
    | inr ne ↦ rest j (ground arith) h
  ]
  skip_byte i hi (some r) full (l, h, y, below) = (
    omega arith,
    h,
    y,
    λ j l' h'. elim (Bool-cases (ltb j (i * 8 + 8))) [
      | inl e ↦ cell_in_byte i j l' (ground arith) ∙ full (j - i * 8) (ground arith)
      | inr ne ↦ below j (ground arith) h'
    ],
  )

  -- The first free bit of a byte is its first free cell.
  take_byte :
      (i hi r : ℕ)
      → i * 8 + 8 ≤ hi
      → FirstFree (is_free_bit (bitmap i)) 0 8 (some r)
      → FirstFree (is_free_cell bitmap) (i * 8) hi (some (i * 8 + r))
  take_byte i hi r fit (l, h, y, below) = (
    omega arith,
    omega arith,
    cell_in_byte i (i * 8 + r) (omega arith) (omega arith)
        ∙ (let e : i * 8 + r - i * 8 ≡ r = omega arith in rw e y),
    λ j l' h'. cell_in_byte i j l' (omega arith) ∙ below (j - i * 8) (omega arith) (omega arith),
  )

  search_step :
      (i hi : ℕ) (o : Option ℕ) (rest : Option (ℕ × ℕ))
      → i < 32
      → i * 8 + 8 ≤ hi
      → FirstFree (is_free_bit (bitmap i)) 0 8 o
      → FirstFree (is_free_cell bitmap) ((i + 1) * 8) hi (cell_at rest) × IsPosition rest
      → FirstFree
          (is_free_cell bitmap)
          (i * 8)
          hi
          (cell_at (elim o [ none ↦ rest | some bit_idx ↦ some (i, bit_idx) ]))
        × IsPosition (elim o [ none ↦ rest | some bit_idx ↦ some (i, bit_idx) ])
  search_step i hi none rest lt fit f (g, p) =
      (skip_byte i hi (cell_at rest) (λ j h. f j (omega arith) h) g, p)
  search_step i hi (some r) rest lt fit f (g, p) = (take_byte i hi r fit f, (lt, f.1))

  pub find_free_cell-FirstFree :
      (left i : ℕ)
      → i + left ≡ 32
      → FirstFree (is_free_cell bitmap) (i * 8) 256 (cell_at (find_free_cell left i bitmap))
        × IsPosition (find_free_cell left i bitmap)
  unfolding find_free_cell
  find_free_cell-FirstFree zero i e = ((λ j l h. absurd (omega arith)), tt)
  find_free_cell-FirstFree (suc left) i e = elim (Bool-cases (bitmap i == 255)) [
    | inl t ↦ rw t (
        let (g, p) = find_free_cell-FirstFree left (i + 1) (omega arith) in
        (skip_byte i 256 _ (λ j h. ground (arith, is_free_bit-full j)) g, p))
    | inr t ↦ rw t (
        search_step i 256 (find_free_bit 8 0 (bitmap i)) _ (omega arith) (omega arith)
          (find_free_bit-FirstFree 8 0 8 (bitmap i) refl)
          (find_free_cell-FirstFree left (i + 1) (omega arith)))
  ]
