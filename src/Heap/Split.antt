-- ===== src/Heap/Split.antt =====
-- What `take_block` leaves in memory where it splits a block.
use u_forth.Prelude.{
  ℕ, ◌+◌, ◌-◌, ◌%◌, ◌^◌, ◌≤◌, ◌<◌, ◌≡◌, ◌≢◌, sym, true, ◌∙◌, leb, arith, &&-eq_true,
}
use u_forth.Bus.{Bus}
use u_forth.Bus.Access.{is_word, load, store}
use u_forth.Bus.Words.{load-store_self, load-store_ne}
use u_forth.Machine.{Machine, ok, ◌>>=◌, ◌>>◌}
use u_forth.Machine.Laws.{with_bus, write32_at}
use u_forth.Words.Arith.{add32, sub32}
use u_forth.Heap.{size_of, take_block}
use u_forth.Heap.Blocks.{is_header, flags_at, next_at}

word-lt : (a : ℕ) → is_word a ≡ true → a + 4 ≤ 0x60100000
word-lt a h = ground (arith, h)

-- A block at `c` becomes one of `required` bytes that is in use, before a free one that has the rest
-- of its `size` bytes and is followed by `next`; the words outside the two headers are as they were.
pub record Splits (b : Bus) (c required size next : ℕ) (b' : Bus) : Type 0 where
  pub used : flags_at b' c ≡ required + 1
  pub to_rest : next_at b' c ≡ c + required
  pub rest : flags_at b' (c + required) ≡ size - required
  pub to_next : next_at b' (c + required) ≡ next
  pub others :
      (a : ℕ)
      → is_word a ≡ true
      → a ≢ c
      → a ≢ c + 4
      → a ≢ c + required
      → a ≢ c + required + 4
      → load b' a ≡ load b a

module _ (m : Machine) (c required size next : ℕ) (head : is_header c ≡ true)
    (rest_head : is_header (c + required) ≡ true) (header : 8 ≤ required)
    (aligned : required % 4 ≡ 0) (room : required + 12 ≤ size) (even : size % 2 ≡ 0)
    (size_fits : size < 2 ^ 32) (next_fits : next < 2 ^ 32) where
  abbrev rest_at : ℕ
  rest_at = c + required

  abbrev bus₁ : Bus
  bus₁ = store m.bus rest_at (size - required)

  abbrev bus₂ : Bus
  bus₂ = store bus₁ (rest_at + 4) next

  abbrev bus₃ : Bus
  bus₃ = store bus₂ c (required + 1)

  abbrev bus₄ : Bus
  bus₄ = store bus₃ (c + 4) rest_at

  c_word : is_word c ≡ true
  c_word = (&&-eq_true _ _ head).0

  rest_word : is_word rest_at ≡ true
  rest_word = (&&-eq_true _ _ rest_head).0

  add32-c : add32 c 4 ≡ c + 4
  add32-c = omega (arith, word-lt c c_word)

  add32-rest : add32 rest_at 4 ≡ rest_at + 4
  add32-rest = omega (arith, word-lt rest_at rest_word)

  c_word₄ : is_word (c + 4) ≡ true
  c_word₄ = rw (sym add32-c) ((&&-eq_true _ _ head).1)

  rest_word₄ : is_word (rest_at + 4) ≡ true
  rest_word₄ = rw (sym add32-rest) ((&&-eq_true _ _ rest_head).1)

  flags_kept : {a : ℕ} → is_word a ≡ true → a ≢ c → a ≢ c + 4 → load bus₄ a ≡ load bus₂ a
  flags_kept {a} w p q =
      load-store_ne bus₃ (c + 4) a rest_at c_word₄ w q
      ∙ load-store_ne bus₂ c a (required + 1) c_word w p

  bus₄-Splits : Splits m.bus c required size next bus₄
  bus₄-Splits = record {
    used =
        load-store_ne bus₃ (c + 4) c rest_at c_word₄ c_word (omega arith)
        ∙ load-store_self bus₂ c (required + 1) (omega arith);
    to_rest =
        rw add32-c
          (load-store_self bus₃ (c + 4) rest_at (omega (arith, word-lt rest_at rest_word)));
    rest =
        flags_kept rest_word (omega arith) (omega arith)
        ∙ load-store_ne bus₁ (rest_at + 4) rest_at next rest_word₄ rest_word (omega arith)
        ∙ load-store_self m.bus rest_at (size - required) (omega arith);
    to_next = rw add32-rest (
        flags_kept rest_word₄ (omega arith) (omega arith)
        ∙ load-store_self bus₁ (rest_at + 4) next next_fits);
    others = λ a w p q r s.
        flags_kept w p q
        ∙ load-store_ne bus₁ (rest_at + 4) a next rest_word₄ w s
        ∙ load-store_ne m.bus rest_at a (size - required) rest_word w r;
  }

  take_block-run : take_block c required size next m ≡ ok (c + 8) (with_bus m bus₄)
  unfolding take_block
  take_block-run =
      let fits : leb (add32 required 12) size ≡ true = ground arith in
      let at_rest : add32 c required ≡ rest_at = omega (arith, word-lt rest_at rest_word) in
      let rest_size : size_of (sub32 size required) ≡ size - required = omega arith in
      let used_size : size_of required + 1 ≡ required + 1 = omega arith in
      let result : add32 c 8 ≡ c + 8 = omega (arith, word-lt c c_word) in
      rw (
        ◌>>◌,
        ◌>>=◌,
        fits,
        at_rest,
        rest_size,
        write32_at rest_at m (size - required) rest_word,
        at_rest,
        add32-rest,
        write32_at (rest_at + 4) (with_bus m bus₁) next rest_word₄,
        used_size,
        write32_at c (with_bus m bus₂) (required + 1) c_word,
        add32-c,
        at_rest,
        write32_at (c + 4) (with_bus m bus₃) rest_at c_word₄,
        result,
      )

  -- A free block with 12 bytes more than required is split: the allocation returns the address
  -- behind its header, marks it as used, and makes a free block of the rest, which is linked to the
  -- next one; no other word changes.
  pub take_block-Splits :
      (b' : Bus) × (take_block c required size next m ≡ ok (c + 8) (with_bus m b'))
      × Splits m.bus c required size next b'
  take_block-Splits = (bus₄, take_block-run, bus₄-Splits)
