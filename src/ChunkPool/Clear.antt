-- ===== src/ChunkPool/Clear.antt =====
-- The clearing loop sets the eight words of a chunk to 0 and writes no other word.
use native.Mathlib.Decide.{ℕ_discrete}
use u_forth.Prelude.{ℕ, zero, suc, ◌+◌, ◌*◌, ◌≤◌, ◌<◌, ◌≡◌, ◌⊎◌, inl, true, arith, ◌∙◌, refl}
use u_forth.Bus.{Bus}
use u_forth.Bus.Access.{is_word, load, store}
use u_forth.Bus.Words.{load-store_self, load-store_ne}
use u_forth.Machine.{Machine, ok, ◌>>◌, ◌>>=◌}
use u_forth.Machine.Laws.{with_bus, write32_at}
use u_forth.ChunkPool.{clear_words}
use u_forth.ChunkPool.Chain.{IsChunk, IsChunk-is_word, SameOutside}

-- The bus after the loop.
cleared_from : ℕ → ℕ → ℕ → Bus → Bus
cleared_from zero a i b = b
cleared_from (suc left) a i b = cleared_from left a (i + 1) (store b (a + 4 * i) 0)

pub cleared : ℕ → Bus → Bus
cleared a b = cleared_from 8 a 0 b

module _ {a : ℕ} (h : IsChunk a) where
  clear_words-cleared_from :
      (left i j : ℕ) (m : Machine)
      → j ≡ 4 * i
      → i + left ≡ 8
      → clear_words left a j m ≡ ok tt (with_bus m (cleared_from left a i m.bus))
  unfolding clear_words cleared_from
  clear_words-cleared_from zero i j m e fit = refl
  clear_words-cleared_from (suc left) i j m e fit =
      let w = IsChunk-is_word h i (omega arith) in
      let at : a + j ≡ a + 4 * i = omega arith in
      rw (clear_words, ◌>>◌, ◌>>=◌, at, write32_at (a + 4 * i) m 0 w)
        (clear_words-cleared_from left (i + 1) (j + 4) (with_bus m (store m.bus (a + 4 * i) 0))
          (omega arith) (omega arith))

  cleared_from-outside :
      (left i : ℕ) (b : Bus) (w : ℕ)
      → i + left ≡ 8
      → is_word w ≡ true
      → (w < a + 4 * i) ⊎ (a + 32 ≤ w)
      → load (cleared_from left a i b) w ≡ load b w
  unfolding cleared_from
  cleared_from-outside zero i b w fit q out = refl
  cleared_from-outside (suc left) i b w fit q out =
      cleared_from-outside left (i + 1) (store b (a + 4 * i) 0) w (omega arith) q (omega arith)
      ∙ load-store_ne b (a + 4 * i) w 0 (IsChunk-is_word h i (omega arith)) q (omega arith)

  cleared_from-inside :
      (left i k : ℕ) (b : Bus)
      → i + left ≡ 8
      → i ≤ k
      → k < 8
      → load (cleared_from left a i b) (a + 4 * k) ≡ 0
  unfolding cleared_from
  cleared_from-inside zero i k b fit l lt = absurd (omega arith)
  cleared_from-inside (suc left) i k b fit l lt = elim (ℕ_discrete i k) [
    | no ne ↦
        cleared_from-inside left (i + 1) k (store b (a + 4 * i) 0) (omega arith) (omega arith) lt
    | yes e ↦
        cleared_from-outside left (i + 1) (store b (a + 4 * i) 0) (a + 4 * k) (omega arith)
          (IsChunk-is_word h k lt) (inl (omega arith))
        ∙ (let at : a + 4 * k ≡ a + 4 * i = omega arith in
            rw at (load-store_self b (a + 4 * i) 0 (omega arith)))
  ]

  pub clear_words-cleared :
      (m : Machine) → clear_words 8 a 0 m ≡ ok tt (with_bus m (cleared a m.bus))
  unfolding cleared
  clear_words-cleared m = clear_words-cleared_from 8 0 0 m refl refl

  pub cleared-outside : (b : Bus) → SameOutside a b (cleared a b)
  unfolding cleared
  cleared-outside b w q out = cleared_from-outside 8 0 b w refl q (omega arith)

  pub cleared-inside : (b : Bus) (k : ℕ) → k < 8 → load (cleared a b) (a + 4 * k) ≡ 0
  unfolding cleared
  cleared-inside b k lt = cleared_from-inside 8 0 k b refl (omega arith) lt
