-- ===== src/Heap/Chain.antt =====
-- The blocks of the heap as a chain of headers, each behind the one before, that ends in 0.
use u_forth.Prelude.{ℕ, suc, ◌+◌, ◌≤◌, ◌<◌, ◌≡◌, ◌^◌, ◌∙◌, ◌⊎◌, inl, inr, true, arith, &&-eq_true}
use u_forth.Bus.{Bus}
use u_forth.Bus.Access.{is_word, load}
use u_forth.Words.Arith.{add32}
use u_forth.Heap.Blocks.{is_header, next_at}

-- `n` blocks from address `a` on.
pub data Chain (b : Bus) : ℕ → ℕ → Type 0 where
  done : Chain b 0 0
  block :
      {a n : ℕ} (d : ℕ)
      → is_header a ≡ true
      → next_at b a ≡ d
      → (d ≡ 0) ⊎ (a + 8 ≤ d)
      → Chain b d n
      → Chain b a (suc n)

-- `t` is a header of the chain from `a` on.
pub data IsOn (b : Bus) (t : ℕ) : ℕ → Type 0 where
  first : IsOn b t t
  later :
      {a : ℕ} (d : ℕ) → is_header a ≡ true → a + 8 ≤ d → next_at b a ≡ d → IsOn b t d → IsOn b t a

-- The second bus holds the words of the first from `lo` on.
abbrev pub SameFrom : ℕ → Bus → Bus → Type 0
SameFrom lo b b' = (x : ℕ) → is_word x ≡ true → lo ≤ x → load b' x ≡ load b x

-- And those below `hi`.
abbrev pub SameBelow : ℕ → Bus → Bus → Type 0
SameBelow hi b b' = (x : ℕ) → is_word x ≡ true → x < hi → load b' x ≡ load b x

pub next-address : (a : ℕ) → is_header a ≡ true → add32 a 4 ≡ a + 4
next-address a h = ground arith

-- A chain behind `lo` is read from the words behind `lo`.
pub Chain-SameFrom :
    (b b' : Bus) (lo : ℕ)
    → SameFrom lo b b'
    → {a n : ℕ} → Chain b a n
    → (a ≡ 0) ⊎ (lo ≤ a)
    → Chain b' a n
Chain-SameFrom b b' lo same done le = done
Chain-SameFrom b b' lo same {a = a} (block d h e up rest) (inl z) = ground (arith, z)
Chain-SameFrom b b' lo same {a = a} (block d h e up rest) (inr le) =
    let e₄ = next-address a h in
    let behind : (d ≡ 0) ⊎ (lo ≤ d) = ground (arith, up) in
    let e' : next_at b' a ≡ d = same (add32 a 4) (&&-eq_true _ _ h).1 (omega (arith, e₄)) ∙ e in
    block d h e' up (Chain-SameFrom b b' lo same rest behind)

-- Where a chain starts fits a word.
pub Chain-lt : {b : Bus} {a n : ℕ} → Chain b a n → a < 2 ^ 32
Chain-lt done = omega arith
Chain-lt {a = a} (block d h e up rest) = ground (arith, h)
