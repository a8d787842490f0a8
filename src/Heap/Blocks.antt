-- ===== src/Heap/Blocks.antt =====
-- The chain of blocks as it lies on the bus, and the size of a request.
use u_forth.Prelude.{ℕ, suc, ◌+◌, ◌%◌, ◌^◌, ◌≤◌, ◌<◌, ◌≡◌, Bool, true, false, not, ◌&&◌, leb, arith}
use u_forth.Bus.{Bus}
use u_forth.Bus.Access.{is_word, load}
use u_forth.Words.Arith.{add32}
use u_forth.Heap.{size_of, is_busy, required_total_size}

-- The two words of the header at `a`, on the bus `b`.
abbrev pub flags_at : Bus → ℕ → ℕ
flags_at b a = load b a

abbrev pub next_at : Bus → ℕ → ℕ
next_at b a = load b (add32 a 4)

-- A header that the bus can read, at an address that is not NULL.
abbrev pub is_header : ℕ → Bool
is_header a = is_word a && is_word (add32 a 4)

-- The block at `a` is free and holds `required` bytes.
abbrev pub fits : Bus → ℕ → ℕ → Bool
fits b required a = not (is_busy (flags_at b a)) && leb required (size_of (flags_at b a))

-- `n` blocks of the chain lead from the first address to the second, and none of them fits.
pub data Unfit (b : Bus) (required : ℕ) : ℕ → ℕ → ℕ → Type 0 where
  here : {a : ℕ} → Unfit b required a a 0
  past :
      {a c n : ℕ}
      → is_header a ≡ true
      → fits b required a ≡ false
      → Unfit b required (next_at b a) c n
      → Unfit b required a c (suc n)

-- Below the wrap-around a request gets its bytes and a header, rounded up to a multiple of 4.
pub required_total_size-bounds :
    (size : ℕ)
    → size + 11 < 2 ^ 32
    → (size + 8 ≤ required_total_size size)
      × (required_total_size size < size + 12)
      × (required_total_size size % 4 ≡ 0)
unfolding required_total_size
required_total_size-bounds size h = omega arith

-- In the last three sizes the rounding wraps around, and the request is for a header alone.
required_total_size_wraps :
    (size : ℕ) → 2 ^ 32 ≤ size + 3 → size < 2 ^ 32 → required_total_size size ≡ 8
unfolding required_total_size
required_total_size_wraps size h lt = omega arith
