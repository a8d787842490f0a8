-- ===== src/ChunkPool/Chain.antt =====
-- The list of free chunks on the bus, and the invariant of the pool.
use u_forth.Prelude.{
  ℕ, ◌+◌, ◌-◌, ◌*◌, ◌%◌, ◌≤◌, ◌<◌, ◌≡◌, ◌≢◌, ◌⊎◌, true, List, [], ◌∷◌, length, arith, sym,
}
use u_forth.Bus.{Bus}
use u_forth.Bus.Access.{is_word, load}
use u_forth.Machine.{Machine}
use u_forth.ChunkPool.{chunk_count, chunk_size, chunk_pool_base}

-- The address of a chunk.
pub record IsChunk (a : ℕ) : Type 0 where
  pub low : chunk_pool_base ≤ a
  pub high : a < chunk_pool_base + chunk_count * chunk_size
  pub aligned : (a - chunk_pool_base) % chunk_size ≡ 0

abbrev pub NotIn : ℕ → List ℕ → Type 0
NotIn a [] = Unit {0}
NotIn a (x ∷ xs) = (a ≢ x) × NotIn a xs

-- From `p` the first words of the distinct chunks `xs` lead on to 0.
abbrev pub Chain : Bus → ℕ → List ℕ → Type 0
Chain b p [] = p ≡ 0
Chain b p (x ∷ xs) = (p ≡ x) × IsChunk x × NotIn x xs × Chain b (load b x) xs

-- The free list holds `xs`, and the counter is the number of the other chunks.
pub record IsValid (m : Machine) (xs : List ℕ) : Type 0 where
  pub chain : Chain m.bus m.chunks.chunk_free_list_head xs
  pub counted : m.chunks.chunk_allocated_count + length xs ≡ chunk_count

-- The two buses agree on every word outside the chunk at `a`.
abbrev pub SameOutside : ℕ → Bus → Bus → Type 0
SameOutside a b b' =
    (w : ℕ) → is_word w ≡ true → (w < a) ⊎ (a + chunk_size ≤ w) → load b' w ≡ load b w

pub IsChunk-is_word : {a : ℕ} → IsChunk a → (i : ℕ) → i < 8 → is_word (a + 4 * i) ≡ true
IsChunk-is_word h i lt = ground (arith, h.low, h.high, h.aligned)

pub IsChunk-is_word_head : {a : ℕ} → IsChunk a → is_word a ≡ true
IsChunk-is_word_head h = ground (arith, h.low, h.high, h.aligned)

IsChunk-apart : {a x : ℕ} → IsChunk a → IsChunk x → x ≢ a → (x < a) ⊎ (a + chunk_size ≤ x)
IsChunk-apart {a} {x} h k ne = omega (arith, h.low, h.high, h.aligned, k.low, k.high, k.aligned)

-- A change inside a chunk that is not on the list keeps the list.
pub Chain-frame :
    (a : ℕ) (b b' : Bus) (xs : List ℕ) (p : ℕ)
    → IsChunk a
    → NotIn a xs
    → SameOutside a b b'
    → Chain b p xs
    → Chain b' p xs
Chain-frame a b b' [] p h out same c = c
Chain-frame a b b' (x ∷ xs) p h (ne, out) same (e, k, fresh, rest) =
    let eq : load b' x ≡ load b x =
      same x (IsChunk-is_word_head k) (IsChunk-apart h k (λ q. ne (sym q))) in
    (e, k, fresh, rw eq (Chain-frame a b b' xs (load b x) h out same rest))

-- A change outside the chunks keeps the list.
pub Chain-apart :
    (b b' : Bus) (xs : List ℕ) (p : ℕ)
    → ((x : ℕ) → IsChunk x → load b' x ≡ load b x)
    → Chain b p xs
    → Chain b' p xs
Chain-apart b b' [] p same c = c
Chain-apart b b' (x ∷ xs) p same (e, k, fresh, rest) =
    (e, k, fresh, rw (same x k) (Chain-apart b b' xs (load b x) same rest))
