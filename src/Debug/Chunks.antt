-- ===== src/Debug/Chunks.antt =====
-- The rows of the export on the chunks.
use u_forth.Prelude.{
  ℕ, zero, suc, ◌+◌, ◌≤◌, ◌<◌, ◌≡◌, refl, ap, Bool, Bool-cases, inl, inr, true, false, ◌||◌, ◌==◌,
  List, [], ◌∷◌, map, length, arith,
}
use u_forth.Bus.{fast_sram_base, fast_sram_size}
use u_forth.Bus.Access.{is_byte, load, peek}
use u_forth.Machine.{Machine, ok, pure, branch, ◌>>=◌, ◌>>◌, hw_read32}
use u_forth.Machine.Laws.{read8_at, read32_at}
use u_forth.ChunkPool.{chunk_count, debug_get_chunk_free_head}
use u_forth.ChunkPool.Chain.{IsChunk, IsChunk-is_word_head, IsValid, Chain}
use u_forth.ChunkPool.Init.{chunk_addr, chunk_addrs, chunk_addr-IsChunk}
use u_forth.Debug.{read_bytes, is_in_chain, ChunkRow, chunk_rows}

-- Whether the address is one of the list.
abbrev pub is_among : ℕ → List ℕ → Bool
is_among a [] = false
is_among a (x ∷ xs) = x == a || is_among a xs

-- The bytes of fast SRAM can be read.
read_bytes-ok :
    (left addr : ℕ) (m : Machine)
    → fast_sram_base ≤ addr
    → addr + left ≤ fast_sram_base + fast_sram_size
    → (bytes : List ℕ) × (read_bytes left addr m ≡ ok bytes m)
unfolding read_bytes
read_bytes-ok zero addr m low high = ([], refl)
read_bytes-ok (suc left) addr m low high =
    let byte : is_byte addr ≡ true = ground arith in
    let (rest, e) = read_bytes-ok left (addr + 1) m (omega arith) (omega arith) in
    (peek m.bus addr ∷ rest, rw (read_bytes, ◌>>=◌, read8_at addr m byte, e) refl)

is_in_chain-is_among :
    (a : ℕ) (m : Machine) (xs : List ℕ) (p fuel : ℕ)
    → Chain m.bus p xs
    → length xs < fuel
    → is_in_chain fuel a p m ≡ ok (is_among a xs) m
unfolding is_in_chain
is_in_chain-is_among a m xs p zero c lt = absurd (omega arith)
is_in_chain-is_among a m [] p (suc fuel) c lt = rw (is_in_chain, c) refl
is_in_chain-is_among a m (x ∷ xs) p (suc fuel) (e, k, fresh, rest) lt =
    let other : (x == 0) ≡ false = ground (arith, k.low) in
    elim (Bool-cases (x == a)) [
      | inl found ↦ rw (is_in_chain, e, other, found) refl
      | inr differs ↦
          rw (is_in_chain, e, other, differs, ◌>>=◌, read32_at x m (IsChunk-is_word_head k))
            (is_in_chain-is_among a m xs (load m.bus x) fuel rest (omega arith))
    ]

-- The first word of a free chunk is read once more.
second_read :
    (b : Bool) (a : ℕ) (m : Machine)
    → IsChunk a
    → branch b (hw_read32 a >>= λ _. pure tt) (pure tt) m ≡ ok tt m
second_read true a m k = rw (◌>>=◌, read32_at a m (IsChunk-is_word_head k)) refl
second_read false a m k = refl

module _ (m : Machine) (xs : List ℕ) (h : IsValid m xs) (fuel : ℕ) (enough : length xs < fuel) where
  chunk_rows-ok :
      (left i : ℕ)
      → i + left ≤ 20
      → (rows : List ChunkRow) × (chunk_rows fuel left i m ≡ ok rows m)
        × (map (λ r. r.chunk_addr) rows ≡ chunk_addrs left i)
        × (map (λ r. r.is_free) rows ≡ map (λ a. is_among a xs) (chunk_addrs left i))
  unfolding chunk_rows debug_get_chunk_free_head
  chunk_rows-ok zero i le = ([], refl, refl, refl)
  chunk_rows-ok (suc left) i le =
      let a = chunk_addr i in
      let k = chunk_addr-IsChunk i (omega arith) in
      let (bytes, read) = read_bytes-ok 16 a m (omega (arith, k.low)) (omega (arith, k.high)) in
      let (rest, run, addrs, frees) = chunk_rows-ok left (i + 1) (omega arith) in
      let free = is_in_chain-is_among a m xs m.chunks.chunk_free_list_head fuel h.chain enough in
      let row : ChunkRow = record { chunk_addr = a; is_free = is_among a xs; bytes = bytes } in
      (
        row ∷ rest,
        rw (chunk_rows, ◌>>=◌, ◌>>◌, free, second_read (is_among a xs) a m k, read, run) refl,
        ap (λ ls. a ∷ ls) addrs,
        ap (λ ls. is_among a xs ∷ ls) frees,
      )

-- On a valid pool, with more fuel than there are free chunks, the export has a row for each of the 20
-- chunks in the order of their addresses, and shows a chunk as free exactly if it is on the free list.
pub chunk_rows-is_free :
    (m : Machine) (xs : List ℕ) (fuel : ℕ)
    → IsValid m xs
    → length xs < fuel
    → (rows : List ChunkRow) × (chunk_rows fuel chunk_count 0 m ≡ ok rows m)
      × (map (λ r. r.chunk_addr) rows ≡ chunk_addrs 20 0)
      × (map (λ r. r.is_free) rows ≡ map (λ a. is_among a xs) (chunk_addrs 20 0))
chunk_rows-is_free m xs fuel h enough = chunk_rows-ok m xs h fuel enough 20 0 (omega arith)
