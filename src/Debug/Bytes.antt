-- ===== src/Debug/Bytes.antt =====
-- Bytes of the SPI-RAM, read one after the other, where a text was written.
use u_forth.Prelude.{
  ℕ, zero, suc, ◌+◌, ◌≤◌, ◌<◌, ◌≡◌, ◌∙◌, refl, ap, true, List, [], ◌∷◌, length, arith,
}
use u_forth.Bus.{Bus, ext_spi_ram_base, ext_spi_ram_size, ring_addr}
use u_forth.Bus.Access.{is_byte, peek, poke}
use u_forth.Bus.Bytes.{peek-poke}
use u_forth.Bus.Buffers.{poke_from}
use u_forth.Machine.{Machine, ok, ◌>>=◌}
use u_forth.Machine.Laws.{with_bus, read8_at}
use u_forth.Debug.{read_bytes}

-- A range of the SPI-RAM that does not reach its end.
abbrev pub Inside : ℕ → ℕ → Type 0
Inside addr n = (ext_spi_ram_base ≤ addr) × (addr + n ≤ ext_spi_ram_base + ext_spi_ram_size)

ring_addr-Inside : (addr i : ℕ) → Inside addr (i + 1) → ring_addr addr i ≡ addr + i
unfolding ring_addr
ring_addr-Inside addr i (low, high) = ground (arith, low, high)

-- A text behind a byte leaves the byte.
pub peek-poke_from_before :
    (addr i : ℕ) (src : List ℕ) (b : Bus) (a : ℕ)
    → is_byte a ≡ true
    → a < addr + i
    → Inside addr (i + length src)
    → peek (poke_from addr i src b) a ≡ peek b a
unfolding poke_from ring_addr
peek-poke_from_before addr i [] b a w lt inside = refl
peek-poke_from_before addr i (c ∷ src) b a w lt (low, high) =
    let at : ring_addr addr i ≡ addr + i = ring_addr-Inside addr i (low, omega (arith, high)) in
    let byte : is_byte (addr + i) ≡ true = ground (arith, low, high) in
    peek-poke_from_before addr (i + 1) src (poke b (ring_addr addr i) c) a w (omega arith)
      (low, omega (arith, high))
    ∙ (rw at (ground (arith, peek-poke b (addr + i) a c byte w)))

-- The bytes of a range can be read.
pub read_bytes-Inside :
    (left addr : ℕ) (m : Machine)
    → Inside addr left
    → (bytes : List ℕ) × (read_bytes left addr m ≡ ok bytes m)
unfolding read_bytes
read_bytes-Inside zero addr m inside = ([], refl)
read_bytes-Inside (suc left) addr m (low, high) =
    let byte : is_byte addr ≡ true = ground (arith, low, high) in
    let (rest, e) = read_bytes-Inside left (addr + 1) m (omega (arith, low), omega (arith, high)) in
    (peek m.bus addr ∷ rest, rw (read_bytes, ◌>>=◌, read8_at addr m byte, e) refl)

-- The text is read back.
pub read_bytes-poke_from :
    (addr i : ℕ) (src : List ℕ) (b : Bus) (m : Machine)
    → Inside addr (i + length src)
    → read_bytes (length src) (addr + i) (with_bus m (poke_from addr i src b))
      ≡ ok src (with_bus m (poke_from addr i src b))
unfolding read_bytes poke_from
read_bytes-poke_from addr i [] b m inside = refl
read_bytes-poke_from addr i (c ∷ src) b m (low, high) =
    let at : ring_addr addr i ≡ addr + i = ring_addr-Inside addr i (low, omega (arith, high)) in
    let byte : is_byte (addr + i) ≡ true = ground (arith, low, high) in
    let b' = poke b (ring_addr addr i) c in
    let m' = with_bus m (poke_from addr (i + 1) src b') in
    let read : peek (poke_from addr (i + 1) src b') (addr + i) ≡ c =
      peek-poke_from_before addr (i + 1) src b' (addr + i) byte (omega arith)
        (low, omega (arith, high))
      ∙ (rw at (ground (arith, peek-poke b (addr + i) (addr + i) c byte byte))) in
    let next : addr + i + 1 ≡ addr + (i + 1) = omega arith in
    rw
      (
        ◌>>=◌,
        read8_at (addr + i) m' byte,
        next,
        read_bytes-poke_from addr (i + 1) src b' m (low, omega (arith, high)),
      )
      (ap (λ x. ok (x ∷ src) m') read)
