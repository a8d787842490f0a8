-- ===== src/Bus/Buffers.antt =====
-- The two buffer loops: a buffer that was written is read back, also round the end of the SPI-RAM.
use u_forth.Prelude.{
  ℕ, ◌+◌, ◌<◌, ◌≤◌, ◌≡◌, ◌≢◌, true, some, arith, List, [], ◌∷◌, length, refl, ◌∙◌,
}
use u_forth.Bus.{
  Bus, in_ext_spi_ram, ext_spi_ram_size, ring_addr, read_buf_from, write_buf_from,
  hw_spi_ram_read_buf, hw_spi_ram_write_buf,
}
use u_forth.Bus.Access.{is_byte, peek, poke, hw_read8-peek, hw_write8-poke}
use u_forth.Bus.Bytes.{peek-poke}

pub ring_addr-in_ext :
    (addr i : ℕ)
    → in_ext_spi_ram addr ≡ true
    → i < ext_spi_ram_size
    → in_ext_spi_ram (ring_addr addr i) ≡ true
unfolding ring_addr
ring_addr-in_ext addr i h lt = ground arith

ring_addr-is_byte :
    (addr i : ℕ)
    → in_ext_spi_ram addr ≡ true
    → i < ext_spi_ram_size
    → is_byte (ring_addr addr i) ≡ true
unfolding ring_addr
ring_addr-is_byte addr i h lt = ground arith

ring_addr-ne :
    (addr i j : ℕ)
    → in_ext_spi_ram addr ≡ true
    → i < ext_spi_ram_size
    → j < ext_spi_ram_size
    → i ≢ j
    → ring_addr addr i ≢ ring_addr addr j
unfolding ring_addr
ring_addr-ne addr i j h p q ne = ground arith

-- The bus after the writes of `hw_spi_ram_write_buf`.
unfoldable pub poke_from : ℕ → ℕ → List ℕ → Bus → Bus
poke_from addr i [] b = b
poke_from addr i (v ∷ src) b = poke_from addr (i + 1) src (poke b (ring_addr addr i) v)

module _ (addr : ℕ) (h : in_ext_spi_ram addr ≡ true) where
  pub write_buf_from-poke_from :
      (i : ℕ) (src : List ℕ) (b : Bus)
      → i + length src ≤ ext_spi_ram_size
      → write_buf_from addr i src b ≡ some (poke_from addr i src b)
  unfolding write_buf_from poke_from
  write_buf_from-poke_from i [] b fit = refl
  write_buf_from-poke_from i (v ∷ src) b fit =
      rw
        (
          write_buf_from,
          hw_write8-poke (ring_addr addr i) v b,
          ring_addr-is_byte addr i h (omega arith),
        )
        (write_buf_from-poke_from (i + 1) src (poke b (ring_addr addr i) v) (omega arith))

  -- The later writes spare the bytes of the earlier rounds.
  peek-poke_from :
      (i j : ℕ) (src : List ℕ) (b : Bus)
      → i + length src ≤ ext_spi_ram_size
      → j < i
      → peek (poke_from addr i src b) (ring_addr addr j) ≡ peek b (ring_addr addr j)
  unfolding poke_from
  peek-poke_from i j [] b fit lt = refl
  peek-poke_from i j (v ∷ src) b fit lt =
      peek-poke_from (i + 1) j src (poke b (ring_addr addr i) v) (omega arith) (omega arith)
      ∙ ground (
        arith,
        peek-poke b (ring_addr addr i) (ring_addr addr j) v
            (ring_addr-is_byte addr i h (omega arith)) (ring_addr-is_byte addr j h (omega arith)),
        ring_addr-ne addr i j h (omega arith) (omega arith) (omega arith),
      )

  pub read_buf_from-poke_from :
      (i : ℕ) (src : List ℕ) (b : Bus)
      → i + length src ≤ ext_spi_ram_size
      → read_buf_from addr i (length src) (poke_from addr i src b) ≡ some src
  unfolding read_buf_from poke_from
  read_buf_from-poke_from i [] b fit = refl
  read_buf_from-poke_from i (v ∷ src) b fit =
      let b' = poke b (ring_addr addr i) v in
      let w = ring_addr-is_byte addr i h (omega arith) in
      let at : peek (poke_from addr (i + 1) src b') (ring_addr addr i) ≡ v =
        peek-poke_from (i + 1) i src b' (omega arith) (omega arith)
        ∙ ground (arith, peek-poke b (ring_addr addr i) (ring_addr addr i) v w w) in
      rw (
        read_buf_from,
        hw_read8-peek (ring_addr addr i) (poke_from addr (i + 1) src b'),
        w,
        read_buf_from-poke_from (i + 1) src b' (omega arith),
        at,
      )

-- From an address of the SPI-RAM, a buffer of at most its size is written without a fault, and the
-- same number of bytes read from there are those of the buffer.
pub write_buf-read_buf :
    (addr : ℕ) (src : List ℕ) (b : Bus)
    → in_ext_spi_ram addr ≡ true
    → length src ≤ ext_spi_ram_size
    → (b' : Bus) × (hw_spi_ram_write_buf addr src b ≡ some b')
      × (hw_spi_ram_read_buf addr (length src) b' ≡ some src)
unfolding hw_spi_ram_write_buf hw_spi_ram_read_buf
write_buf-read_buf addr src b h fit = (
  poke_from addr 0 src b,
  write_buf_from-poke_from addr h 0 src b (omega arith),
  read_buf_from-poke_from addr h 0 src b (omega arith),
)
