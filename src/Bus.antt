-- ===== src/Bus.antt =====
-- hardware.c and hardware.h: the emulated bus with its two memories. `none` is the `exit(1)` that
-- follows an alignment fault or an access violation. The host is little-endian: `memcpy` of a
-- 32-bit value puts the low byte first.
pub mod Access
pub mod Words
pub mod Bytes
pub mod Buffers
use u_forth.Prelude.{
  ℕ, zero, suc, ◌+◌, ◌-◌, ◌*◌, ◌/◌, ◌%◌, ◌^◌, Bool, ◌&&◌, Option, none, some, List, [], ◌∷◌, ltb,
  leb, ◌==◌, if◌then◌else◌, update,
}

-- FAST_SRAM_SIZE, EXT_SPI_RAM_SIZE, FAST_SRAM_BASE, EXT_SPI_RAM_BASE
abbrev pub fast_sram_size : ℕ
fast_sram_size = 32 * 1024

abbrev pub ext_spi_ram_size : ℕ
ext_spi_ram_size = 1024 * 1024

abbrev pub fast_sram_base : ℕ
fast_sram_base = 0x20000000

abbrev pub ext_spi_ram_base : ℕ
ext_spi_ram_base = 0x60000000

-- `fast_sram` and `*ext_spi_ram`, each a byte at every offset.
pub record Bus : Type 0 where
  pub fast_sram : ℕ → ℕ
  pub ext_spi_ram : ℕ → ℕ

-- `hw_init` on the path where `malloc` succeeds: both memories are cleared.
unfoldable pub hw_init : Bus
hw_init = record { fast_sram = λ _. 0; ext_spi_ram = λ _. 0 }

abbrev pub in_fast_sram : ℕ → Bool
in_fast_sram addr = leb fast_sram_base addr && ltb addr (fast_sram_base + fast_sram_size)

abbrev pub in_ext_spi_ram : ℕ → Bool
in_ext_spi_ram addr = leb ext_spi_ram_base addr && ltb addr (ext_spi_ram_base + ext_spi_ram_size)

-- Whether `hw_check_alignment` returns.
abbrev pub is_aligned : ℕ → ℕ → Bool
is_aligned addr alignment = addr % alignment == 0

unfoldable pub hw_read8 : ℕ → Bus → Option ℕ
hw_read8 addr b =
    if in_fast_sram addr
    then some (b.fast_sram (addr - fast_sram_base))
    else if in_ext_spi_ram addr
    then some (b.ext_spi_ram (addr - ext_spi_ram_base))
    else none

-- The value is a `uint8_t`.
unfoldable pub hw_write8 : ℕ → ℕ → Bus → Option Bus
hw_write8 addr val b =
    if in_fast_sram addr
    then some (record b { fast_sram = update b.fast_sram (addr - fast_sram_base) val })
    else if in_ext_spi_ram addr
    then some (record b { ext_spi_ram = update b.ext_spi_ram (addr - ext_spi_ram_base) val })
    else none

-- `memcpy(&val, &memory[i], 4)` and `memcpy(&memory[i], &val, 4)`
abbrev pub get4 : (ℕ → ℕ) → ℕ → ℕ
get4 f i = f i + 2 ^ 8 * f (i + 1) + 2 ^ 16 * f (i + 2) + 2 ^ 24 * f (i + 3)

abbrev pub put4 : (ℕ → ℕ) → ℕ → ℕ → ℕ → ℕ
put4 f i val =
    update
      (update (update (update f i (val % 2 ^ 8)) (i + 1) (val / 2 ^ 8 % 2 ^ 8)) (i + 2)
        (val / 2 ^ 16 % 2 ^ 8))
      (i + 3) (val / 2 ^ 24 % 2 ^ 8)

unfoldable pub hw_read32 : ℕ → Bus → Option ℕ
hw_read32 addr b =
    if is_aligned addr 4
    then if in_fast_sram addr
      then some (get4 b.fast_sram (addr - fast_sram_base))
      else if in_ext_spi_ram addr
      then some (get4 b.ext_spi_ram (addr - ext_spi_ram_base))
      else none
    else none

-- The value is a `uint32_t`.
unfoldable pub hw_write32 : ℕ → ℕ → Bus → Option Bus
hw_write32 addr val b =
    if is_aligned addr 4
    then if in_fast_sram addr
      then some (record b { fast_sram = put4 b.fast_sram (addr - fast_sram_base) val })
      else if in_ext_spi_ram addr
      then some (record b { ext_spi_ram = put4 b.ext_spi_ram (addr - ext_spi_ram_base) val })
      else none
    else none

abbrev get2 : (ℕ → ℕ) → ℕ → ℕ
get2 f i = f i + 2 ^ 8 * f (i + 1)

abbrev put2 : (ℕ → ℕ) → ℕ → ℕ → ℕ → ℕ
put2 f i val = update (update f i (val % 2 ^ 8)) (i + 1) (val / 2 ^ 8 % 2 ^ 8)

unfoldable pub hw_read16 : ℕ → Bus → Option ℕ
hw_read16 addr b =
    if is_aligned addr 2
    then if in_fast_sram addr
      then some (get2 b.fast_sram (addr - fast_sram_base))
      else if in_ext_spi_ram addr
      then some (get2 b.ext_spi_ram (addr - ext_spi_ram_base))
      else none
    else none

-- The value is a `uint16_t`.
unfoldable pub hw_write16 : ℕ → ℕ → Bus → Option Bus
hw_write16 addr val b =
    if is_aligned addr 2
    then if in_fast_sram addr
      then some (record b { fast_sram = put2 b.fast_sram (addr - fast_sram_base) val })
      else if in_ext_spi_ram addr
      then some (record b { ext_spi_ram = put2 b.ext_spi_ram (addr - ext_spi_ram_base) val })
      else none
    else none

-- `current_addr` of the two buffer loops: `addr + i` in 32 bits, taken round past the end of the
-- SPI-RAM.
unfoldable pub ring_addr : ℕ → ℕ → ℕ
ring_addr addr i =
    let current_addr = (addr + i) % 2 ^ 32 in
    if leb (ext_spi_ram_base + ext_spi_ram_size) current_addr
    then ext_spi_ram_base + current_addr % ext_spi_ram_size
    else current_addr

-- The rounds `i`, `i + 1`, ... of the loop in `hw_spi_ram_read_buf`, with `len` bytes left.
unfoldable pub read_buf_from : ℕ → ℕ → ℕ → Bus → Option (List ℕ)
read_buf_from addr i zero b = some []
read_buf_from addr i (suc len) b =
    let rest = read_buf_from addr (i + 1) len b in
    elim (hw_read8 (ring_addr addr i) b) [
      | none ↦ none
      | some v ↦ elim rest [ none ↦ none | some vs ↦ some (v ∷ vs) ]
    ]

unfoldable pub hw_spi_ram_read_buf : ℕ → ℕ → Bus → Option (List ℕ)
unfolding read_buf_from
hw_spi_ram_read_buf addr len b = read_buf_from addr 0 len b

-- The list is what is left of `src` at round `i`.
unfoldable pub write_buf_from : ℕ → ℕ → List ℕ → Bus → Option Bus
write_buf_from addr i [] b = some b
write_buf_from addr i (v ∷ src) b = elim (hw_write8 (ring_addr addr i) v b) [
  | none ↦ none
  | some b' ↦ write_buf_from addr (i + 1) src b'
]

unfoldable pub hw_spi_ram_write_buf : ℕ → List ℕ → Bus → Option Bus
unfolding write_buf_from
hw_spi_ram_write_buf addr src b = write_buf_from addr 0 src b
