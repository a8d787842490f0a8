-- ===== src/Bus/Access.antt =====
-- Which addresses the bus accepts, and what an accepted access does.
use u_forth.Prelude.{ℕ, ◌-◌, ◌≡◌, Bool, ◌&&◌, ◌||◌, none, some, arith, if◌then◌else◌, update}
use u_forth.Bus.{
  Bus, in_fast_sram, in_ext_spi_ram, is_aligned, fast_sram_base, ext_spi_ram_base, get4, put4,
  hw_read8, hw_write8, hw_read32, hw_write32,
}

-- An address of a byte, and of an aligned 32-bit word.
abbrev pub is_byte : ℕ → Bool
is_byte addr = in_fast_sram addr || in_ext_spi_ram addr

abbrev pub is_word : ℕ → Bool
is_word addr = is_aligned addr 4 && is_byte addr

-- What the accesses do where they do not fault.
unfoldable pub peek : Bus → ℕ → ℕ
peek b addr =
    if in_fast_sram addr
    then b.fast_sram (addr - fast_sram_base)
    else b.ext_spi_ram (addr - ext_spi_ram_base)

unfoldable pub load : Bus → ℕ → ℕ
load b addr =
    if in_fast_sram addr
    then get4 b.fast_sram (addr - fast_sram_base)
    else get4 b.ext_spi_ram (addr - ext_spi_ram_base)

unfoldable pub poke : Bus → ℕ → ℕ → Bus
poke b addr val =
    if in_fast_sram addr
    then record b { fast_sram = update b.fast_sram (addr - fast_sram_base) val }
    else record b { ext_spi_ram = update b.ext_spi_ram (addr - ext_spi_ram_base) val }

unfoldable pub store : Bus → ℕ → ℕ → Bus
store b addr val =
    if in_fast_sram addr
    then record b { fast_sram = put4 b.fast_sram (addr - fast_sram_base) val }
    else record b { ext_spi_ram = put4 b.ext_spi_ram (addr - ext_spi_ram_base) val }

pub hw_read8-peek :
    (addr : ℕ) (b : Bus) → hw_read8 addr b ≡ (if is_byte addr then some (peek b addr) else none)
unfolding hw_read8 peek
hw_read8-peek addr b = ground arith

pub hw_write8-poke :
    (addr v : ℕ) (b : Bus)
    → hw_write8 addr v b ≡ (if is_byte addr then some (poke b addr v) else none)
unfolding hw_write8 poke
hw_write8-poke addr v b = ground arith

pub hw_read32-load :
    (addr : ℕ) (b : Bus) → hw_read32 addr b ≡ (if is_word addr then some (load b addr) else none)
unfolding hw_read32 load
hw_read32-load addr b = ground arith

pub hw_write32-store :
    (addr v : ℕ) (b : Bus)
    → hw_write32 addr v b ≡ (if is_word addr then some (store b addr v) else none)
unfolding hw_write32 store
hw_write32-store addr v b = ground arith
