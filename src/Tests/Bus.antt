-- ===== src/Tests/Bus.antt =====
-- The bus: tests and instances.
use u_forth.Prelude.{◌≡◌, refl, some, [], ◌∷◌, arith}
use u_forth.Bus.{Bus, hw_spi_ram_read_buf, hw_spi_ram_write_buf}
use u_forth.Bus.Buffers.{write_buf-read_buf}
use u_forth.Tests.Fixtures.{bus}

-- Three bytes, the last two round the end of the SPI-RAM.
write_buf-read_buf_example :
    (b' : Bus) × (hw_spi_ram_write_buf 0x600FFFFF (65 ∷ 66 ∷ 67 ∷ []) bus ≡ some b')
    × (hw_spi_ram_read_buf 0x600FFFFF 3 b' ≡ some (65 ∷ 66 ∷ 67 ∷ []))
write_buf-read_buf_example =
    write_buf-read_buf 0x600FFFFF (65 ∷ 66 ∷ 67 ∷ []) bus refl (omega arith)
