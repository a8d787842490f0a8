-- ===== src/Words/Print.antt =====
-- The words that print. A print is the call of `printf` or `putchar` with its argument.
use u_forth.Prelude.{ℕ, zero, suc, ◌+◌, ◌-◌, ◌/◌, ◌%◌, ◌^◌, ◌==◌, leb, if◌then◌else◌, List, [], ◌∷◌}
use u_forth.Machine.{
  Action, Printed, pure, branch, ◌>>=◌, ◌>>◌, if_vm, forth_pop, print, hw_spi_ram_read_buf,
}
use u_forth.Words.{if_running}

unfoldable pub forth_dot : Action (Unit {0})
forth_dot = do a ← forth_pop; print (Printed.signed a)

unfoldable pub forth_primitive_dot_unsigned : Action (Unit {0})
forth_primitive_dot_unsigned = if_vm (do val ← forth_pop; if_running (print (Printed.unsigned val)))

unfoldable pub forth_primitive_dot_hex : Action (Unit {0})
forth_primitive_dot_hex = if_vm (do val ← forth_pop; if_running (print (Printed.hex 8 val)))

unfoldable pub forth_cr : Action (Unit {0})
forth_cr = print (Printed.char 10)

unfoldable pub forth_primitive_emit : Action (Unit {0})
forth_primitive_emit = do ch ← forth_pop; if_running (print (Printed.char (ch % 2 ^ 8)))

-- The loop of `forth_primitive_dot_binary` over the bits below `i + 1`, the highest first.
unfoldable pub dot_binary_bits : ℕ → ℕ → Action (Unit {0})
dot_binary_bits val zero = pure tt
dot_binary_bits val (suc i) = do
  branch (val / 2 ^ i % 2 == 0) (print (Printed.char b'0')) (print (Printed.char b'1'))
  dot_binary_bits val i

unfoldable pub forth_primitive_dot_binary : Action (Unit {0})
forth_primitive_dot_binary = if_vm (do
  val ← forth_pop
  if_running (do print (Printed.char b'%'); dot_binary_bits val 32; print (Printed.char 0x20)))

-- `print_binary_width`: the bits below `width_bits`, the highest first. `putchar` gets '1' or '0'.
unfoldable pub print_binary_width : ℕ → ℕ → Action (Unit {0})
print_binary_width val zero = pure tt
print_binary_width val (suc i) =
    print (Printed.char (if val / 2 ^ i % 2 == 0 then b'0' else b'1')) >> print_binary_width val i

-- The width in bits that `width_mode` stands for; the mask is that many ones.
unfoldable pub width_bits : ℕ → ℕ
width_bits width_mode =
    if width_mode == 1 then 4 else if width_mode == 2 then 8 else if width_mode == 4 then 16 else 32

-- The sign of a value of the given width, extended to 32 bits.
unfoldable pub extend_sign : ℕ → ℕ → ℕ
extend_sign width_mode w =
    if width_mode == 1
    then if leb 0x8 w then w + 0xFFFFFFF0 else w
    else if width_mode == 2
    then if leb 0x80 w then w + 0xFFFFFF00 else w
    else if width_mode == 4
    then if leb 0x8000 w then w + 0xFFFF0000 else w
    else w

-- The `switch` over `radix_mode`.
unfoldable pub print_radix : ℕ → ℕ → ℕ → Action (Unit {0})
print_radix width_mode radix_mode w =
    branch (radix_mode == 0) (print (Printed.signed (extend_sign width_mode w))) (
      branch (radix_mode == 2) (print (Printed.hex (width_bits width_mode / 4) w)) (
        branch (radix_mode == 3)
          (do
            print (Printed.char b'%')
            print_binary_width w (width_bits width_mode)
            print (Printed.char 0x20))
          (print (Printed.unsigned w))))

unfoldable pub forth_primitive_dot_formatted : Action (Unit {0})
forth_primitive_dot_formatted = if_vm (do
  descriptor ← forth_pop
  raw_val ← forth_pop
  if_running (
      let width_mode = descriptor / 2 ^ 4 % 2 ^ 4 in
      let radix_mode = descriptor % 2 ^ 4 in
      print_radix width_mode radix_mode (raw_val % 2 ^ width_bits width_mode)))

unfoldable pub print_chars : List ℕ → Action (Unit {0})
print_chars [] = pure tt
print_chars (c ∷ cs) = print (Printed.char c) >> print_chars cs

-- The loop of `forth_primitive_type`, a piece of at most FORTH_MAX_STRING_LEN bytes a round. One
-- byte at least is printed a round, so `len` rounds are enough fuel.
unfoldable pub type_pieces : ℕ → ℕ → ℕ → Action (Unit {0})
type_pieces zero addr len = pure tt
type_pieces (suc fuel) addr len = branch (len == 0) (pure tt) (do
  let chunk = if leb 256 len then 255 else len
  temp_buf ← hw_spi_ram_read_buf addr chunk
  print_chars temp_buf
  type_pieces fuel ((addr + chunk) % 2 ^ 32) (len - chunk))

unfoldable pub forth_primitive_type : Action (Unit {0})
forth_primitive_type =
    if_vm (do len ← forth_pop; addr ← forth_pop; if_running (type_pieces len addr len))
