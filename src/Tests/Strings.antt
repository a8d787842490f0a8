-- ===== src/Tests/Strings.antt =====
-- The words that read text: tests and instances.
use u_forth.Prelude.{ℕ, ◌+◌, ◌*◌, ◌/◌, ◌≡◌, refl, true, some, arith, List, [], ◌∷◌, ◌++◌, length}
use u_forth.Bus.Access.{is_word, load}
use u_forth.Vm.{Vm, ForthState}
use u_forth.Machine.{Machine, ok, hw_read32, hw_spi_ram_read_buf}
use u_forth.Machine.Laws.{with_vm, read32_at}
use u_forth.Compiler.Layout.{HasSpace}
use u_forth.Strings.{
  xt_s_quote, scan_quoted, skip_char, is_escapable, first_char, next_chars, parse_quoted,
  forth_dual_s_quote, skip_line,
}
use u_forth.Strings.Parse.{escape, parse_quoted-escape}
use u_forth.Strings.Compile.{with_text, s_quote-compiled}
use u_forth.Tests.Fixtures.{vm, start}

-- A comment goes up to the end of its line.
skip_line_test : skip_line (b'a' ∷ b'b' ∷ 10 ∷ b'c' ∷ []) ≡ 10 ∷ b'c' ∷ []
unfolding skip_line
skip_line_test = refl

-- ` a\"b" c`
abbrev line : List ℕ
line = 0x20 ∷ b'a' ∷ 0x5C ∷ 0x22 ∷ b'b' ∷ 0x22 ∷ 0x20 ∷ b'c' ∷ []

parse_quoted_test : parse_quoted line ≡ (b'a' ∷ 0x22 ∷ b'b' ∷ [], 0x20 ∷ b'c' ∷ [])
unfolding parse_quoted scan_quoted skip_char is_escapable first_char next_chars
parse_quoted_test = refl

parse_quoted-escape_example :
    parse_quoted (0x20 ∷ (escape (b'a' ∷ 0x22 ∷ []) ++ (0x22 ∷ b'c' ∷ [])))
    ≡ (b'a' ∷ 0x22 ∷ [], b'c' ∷ [])
parse_quoted-escape_example = parse_quoted-escape (b'a' ∷ 0x22 ∷ []) (b'c' ∷ []) (omega arith)

abbrev reading : Vm
reading = record vm { parse_line_ptr = line }

space : HasSpace 0x60080000 264
space = omega arith

abbrev running : Vm
running = record vm { state = ForthState.runtime; ip = 0x60080004 }

hw_read32-load : (a : ℕ) (m : Machine) → is_word a ≡ true → hw_read32 a m ≡ ok (load m.bus a) m
hw_read32-load a m w = read32_at a m w

s_quote-compiled_example :
    let (s, rest) = parse_quoted line in
    let text = 0x60080000 + 8 in
    let end = text + (length s + 3) / 4 * 4 in
    (m' : Machine) × (forth_dual_s_quote hw_read32 (with_vm start reading) ≡ ok tt m')
    × (m'.current_forth_vm ≡ some (record reading { parse_line_ptr = rest; dict_free_ptr = end }))
    × (load m'.bus 0x60080000 ≡ xt_s_quote)
    × (forth_dual_s_quote hw_read32 (with_vm m' running)
        ≡ ok tt (with_vm m' (with_text running text (length s) end)))
    × (hw_spi_ram_read_buf text (length s) (with_vm m' running) ≡ ok s (with_vm m' running))
s_quote-compiled_example =
    s_quote-compiled hw_read32 (with_vm start reading) reading running hw_read32-load refl refl
      space refl refl
