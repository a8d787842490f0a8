-- ===== src/Widths/Table.antt =====
-- Every row of the table of built-in words.
use u_forth.Prelude.{ℕ, zero, suc, ◌≡◌, some, List, [], ◌∷◌, subst}
use mathlib.Core.Option.{some-injective}
use u_forth.Machine.{Action, Stop}
use u_forth.Outside.{Outside}
use u_forth.Builtins.{Builtin, nth}
use u_forth.Builtins.Table.{builtin_words}
use u_forth.Widths.{AreBytes, KeepsFit}
use u_forth.Widths.Calls.{CallsFit}
use u_forth.Widths.Rules.{Keeps-fail}
use u_forth.Widths.Compile.{
  Keeps-forth_cmd_again, Keeps-forth_cmd_begin, Keeps-forth_cmd_colon, Keeps-forth_cmd_else,
  Keeps-forth_cmd_if, Keeps-forth_cmd_semicolon, Keeps-forth_cmd_then, Keeps-forth_cmd_until,
}
use u_forth.Widths.Debug.{Keeps-forth_cmd_mem_dump}
use u_forth.Widths.Define.{
  Keeps-forth_dual_bracket_char, Keeps-forth_dual_char, Keeps-forth_dual_constant,
  Keeps-forth_dual_dot_quote, Keeps-forth_dual_to, Keeps-forth_dual_variable,
}
use u_forth.Widths.Heap.{Keeps-forth_cmd_allocate, Keeps-forth_cmd_free}
use u_forth.Widths.Pools.{
  Keeps-forth_cmd_alloc_chunk, Keeps-forth_cmd_fast_cell, Keeps-forth_cmd_fast_cell_free,
  Keeps-forth_cmd_free_chunk,
}
use u_forth.Widths.Scripts.{Keeps-forth_primitive_included}
use u_forth.Widths.Streams.{
  Keeps-forth_primitive_f_close, Keeps-forth_primitive_f_create, Keeps-forth_primitive_f_open,
  Keeps-forth_primitive_f_read, Keeps-forth_primitive_f_write,
}
use u_forth.Widths.Strings.{Keeps-forth_cmd_backslash, Keeps-forth_dual_s_quote}
use u_forth.Widths.Words.{
  Keeps-forth_0equal, Keeps-forth_add, Keeps-forth_cr, Keeps-forth_dot, Keeps-forth_drop,
  Keeps-forth_dup, Keeps-forth_equal, Keeps-forth_greater_than, Keeps-forth_less_than,
  Keeps-forth_mul, Keeps-forth_not_equal, Keeps-forth_over, Keeps-forth_primitive_abort,
  Keeps-forth_primitive_and, Keeps-forth_primitive_arshift, Keeps-forth_primitive_c_fetch,
  Keeps-forth_primitive_c_store, Keeps-forth_primitive_count, Keeps-forth_primitive_dot_binary,
  Keeps-forth_primitive_dot_formatted, Keeps-forth_primitive_dot_hex,
  Keeps-forth_primitive_dot_unsigned, Keeps-forth_primitive_emit, Keeps-forth_primitive_fetch,
  Keeps-forth_primitive_from_r, Keeps-forth_primitive_invert, Keeps-forth_primitive_lshift,
  Keeps-forth_primitive_or, Keeps-forth_primitive_rshift, Keeps-forth_primitive_store,
  Keeps-forth_primitive_to_r, Keeps-forth_primitive_type, Keeps-forth_primitive_xor,
  Keeps-forth_sub, Keeps-forth_swap,
}

-- The handlers of a table.
unfoldable pub HandlersFit : List Builtin → Type 0
HandlersFit [] = Unit {0}
HandlersFit (w ∷ words) = KeepsFit w.handler × HandlersFit words

-- One row, and those after it.
infixr 4 ◌▸◌
◌▸◌ : {A B : Type 0} → A → B → A × B
h ▸ rest = (h, rest)

pub HandlersFit-nth :
    (words : List Builtin) (i : ℕ) (w : Builtin)
    → HandlersFit words
    → nth words i ≡ some w
    → KeepsFit w.handler
unfolding HandlersFit nth
HandlersFit-nth [] i w h e = absurd (cc)
HandlersFit-nth (x ∷ words) zero w (k, h) e =
    subst (λ y. KeepsFit y.handler) (some-injective x w e) k
HandlersFit-nth (x ∷ words) (suc i) w (k, h) e = HandlersFit-nth words i w h e

pub builtin_words-HandlersFit :
    (interpret_line : List ℕ → Action (Unit {0}))
    → ((line : List ℕ) → AreBytes line → KeepsFit (interpret_line line))
    → (o : Outside) → CallsFit o
    → (heap_fuel : ℕ) → HandlersFit (builtin_words interpret_line o heap_fuel)
unfolding builtin_words HandlersFit
builtin_words-HandlersFit interpret_line fits o calls heap_fuel =
    Keeps-forth_primitive_store
    ▸ Keeps-fail Stop.null_pointer
    ▸ Keeps-forth_mul
    ▸ Keeps-forth_add
    ▸ Keeps-forth_sub
    ▸ Keeps-forth_dual_to o calls
    ▸ Keeps-forth_dot
    ▸ Keeps-forth_dual_dot_quote
    ▸ Keeps-forth_cmd_colon
    ▸ Keeps-forth_cmd_semicolon
    ▸ Keeps-forth_less_than
    ▸ Keeps-forth_not_equal
    ▸ Keeps-forth_cmd_backslash
    ▸ Keeps-forth_equal
    ▸ Keeps-forth_greater_than
    ▸ Keeps-forth_primitive_to_r
    ▸ Keeps-forth_primitive_fetch
    ▸ Keeps-forth_dual_bracket_char o calls
    ▸ Keeps-forth_0equal
    ▸ Keeps-forth_primitive_abort
    ▸ Keeps-forth_cmd_again
    ▸ Keeps-forth_cmd_alloc_chunk
    ▸ Keeps-forth_cmd_allocate heap_fuel
    ▸ Keeps-forth_primitive_and
    ▸ Keeps-forth_primitive_arshift
    ▸ Keeps-forth_cmd_begin
    ▸ Keeps-forth_primitive_c_fetch
    ▸ Keeps-forth_primitive_c_store
    ▸ Keeps-forth_dual_char o calls
    ▸ Keeps-forth_cr
    ▸ Keeps-forth_primitive_count
    ▸ Keeps-forth_dual_constant o calls
    ▸ Keeps-forth_dup
    ▸ Keeps-forth_drop
    ▸ Keeps-forth_cmd_else
    ▸ Keeps-forth_primitive_emit
    ▸ Keeps-forth_cmd_if
    ▸ Keeps-forth_primitive_included interpret_line fits o calls
    ▸ Keeps-forth_primitive_invert
    ▸ Keeps-forth_primitive_f_close
    ▸ Keeps-forth_primitive_f_create o
    ▸ Keeps-forth_primitive_f_open o
    ▸ Keeps-forth_primitive_f_read o calls
    ▸ Keeps-forth_primitive_f_write o
    ▸ Keeps-forth_cmd_fast_cell_free
    ▸ Keeps-forth_cmd_fast_cell
    ▸ Keeps-forth_cmd_free_chunk
    ▸ Keeps-forth_cmd_free heap_fuel
    ▸ Keeps-forth_primitive_lshift
    ▸ Keeps-forth_cmd_mem_dump heap_fuel
    ▸ Keeps-forth_primitive_or
    ▸ Keeps-forth_over
    ▸ Keeps-forth_primitive_from_r
    ▸ Keeps-forth_primitive_rshift
    ▸ Keeps-forth_dual_s_quote o.hw_spi_ram_read32 calls.hw_spi_ram_read32
    ▸ Keeps-forth_swap
    ▸ Keeps-forth_cmd_then
    ▸ Keeps-forth_dual_to o calls
    ▸ Keeps-forth_primitive_type
    ▸ calls.dummy_xt
    ▸ Keeps-forth_dual_variable o calls
    ▸ Keeps-forth_cmd_until
    ▸ Keeps-forth_primitive_dot_hex
    ▸ Keeps-forth_primitive_dot_unsigned
    ▸ Keeps-forth_primitive_dot_binary
    ▸ Keeps-forth_primitive_dot_formatted
    ▸ Keeps-forth_primitive_xor
    ▸ tt
