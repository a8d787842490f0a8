-- ===== src/Builtins/Table.antt =====
-- builtin_words of forth_dict.c, row by row in the order of the source.
use u_forth.Prelude.{ℕ, Bool, true, false, List, [], ◌∷◌}
use u_forth.Machine.{Action, Stop, fail}
use u_forth.Outside.{Outside}
use u_forth.CellPool.{forth_cmd_fast_cell, forth_cmd_fast_cell_free}
use u_forth.ChunkPool.{forth_cmd_alloc_chunk, forth_cmd_free_chunk}
use u_forth.Heap.{forth_cmd_allocate, forth_cmd_free}
use u_forth.Words.Arith.{
  forth_add, forth_sub, forth_mul, forth_primitive_and, forth_primitive_or, forth_primitive_xor,
  forth_primitive_invert, forth_primitive_lshift, forth_primitive_rshift, forth_primitive_arshift,
  forth_0equal, forth_equal, forth_not_equal, forth_less_than, forth_greater_than,
}
use u_forth.Words.Memory.{
  forth_primitive_store, forth_primitive_fetch, forth_primitive_c_store, forth_primitive_c_fetch,
  forth_primitive_to_r, forth_primitive_from_r, forth_primitive_count,
}
use u_forth.Words.Print.{
  forth_dot, forth_primitive_dot_unsigned, forth_primitive_dot_hex, forth_cr, forth_primitive_emit,
  forth_primitive_dot_binary, forth_primitive_dot_formatted, forth_primitive_type,
}
use u_forth.Compiler.{
  forth_cmd_begin, forth_cmd_until, forth_cmd_again, forth_cmd_colon, forth_cmd_semicolon,
  forth_cmd_if, forth_cmd_then, forth_cmd_else,
}
use u_forth.Strings.{forth_dual_s_quote, forth_cmd_backslash}
use u_forth.Strings.Chars.{forth_dual_char, forth_dual_bracket_char, forth_dual_dot_quote}
use u_forth.Values.Define.{forth_dual_variable, forth_dual_constant, forth_dual_to}
use u_forth.Files.{
  forth_primitive_f_open, forth_primitive_f_create, forth_primitive_f_write, forth_primitive_f_read,
  forth_primitive_f_close, forth_primitive_included,
}
use u_forth.Debug.{forth_cmd_mem_dump}
use u_forth.Builtins.Tokens.{ForthXt, value}
use u_forth.Builtins.{
  Builtin, codes, forth_drop, forth_dup, forth_swap, forth_over, forth_primitive_abort,
}

abbrev builtin : List ℕ → Action (Unit {0}) → ForthXt → Bool → Builtin
builtin name handler xt_id is_immediate = record {
  name = name;
  handler = handler;
  xt_id = value xt_id;
  is_immediate = is_immediate;
}

-- INCLUDED interprets the lines of its script by the function that it is given, and the heap words
-- and MEM-DUMP walk with the given fuel. The handler of ." is NULL, and its token 0.
unfoldable pub builtin_words : (List ℕ → Action (Unit {0})) → Outside → ℕ → List Builtin
builtin_words interpret_line o heap_fuel =
    builtin (codes "!") forth_primitive_store ForthXt.xt_store false
    ∷ builtin (codes ".\"") (fail Stop.null_pointer) ForthXt.xt_none false
    ∷ builtin (codes "*") forth_mul ForthXt.xt_mul false
    ∷ builtin (codes "+") forth_add ForthXt.xt_add false
    ∷ builtin (codes "-") forth_sub ForthXt.xt_sub false
    ∷ builtin (codes "->") (forth_dual_to o) ForthXt.xt_cmd_to true
    ∷ builtin (codes ".") forth_dot ForthXt.xt_dot false
    ∷ builtin (codes ".\\") forth_dual_dot_quote ForthXt.xt_dot_quote true
    ∷ builtin (codes ":") forth_cmd_colon ForthXt.xt_colon true
    ∷ builtin (codes ";") forth_cmd_semicolon ForthXt.xt_semicolon false
    ∷ builtin (codes "<") forth_less_than ForthXt.xt_less_than false
    ∷ builtin (codes "<>") forth_not_equal ForthXt.xt_not_equal false
    ∷ builtin (codes "\\") forth_cmd_backslash ForthXt.xt_backslash true
    ∷ builtin (codes "=") forth_equal ForthXt.xt_equal false
    ∷ builtin (codes ">") forth_greater_than ForthXt.xt_greater_than false
    ∷ builtin (codes ">R") forth_primitive_to_r ForthXt.xt_to_r false
    ∷ builtin (codes "@") forth_primitive_fetch ForthXt.xt_fetch false
    ∷ builtin (codes "[CHAR]") (forth_dual_bracket_char o) ForthXt.xt_cmd_bracket_char true
    ∷ builtin (codes "0=") forth_0equal ForthXt.xt_0equal false
    ∷ builtin (codes "ABORT") forth_primitive_abort ForthXt.xt_abort false
    ∷ builtin (codes "AGAIN") forth_cmd_again ForthXt.xt_cmd_again true
    ∷ builtin (codes "ALLOC-CHUNK") forth_cmd_alloc_chunk ForthXt.xt_alloc_chunk false
    ∷ builtin (codes "ALLOCATE") (forth_cmd_allocate heap_fuel) ForthXt.xt_allocate false
    ∷ builtin (codes "AND") forth_primitive_and ForthXt.xt_and false
    ∷ builtin (codes "ARSHIFT") forth_primitive_arshift ForthXt.xt_arshift false
    ∷ builtin (codes "BEGIN") forth_cmd_begin ForthXt.xt_cmd_begin true
    ∷ builtin (codes "C@") forth_primitive_c_fetch ForthXt.xt_c_fetch false
    ∷ builtin (codes "C!") forth_primitive_c_store ForthXt.xt_c_store false
    ∷ builtin (codes "CHAR") (forth_dual_char o) ForthXt.xt_cmd_char true
    ∷ builtin (codes "CR") forth_cr ForthXt.xt_cr false
    ∷ builtin (codes "COUNT") forth_primitive_count ForthXt.xt_count false
    ∷ builtin (codes "CONSTANT") (forth_dual_constant o) ForthXt.xt_primitive_constant_rt false
    ∷ builtin (codes "DUP") forth_dup ForthXt.xt_dup false
    ∷ builtin (codes "DROP") forth_drop ForthXt.xt_drop false
    ∷ builtin (codes "ELSE") forth_cmd_else ForthXt.xt_cmd_else true
    ∷ builtin (codes "EMIT") forth_primitive_emit ForthXt.xt_emit false
    ∷ builtin (codes "IF") forth_cmd_if ForthXt.xt_cmd_if true
    ∷ builtin (codes "INCLUDED") (forth_primitive_included interpret_line o) ForthXt.xt_included
        false
    ∷ builtin (codes "INVERT") forth_primitive_invert ForthXt.xt_invert false
    ∷ builtin (codes "F-CLOSE") forth_primitive_f_close ForthXt.xt_f_close false
    ∷ builtin (codes "F-CREATE") (forth_primitive_f_create o) ForthXt.xt_f_create false
    ∷ builtin (codes "F-OPEN") (forth_primitive_f_open o) ForthXt.xt_f_open false
    ∷ builtin (codes "F-READ") (forth_primitive_f_read o) ForthXt.xt_f_read false
    ∷ builtin (codes "F-WRTE") (forth_primitive_f_write o) ForthXt.xt_f_write false
    ∷ builtin (codes "FAST-CELL-FREE") forth_cmd_fast_cell_free ForthXt.xt_fast_cell_free false
    ∷ builtin (codes "FAST-CELL") forth_cmd_fast_cell ForthXt.xt_fast_cell false
    ∷ builtin (codes "FREE-CHUNK") forth_cmd_free_chunk ForthXt.xt_free_chunk false
    ∷ builtin (codes "FREE") (forth_cmd_free heap_fuel) ForthXt.xt_free false
    ∷ builtin (codes "LSHIFT") forth_primitive_lshift ForthXt.xt_lshift false
    ∷ builtin (codes "MEM-DUMP") (forth_cmd_mem_dump heap_fuel) ForthXt.xt_mem_dump false
    ∷ builtin (codes "OR") forth_primitive_or ForthXt.xt_or false
    ∷ builtin (codes "OVER") forth_over ForthXt.xt_over false
    ∷ builtin (codes "R>") forth_primitive_from_r ForthXt.xt_from_r false
    ∷ builtin (codes "RSHIFT") forth_primitive_rshift ForthXt.xt_lshift false
    ∷ builtin (codes "S\"") (forth_dual_s_quote o.hw_spi_ram_read32) ForthXt.xt_s_quote true
    ∷ builtin (codes "SWAP") forth_swap ForthXt.xt_swap false
    ∷ builtin (codes "THEN") forth_cmd_then ForthXt.xt_cmd_then true
    ∷ builtin (codes "TO") (forth_dual_to o) ForthXt.xt_cmd_to true
    ∷ builtin (codes "TYPE") forth_primitive_type ForthXt.xt_type false
    ∷ builtin (codes "VALUE") o.dummy_xt ForthXt.xt_cmd_value false
    ∷ builtin (codes "VARIABLE") (forth_dual_variable o) ForthXt.xt_primitive_var_rt false
    ∷ builtin (codes "UNTIL") forth_cmd_until ForthXt.xt_cmd_until true
    ∷ builtin (codes "H.") forth_primitive_dot_hex ForthXt.xt_dot_hex false
    ∷ builtin (codes "U.") forth_primitive_dot_unsigned ForthXt.xt_dot_unsigned false
    ∷ builtin (codes "B.") forth_primitive_dot_binary ForthXt.xt_dot_binary false
    ∷ builtin (codes "Q.") forth_primitive_dot_formatted ForthXt.xt_dot_formatted false
    ∷ builtin (codes "XOR") forth_primitive_xor ForthXt.xt_xor false
    ∷ []
