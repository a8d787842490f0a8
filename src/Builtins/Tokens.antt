-- ===== src/Builtins/Tokens.antt =====
-- The execution tokens of forth_dict.h. The enumeration repeats XT_LIT, XT_BRANCH and XT_0BRANCH, which
-- C does not accept; they are counted once, where they stand first.
use u_forth.Prelude.{ℕ}

-- forth_xt_t
pub data ForthXt : Type 0 where
  xt_none xt_kernel_start xt_lit xt_branch xt_0branch xt_kernel_end xt_abort xt_exit xt_cr xt_dot
        xt_dot_unsigned xt_dot_hex xt_dot_binary xt_dot_formatted xt_mul xt_sub xt_add xt_and xt_or
        xt_xor xt_invert xt_lshift xt_rshift xt_arshift xt_drop xt_over xt_swap xt_dup xt_0equal
        xt_equal xt_not_equal xt_less_than xt_greater_than xt_fast_cell_free xt_fast_cell
        xt_free_chunk xt_alloc_chunk xt_free xt_allocate xt_type xt_count xt_semicolon xt_colon
        xt_dot_quote xt_primitive_p_dot_quote xt_s_quote xt_included xt_mem_dump xt_store xt_fetch
        xt_c_store xt_c_fetch xt_cmd_if xt_cmd_else xt_cmd_then xt_cmd_begin xt_cmd_until
        xt_cmd_again xt_backslash xt_cmd_char xt_cmd_bracket_char xt_emit xt_to_r xt_from_r
        xt_primitive_var_rt xt_primitive_constant_rt xt_cmd_value xt_cmd_to xt_primitive_p_value
        xt_f_open xt_f_create xt_f_write xt_f_read xt_f_close :
      ForthXt

-- The value of an enumerator.
abbrev pub value : ForthXt → ℕ
value xt_none = 0
value xt_kernel_start = 1
value xt_lit = 1
value xt_branch = 2
value xt_0branch = 3
value xt_kernel_end = 4
value xt_abort = 4
value xt_exit = 5
value xt_cr = 6
value xt_dot = 7
value xt_dot_unsigned = 8
value xt_dot_hex = 9
value xt_dot_binary = 10
value xt_dot_formatted = 11
value xt_mul = 12
value xt_sub = 13
value xt_add = 14
value xt_and = 15
value xt_or = 16
value xt_xor = 17
value xt_invert = 18
value xt_lshift = 19
value xt_rshift = 20
value xt_arshift = 21
value xt_drop = 22
value xt_over = 23
value xt_swap = 24
value xt_dup = 25
value xt_0equal = 26
value xt_equal = 27
value xt_not_equal = 28
value xt_less_than = 29
value xt_greater_than = 30
value xt_fast_cell_free = 31
value xt_fast_cell = 32
value xt_free_chunk = 33
value xt_alloc_chunk = 34
value xt_free = 35
value xt_allocate = 36
value xt_type = 37
value xt_count = 38
value xt_semicolon = 39
value xt_colon = 40
value xt_dot_quote = 41
value xt_primitive_p_dot_quote = 42
value xt_s_quote = 43
value xt_included = 44
value xt_mem_dump = 45
value xt_store = 46
value xt_fetch = 47
value xt_c_store = 48
value xt_c_fetch = 49
value xt_cmd_if = 50
value xt_cmd_else = 51
value xt_cmd_then = 52
value xt_cmd_begin = 53
value xt_cmd_until = 54
value xt_cmd_again = 55
value xt_backslash = 56
value xt_cmd_char = 57
value xt_cmd_bracket_char = 58
value xt_emit = 59
value xt_to_r = 60
value xt_from_r = 61
value xt_primitive_var_rt = 62
value xt_primitive_constant_rt = 63
value xt_cmd_value = 64
value xt_cmd_to = 65
value xt_primitive_p_value = 66
value xt_f_open = 67
value xt_f_create = 68
value xt_f_write = 69
value xt_f_read = 70
value xt_f_close = 71
