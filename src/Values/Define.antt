-- ===== src/Values/Define.antt =====
-- CONSTANT, VARIABLE and TO, and the primitive that runs a variable. They rest on functions that the
-- repository does not define.
use u_forth.Prelude.{ℕ, ◌==◌}
use u_forth.Machine.{
  Action, pure, branch, ◌>>=◌, ◌>>◌, get_vm, hw_write32, forth_push, forth_pop, forth_abort,
}
use u_forth.Outside.{Outside}
use u_forth.Words.Arith.{add32}
use u_forth.Compiler.{set_ip, set_dict_free_ptr, is_compile, compile_pair}
use u_forth.Strings.{set_parse_line_ptr}
use u_forth.Strings.Chars.{is_runtime}

-- XT_PRIMITIVE_VAR_RT and XT_CMD_TO, from the enumeration without its repeated members.
abbrev pub xt_primitive_var_rt : ℕ
xt_primitive_var_rt = 62

abbrev pub xt_cmd_to : ℕ
xt_cmd_to = 65

-- `forth_dual_constant` and `forth_dual_variable` have the same body: a cell with 0 at the frontier,
-- and a word of that address.
unfoldable pub forth_dual_variable : Outside → Action (Unit {0})
forth_dual_variable o = do
  v ← get_vm
  branch (is_runtime v.state) (pure tt) (do
    let parsed = o.parse_next_token_to_buf v.parse_line_ptr
    set_parse_line_ptr parsed.1
    let var_data_addr = v.dict_free_ptr
    hw_write32 var_data_addr 0
    set_dict_free_ptr (add32 var_data_addr 4)
    o.dict_add_user_word parsed.0 xt_primitive_var_rt var_data_addr)

unfoldable pub forth_dual_constant : Outside → Action (Unit {0})
forth_dual_constant o = do
  v ← get_vm
  branch (is_runtime v.state) (pure tt) (do
    let parsed = o.parse_next_token_to_buf v.parse_line_ptr
    set_parse_line_ptr parsed.1
    let var_data_addr = v.dict_free_ptr
    hw_write32 var_data_addr 0
    set_dict_free_ptr (add32 var_data_addr 4)
    o.dict_add_user_word parsed.0 xt_primitive_var_rt var_data_addr)

unfoldable pub forth_primitive_var_runtime : Outside → Action (Unit {0})
forth_primitive_var_runtime o = do
  v ← get_vm
  data_addr ← o.hw_spi_ram_read32 v.ip
  set_ip (add32 v.ip 4)
  forth_push data_addr

-- The case FORTH_STATE_RUNTIME.
unfoldable pub run_to : Outside → Action (Unit {0})
run_to o = do
  v ← get_vm
  target_addr ← o.hw_spi_ram_read32 v.ip
  set_ip (add32 v.ip 4)
  value ← forth_pop
  hw_write32 target_addr value

unfoldable pub forth_dual_to : Outside → Action (Unit {0})
forth_dual_to o = do
  v ← get_vm
  branch (is_runtime v.state) (run_to o) (do
    let parsed = o.parse_next_token_to_buf v.parse_line_ptr
    set_parse_line_ptr parsed.1
    var_data_addr ← o.dict_find_variable_address parsed.0
    branch (var_data_addr == 0) forth_abort (do
      v' ← get_vm
      branch (is_compile v'.state) (compile_pair xt_cmd_to var_data_addr)
          (do value ← forth_pop; hw_write32 var_data_addr value)))
