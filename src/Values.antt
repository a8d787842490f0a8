-- ===== src/Values.antt =====
-- The primitives of forth_dict.c that run the words of constants, values and variables. The
-- instruction pointer stands at the cell behind the word's token, or behind the token of (TO).
pub mod Store
pub mod Define
use u_forth.Machine.{
  Action, ◌>>=◌, ◌>>◌, get_vm, hw_read32, hw_write32, forth_push, forth_pop, forth_r_pop,
}
use u_forth.Words.Arith.{add32}
use u_forth.Words.{if_running}
use u_forth.Compiler.{set_ip}

unfoldable pub forth_primitive_p_constant : Action (Unit {0})
forth_primitive_p_constant = do
  v ← get_vm
  val ← hw_read32 v.ip
  forth_push val
  saved_ip ← forth_r_pop
  set_ip saved_ip

unfoldable pub forth_primitive_p_value : Action (Unit {0})
forth_primitive_p_value = do
  v ← get_vm
  val ← hw_read32 v.ip
  forth_push val
  saved_ip ← forth_r_pop
  set_ip saved_ip

unfoldable pub forth_primitive_p_to : Action (Unit {0})
forth_primitive_p_to = do
  v ← get_vm
  target_value_xt ← hw_read32 v.ip
  new_val ← forth_pop
  if_running (hw_write32 (add32 target_value_xt 4) new_val)
  set_ip (add32 v.ip 4)

unfoldable pub forth_primitive_p_variable : Action (Unit {0})
forth_primitive_p_variable = do
  v ← get_vm
  forth_push v.ip
  saved_return_ip ← forth_r_pop
  set_ip saved_return_ip
