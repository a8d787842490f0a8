-- ===== src/Compiler.antt =====
-- The compiling words of forth_dict.c and the primitives that run what they compile. A word of
-- threaded code is an execution token or its operand; `dict_free_ptr` is the compilation frontier and
-- `ip` the instruction pointer.
pub mod Layout
pub mod Literal
pub mod Loops
pub mod Conditional
pub mod Again
use u_forth.Prelude.{ℕ, ◌+◌, ◌-◌, ◌*◌, ◌%◌, ◌^◌, ◌/◌, ◌==◌, Bool, true, false, not}
use u_forth.Vm.{Vm, ForthState}
use u_forth.Words.Arith.{add32, sub32}
use u_forth.Machine.{
  Action, ok, pure, branch, ◌>>=◌, ◌>>◌, if_vm, get_vm, set_vm, hw_read32, hw_write32, forth_abort,
  forth_push, forth_pop, forth_r_push, forth_r_pop,
}

-- XT_LIT, XT_BRANCH, XT_0BRANCH: the kernel's own tokens, which index its table of handlers. XT_EXIT
-- is the second token behind them.
abbrev pub xt_lit : ℕ
xt_lit = 1

abbrev pub xt_branch : ℕ
xt_branch = 2

abbrev pub xt_0branch : ℕ
xt_0branch = 3

abbrev pub xt_exit : ℕ
xt_exit = 5

unfoldable pub set_dict_free_ptr : ℕ → Action (Unit {0})
set_dict_free_ptr p = do v ← get_vm; set_vm (record v { dict_free_ptr = p })

unfoldable pub set_ip : ℕ → Action (Unit {0})
set_ip p = do v ← get_vm; set_vm (record v { ip = p })

unfoldable pub set_state : ForthState → Action (Unit {0})
set_state s = do v ← get_vm; set_vm (record v { state = s })

unfoldable pub is_compile : ForthState → Bool
is_compile ForthState.compile = true
is_compile _ = false

-- A token and its operand at the frontier.
unfoldable pub compile_pair : ℕ → ℕ → Action (Unit {0})
compile_pair xt operand = do
  v ← get_vm
  let free_ptr = v.dict_free_ptr
  hw_write32 free_ptr xt
  hw_write32 (add32 free_ptr 4) operand
  set_dict_free_ptr (add32 free_ptr 8)

-- The numeric branch of `process_token`: pushed by the interpreter, compiled as a literal by the
-- compiler, ignored at run time.
unfoldable pub process_number : ℕ → Action (Unit {0})
process_number numeric_val = do
  v ← get_vm
  elim v.state [
    | ForthState.repl ↦ forth_push numeric_val
    | ForthState.compile ↦ compile_pair xt_lit numeric_val
    | ForthState.runtime ↦ pure tt
  ]

-- A public word that is no immediate one, met by the compiler: its token at the frontier.
unfoldable pub compile_token : ℕ → Action (Unit {0})
compile_token xt_id = do
  v ← get_vm
  hw_write32 v.dict_free_ptr xt_id
  v' ← get_vm
  set_dict_free_ptr (add32 v'.dict_free_ptr 4)

unfoldable pub forth_primitive_exit : Action (Unit {0})
forth_primitive_exit = do ip ← forth_r_pop; set_ip ip

unfoldable pub forth_primitive_lit : Action (Unit {0})
forth_primitive_lit = do
  v ← get_vm
  literal_val ← hw_read32 v.ip
  forth_push literal_val
  v' ← get_vm
  set_ip (add32 v'.ip 4)

unfoldable pub forth_primitive_branch : Action (Unit {0})
forth_primitive_branch = do v ← get_vm; offset ← hw_read32 v.ip; set_ip (add32 v.ip offset)

-- `hw_spi_ram_read32` is called here and defined nowhere in the repository.
unfoldable pub forth_primitive_0branch : (hw_spi_ram_read32 : ℕ → Action ℕ) → Action (Unit {0})
forth_primitive_0branch hw_spi_ram_read32 = do
  flag ← forth_pop
  v ← get_vm
  target ← hw_spi_ram_read32 v.ip
  branch (flag == 0) (set_ip target) (set_ip (add32 v.ip 4))

unfoldable pub forth_cmd_begin : Action (Unit {0})
forth_cmd_begin = do
  v ← get_vm
  branch (is_compile v.state) (forth_push v.dict_free_ptr) forth_abort

unfoldable pub forth_cmd_until : Action (Unit {0})
forth_cmd_until = do
  v ← get_vm
  branch (is_compile v.state)
      (do target_address ← forth_pop; compile_pair xt_0branch target_address) forth_abort

-- The last write goes to the address `dict_free_ptr`; the pointer itself is not changed.
unfoldable pub forth_cmd_again : Action (Unit {0})
forth_cmd_again = do
  v ← get_vm
  let free_ptr = v.dict_free_ptr
  begin_addr ← forth_r_pop
  hw_write32 free_ptr xt_branch
  let offset = sub32 begin_addr (add32 free_ptr 4)
  hw_write32 (add32 free_ptr 4) offset
  v' ← get_vm
  hw_write32 v'.dict_free_ptr (add32 free_ptr 8)

unfoldable pub forth_cmd_colon : Action (Unit {0})
forth_cmd_colon = if_vm (set_state ForthState.compile)

unfoldable pub forth_cmd_semicolon : Action (Unit {0})
forth_cmd_semicolon = if_vm (do
  v ← get_vm
  hw_write32 v.dict_free_ptr xt_exit
  set_dict_free_ptr (add32 v.dict_free_ptr 4)
  set_state ForthState.repl)

unfoldable pub forth_cmd_if : Action (Unit {0})
forth_cmd_if = if_vm (do
  v ← get_vm
  let free_ptr = v.dict_free_ptr
  hw_write32 free_ptr xt_0branch
  hw_write32 (add32 free_ptr 4) 0
  forth_r_push (add32 free_ptr 4)
  set_dict_free_ptr (add32 free_ptr 8))

unfoldable pub forth_cmd_then : Action (Unit {0})
forth_cmd_then = if_vm (do
  v ← get_vm
  let free_ptr = v.dict_free_ptr
  patch_addr ← forth_r_pop
  hw_write32 patch_addr (sub32 free_ptr patch_addr))

unfoldable pub forth_cmd_else : Action (Unit {0})
forth_cmd_else = if_vm (do
  v ← get_vm
  let free_ptr = v.dict_free_ptr
  hw_write32 free_ptr xt_branch
  hw_write32 (add32 free_ptr 4) 0
  let new_patch_addr = add32 free_ptr 4
  let free_ptr' = add32 free_ptr 8
  if_patch_addr ← forth_r_pop
  hw_write32 if_patch_addr (sub32 free_ptr' if_patch_addr)
  forth_r_push new_patch_addr
  set_dict_free_ptr free_ptr')
