-- ===== src/Executor.antt =====
-- execute_native_id and forth_execute_compiled_xt of forth_dict.c: the loop that runs threaded code. It
-- takes fuel.
pub mod Steps
pub mod Literals
pub mod Layout
pub mod Compiled
use u_forth.Prelude.{ℕ, zero, suc, Option, none, some, ◌&&◌, ltb, leb, ◌==◌}
use u_forth.Vm.{ForthState}
use u_forth.Machine.{Action, Stop, pure, fail, branch, ◌>>=◌, ◌>>◌, get_vm, set_vm, forth_abort}
use u_forth.Outside.{Outside}
use u_forth.Words.Arith.{add32}
use u_forth.Compiler.{
  xt_lit, xt_branch, xt_0branch, set_ip, forth_primitive_lit, forth_primitive_branch,
  forth_primitive_0branch,
}

-- XT_KERNEL_START and XT_KERNEL_END
abbrev pub xt_kernel_start : ℕ
xt_kernel_start = 1

abbrev pub xt_kernel_end : ℕ
xt_kernel_end = 4

-- `kernel_primitive_handlers[xt]`
unfoldable pub kernel_primitive_handlers : Outside → ℕ → Option (Action (Unit {0}))
kernel_primitive_handlers o (suc zero) = some forth_primitive_lit
kernel_primitive_handlers o (suc (suc zero)) = some forth_primitive_branch
kernel_primitive_handlers o (suc (suc (suc zero))) =
    some (forth_primitive_0branch o.hw_spi_ram_read32)
kernel_primitive_handlers o xt = none

-- The public words, or an abort.
unfoldable pub execute_public : Outside → ℕ → Action (Unit {0})
execute_public o xt = elim (o.get_public_handler_by_id xt) [
  | none ↦ forth_abort
  | some handler ↦ handler
]

unfoldable pub execute_native_id : Outside → ℕ → Action (Unit {0})
execute_native_id o xt =
    branch (leb xt_kernel_start xt && ltb xt xt_kernel_end)
      (elim (kernel_primitive_handlers o xt) [
        | none ↦ execute_public o xt
        | some handler ↦ handler
      ])
      (execute_public o xt)

-- The body of the loop: the token at `ip`, with `ip` behind it.
unfoldable pub execute_next : Outside → Action (Unit {0})
execute_next o = do
  v ← get_vm
  current_xt ← o.hw_spi_ram_read32 v.ip
  set_ip (add32 v.ip 4)
  execute_native_id o current_xt

unfoldable pub execute_loop : ℕ → Outside → Action (Unit {0})
execute_loop zero o = fail Stop.out_of_fuel
execute_loop (suc fuel) o = do
  v ← get_vm
  branch (v.ip == 0) (pure tt) (execute_next o >> execute_loop fuel o)

unfoldable pub forth_execute_compiled_xt : ℕ → Outside → ℕ → Action (Unit {0})
forth_execute_compiled_xt fuel o xt_address = do
  v ← get_vm
  set_vm (record v { state = ForthState.runtime; ip = xt_address })
  execute_loop fuel o
  v' ← get_vm
  set_vm (record v' { state = v.state; ip = v.ip })
