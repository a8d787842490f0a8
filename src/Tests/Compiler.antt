-- ===== src/Tests/Compiler.antt =====
-- The compiling words: tests and instances.
use u_forth.Prelude.{◌+◌, ◌≡◌, ◌≢◌, refl, some, arith, ◌==◌, if◌then◌else◌}
use u_forth.Bus.Access.{load}
use u_forth.Vm
use u_forth.Vm.{Vm}
use u_forth.Machine.{Machine, ok, hw_read32}
use u_forth.Machine.Laws.{with_vm}
use u_forth.Words.Arith.{sub32}
use u_forth.Compiler.{
  xt_lit, xt_0branch, process_number, forth_primitive_lit, forth_primitive_0branch, forth_cmd_until,
  forth_cmd_then,
}
use u_forth.Compiler.Layout.{HasSpace}
use u_forth.Compiler.Literal.{process_number-lit}
use u_forth.Compiler.Loops.{until-zero_branch}
use u_forth.Compiler.Conditional.{then-zero_branch}
use u_forth.Tests.Fixtures.{vm, start}

space : HasSpace 0x60080000 8
space = omega arith

process_number-lit_example :
    (m' : Machine) × (process_number 42 start ≡ ok tt m')
    × (m'.current_forth_vm ≡ some (record vm { dict_free_ptr = 0x60080008 }))
    × (load m'.bus 0x60080000 ≡ xt_lit)
    × (forth_primitive_lit (with_vm m' vm)
        ≡ ok tt (with_vm m' (record (Vm.push 42 vm) { ip = 0x60080008 })))
process_number-lit_example = process_number-lit start vm 42 vm refl refl space (omega arith) refl

-- The target is 7, the number on top of the stack.
until-zero_branch_example :
    (m' : Machine) × (forth_cmd_until start ≡ ok tt m')
    × (load m'.bus (Vm.pop vm).1.dict_free_ptr ≡ xt_0branch)
    × (forth_primitive_0branch hw_read32 (with_vm m' vm)
        ≡ ok tt (
            with_vm m' (record (Vm.pop vm).1 {
              ip = if (Vm.pop vm).0 == 0 then (Vm.pop vm).0 else (Vm.pop vm).1.dict_free_ptr + 8;
            })))
unfolding Vm.pop
until-zero_branch_example =
    until-zero_branch hw_read32 start vm vm (λ a m. refl) refl refl space (omega arith) refl

-- A flag of 0 on the stack, at the cell that is patched.
abbrev false_flag : Vm
false_flag = record vm { data_stack = λ _. 0 }

then-zero_branch_example :
    (m' : Machine) × (forth_cmd_then start ≡ ok tt m')
    × (forth_primitive_0branch hw_read32 (with_vm m' false_flag)
        ≡ ok tt
            (with_vm m' (record (Vm.pop false_flag).1 { ip = sub32 0x60080000 (Vm.r_pop vm).0 })))
    × (sub32 0x60080000 (Vm.r_pop vm).0 ≢ 0x60080000)
unfolding Vm.r_pop Vm.pop
then-zero_branch_example =
    then-zero_branch start vm false_flag refl refl (omega arith) hw_read32 (λ a m. refl) refl refl
