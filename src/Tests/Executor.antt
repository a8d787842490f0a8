-- ===== src/Tests/Executor.antt =====
-- The executor of threaded code: tests and instances.
use u_forth.Prelude.{◌≡◌, refl, ◌==◌, if◌then◌else◌, none, some, [], ◌∷◌, arith}
use u_forth.Vm
use u_forth.Vm.{Vm, ForthState}
use u_forth.Machine.{Machine, ok}
use u_forth.Machine.Laws.{with_vm}
use u_forth.Outside.{Outside}
use u_forth.Compiler.{forth_primitive_exit}
use u_forth.Executor.{forth_execute_compiled_xt}
use u_forth.Executor.Literals.{push_all, Executes, Fits}
use u_forth.Executor.Layout.{compile_literals}
use u_forth.Executor.Compiled.{at_start, compile_literals-execute, compile_literals-aborts}
use u_forth.Tests.Fixtures.{vm, start}
use u_forth.Tests.Outside.{outside}

abbrev executing : Outside
executing = record outside {
  get_public_handler_by_id = λ xt. if xt == 5 then some forth_primitive_exit else none;
}

executing-Executes : Executes executing
executing-Executes = (λ a m. refl, refl)

-- 0 is on the return stack.
abbrev returning : Vm
returning = record vm { ip = 0x60080000; return_stack = λ _. 0 }

two_fit : Fits 0x60080000 (7 ∷ 9 ∷ [])
two_fit = omega arith

compile_literals-execute_example :
    (m' : Machine) × (compile_literals (7 ∷ 9 ∷ []) (with_vm start returning) ≡ ok tt m')
    × (forth_execute_compiled_xt 4 executing 0x60080000 m'
        ≡ ok tt (
            with_vm m'
              (record (Vm.r_pop (push_all (7 ∷ 9 ∷ []) (at_start (7 ∷ 9 ∷ []) returning))).1 {
                state = ForthState.repl;
                ip = 0x60080000;
              })))
unfolding Vm.r_pop
compile_literals-execute_example =
    compile_literals-execute executing (7 ∷ 9 ∷ []) (with_vm start returning) returning 4
      executing-Executes refl refl two_fit (omega arith, (omega arith, tt)) refl (omega arith)

abbrev unreturned : Vm
unreturned = record vm { rp = 0 }

compile_literals-aborts_example :
    (m' m'' : Machine) × (w : Vm) × (compile_literals (7 ∷ 9 ∷ []) (with_vm start unreturned)
      ≡ ok tt m')
    × (forth_execute_compiled_xt 4 executing 0x60080000 m' ≡ ok tt m'')
    × (m''.current_forth_vm ≡ some w)
    × (w.abort_flag ≡ 1)
    × (w.sp ≡ 0)
compile_literals-aborts_example =
    compile_literals-aborts executing (7 ∷ 9 ∷ []) (with_vm start unreturned) unreturned 4
      executing-Executes refl refl two_fit (omega arith, (omega arith, tt)) refl refl (omega arith)
