-- ===== src/Tests/Stack.antt =====
-- The stacks: tests and instances.
use u_forth.Prelude.{◌≡◌, refl, List, [], ◌∷◌}
use u_forth.Vm.Stacks
use u_forth.Vm.Stacks.{Op, aborted_stacks}
use u_forth.Vm.Refine.{view, execute_all, execute_all-run}
use u_forth.Tests.Fixtures.{vm}

abbrev script : List Op
script = Op.swap ∷ Op.to_r ∷ Op.dup ∷ Op.push 4 ∷ Op.over ∷ Op.from_r ∷ Op.drop ∷ []

execute_all-run_example : view (execute_all script vm) ≡ Stacks.run script (view vm)
execute_all-run_example = execute_all-run script vm

script_items : (Stacks.run script (view vm)).items ≡ 7 ∷ 4 ∷ 7 ∷ 7 ∷ 9 ∷ []
unfolding view Stacks.run Stacks.step
script_items = refl

underflow_aborts :
    Stacks.run (Op.drop ∷ Op.drop ∷ Op.swap ∷ Op.push 1 ∷ []) (view vm) ≡ aborted_stacks
unfolding view Stacks.run Stacks.step
underflow_aborts = refl
