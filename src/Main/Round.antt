-- ===== src/Main/Round.antt =====
-- A round of the interactive loop with a line for the interpreter.
use u_forth.Prelude.{
  ℕ, zero, suc, ◌+◌, ◌≡◌, refl, inl, inr, Bool-cases, true, false, ◌==◌, if◌then◌else◌, some, List,
  ◌∷◌, arith,
}
use u_forth.Vm.{Vm, ForthState}
use u_forth.Machine.{Action, Machine, Files, Printed, ok, pure, ◌>>=◌, ◌>>◌, print}
use u_forth.Machine.Laws.{get_vm_at, if_vm_at}
use u_forth.Builtins.{codes}
use u_forth.Main.{starts_with, dump_cells, vm_dump_stack, recover, repl_round}
use u_forth.Main.Recovery.{recover-purge_sys_file_table}

-- What a context becomes before a line: without an abort, and as it was if there was none.
abbrev pub recovered : Vm → Vm
recovered v =
    if v.abort_flag == 0
    then v
    else record v { abort_flag = 0; sp = 0; rp = 0; state = ForthState.repl }

dump_cells-prints :
    (stack : ℕ → ℕ) (left i : ℕ) (m : Machine)
    → (ps : List Printed) × (dump_cells stack left i m ≡ ok tt (record m { printed = ps }))
unfolding dump_cells print
dump_cells-prints stack zero i m = (m.printed, refl)
dump_cells-prints stack (suc left) i m =
    dump_cells-prints stack left (i + 1)
      (record m { printed = Printed.signed (stack i) ∷ m.printed })

module _ (m : Machine) (v : Vm) (running : m.current_forth_vm ≡ some v) where
  vm_dump_stack-prints : (ps : List Printed) × (vm_dump_stack m ≡ ok tt (record m { printed = ps }))
  unfolding vm_dump_stack print
  vm_dump_stack-prints =
      let (ps, runs) =
        dump_cells-prints v.data_stack v.sp 0
          (record m { printed = Printed.depth v.sp ∷ m.printed }) in
      (
        Printed.char 10 ∷ ps,
        rw (vm_dump_stack, if_vm_at m running, ◌>>◌, ◌>>=◌, get_vm_at m running, runs) refl,
      )

  -- Before a line
  recover-runs :
      (files : Files) × (recover m
        ≡ ok tt (record m { current_forth_vm = some (recovered v); files = files }))
  unfolding recover
  recover-runs = elim (Bool-cases (v.abort_flag == 0)) [
    | inl none' ↦ (m.files, rw (◌>>=◌, get_vm_at m running, none', running) refl)
    | inr aborted ↦
        let (files, runs, _, _) = recover-purge_sys_file_table m v running (ground arith) in
        (files, rw (runs, aborted) refl)
  ]

  recovered-runs : (recovered v).abort_flag ≡ 0
  recovered-runs = elim (Bool-cases (v.abort_flag == 0)) [
    | inl none' ↦ rw none' (ground arith)
    | inr aborted ↦ rw aborted refl
  ]

module _ (fuel : ℕ) (interpret_line : List ℕ → Action (Unit {0})) (input_buffer : List ℕ)
    (m : Machine) (v : Vm) where
  -- A line that is no command of the terminal always reaches the interpreter, whatever the line before did:
  -- it is interpreted with no abort pending, from the context as it was or, after an abort, with empty stacks
  -- and in interpreting mode. The bus and the pools are as they were, and the loop goes on if the interpreter
  -- returns.
  pub repl_round-interprets :
      m.current_forth_vm ≡ some v
      → starts_with (codes "exit") input_buffer ≡ false
      → starts_with (codes "dump") input_buffer ≡ false
      → starts_with (codes "snapshot") input_buffer ≡ false
      → (ps : List Printed) × (files : Files) × (repl_round fuel interpret_line input_buffer m
          ≡ (interpret_line input_buffer >> pure true)
              (record m { current_forth_vm = some (recovered v); files = files; printed = ps }))
        × ((recovered v).abort_flag ≡ 0)
  unfolding repl_round
  repl_round-interprets running no_exit no_dump no_snapshot =
      let (ps, prints) = vm_dump_stack-prints m v running in
      let dumped = record m { printed = ps } in
      let (files, recovers) = recover-runs dumped v running in
      (
        ps,
        files,
        rw (◌>>◌, ◌>>=◌, prints, no_exit, no_dump, no_snapshot, recovers) refl,
        recovered-runs m v running,
      )
