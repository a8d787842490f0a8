-- ===== src/Files/Scripts.antt =====
-- INCLUDED of the outermost script.
use u_forth.Prelude.{
  ℕ, zero, suc, ◌+◌, ◌≤◌, ◌≡◌, ◌≢◌, ◌∙◌, refl, Bool-cases, inl, inr, true, false, leb, ◌==◌,
  if◌then◌else◌, some, List, ◌∷◌, arith,
}
use u_forth.Bus.Access.{is_byte, peek}
use u_forth.Vm.{Vm, ForthState}
use u_forth.Machine.{Action, Machine, Stop, fail, ok, pure, branch, ◌>>=◌, ◌>>◌, set_vm}
use u_forth.Machine.Laws.{with_vm, read8_at, get_vm_at}
use u_forth.Outside.{Outside}
use u_forth.Words.Arith.{sub32}
use u_forth.CellPool.{cell_bitmap_base}
use u_forth.Files.{
  max_file_nesting, set_files, Metrics, count_bits, count_cells, dict_spi_ram_start,
  get_current_mem_metrics, start_script, end_script, run_lines, push_file, pop_file, set_quiet_mode,
  recover_root, run_script,
}

count_cells-ok :
    (left i : ℕ) (m : Machine) → i + left ≤ 32 → (n : ℕ) × (count_cells left i m ≡ ok n m)
unfolding count_cells
count_cells-ok zero i m le = (0, refl)
count_cells-ok (suc left) i m le =
    let byte : is_byte (cell_bitmap_base + i) ≡ true = ground arith in
    let (n, e) = count_cells-ok left (i + 1) m (omega arith) in
    (
      count_bits 8 0 (peek m.bus (cell_bitmap_base + i)) + n,
      rw (count_cells, ◌>>=◌, read8_at (cell_bitmap_base + i) m byte, e) refl,
    )

get_current_mem_metrics-ok :
    (m : Machine) {v : Vm}
    → m.current_forth_vm ≡ some v
    → (x : Metrics) × (get_current_mem_metrics m ≡ ok x m)
unfolding get_current_mem_metrics
get_current_mem_metrics-ok m {v} running =
    let (n, e) = count_cells-ok 32 0 m (omega arith) in
    (
      record {
        fast_cells = n;
        chunks = m.chunks.chunk_allocated_count;
        spi_ram_used = sub32 v.dict_free_ptr dict_spi_ram_start;
      },
      rw (get_current_mem_metrics, ◌>>=◌, e, get_vm_at m running) refl,
    )

module _ (m : Machine) {v : Vm} (running : m.current_forth_vm ≡ some v) where
  set_quiet_mode_at : (q : ℕ) → set_quiet_mode q m ≡ ok tt (with_vm m (record v { quiet_mode = q }))
  unfolding set_quiet_mode set_vm
  set_quiet_mode_at q = rw (set_quiet_mode, ◌>>=◌, get_vm_at m running) refl

  measured : {B : Type 0} (next : Action B) → (get_current_mem_metrics >>= λ _. next) m ≡ next m
  measured next = let (x, e) = get_current_mem_metrics-ok m running in rw (◌>>=◌, e) refl

  start_script_at : start_script true m ≡ ok tt (with_vm m (record v { quiet_mode = 1 }))
  unfolding start_script
  start_script_at = measured (set_quiet_mode 1) ∙ set_quiet_mode_at 1

-- The context after the outermost script, which has ended with the context `w`.
abbrev pub after_script : Vm → Vm
after_script w =
    if w.abort_flag == 0
    then record w { quiet_mode = 0 }
    else record w { state = ForthState.repl; quiet_mode = 0; abort_flag = 0 }

module _ (m : Machine) {w : Vm} (running : m.current_forth_vm ≡ some w) where
  end_script-clean :
      w.abort_flag ≡ 0 → end_script true m ≡ ok tt (with_vm m (record w { quiet_mode = 0 }))
  unfolding end_script
  end_script-clean a =
      let clean : (w.abort_flag == 0) ≡ true = ground arith in
      let m' = with_vm m (record w { quiet_mode = 0 }) in
      rw (end_script, ◌>>=◌, ◌>>◌, get_vm_at m running, clean, set_quiet_mode_at m running 0)
        (measured m' refl (pure tt))

  end_script-aborted :
      w.abort_flag ≢ 0
      → end_script true m
        ≡ ok tt (record m {
          current_forth_vm =
              some (record w { state = ForthState.repl; quiet_mode = 0; abort_flag = 0 });
          files = record m.files { file_stack_ptr = 0 };
        })
  unfolding end_script recover_root set_vm
  end_script-aborted a =
      let aborted : (w.abort_flag == 0) ≡ false = ground arith in
      rw (end_script, ◌>>=◌, ◌>>◌, get_vm_at m running, aborted, recover_root, get_vm_at m running)
        refl

push_file_at :
    (m : Machine)
    → m.files.file_stack_ptr ≡ 0
    → push_file m ≡ ok tt (record m { files = record m.files { file_stack_ptr = 1 } })
unfolding push_file
push_file_at m e = pushes m.files.file_stack_ptr e
  where
    pushes :
        (p : ℕ)
        → p ≡ 0
        → branch
            (leb max_file_nesting p)
            (fail Stop.array_overrun)
            (set_files (record m.files { file_stack_ptr = p + 1 }))
            m
          ≡ ok tt (record m { files = record m.files { file_stack_ptr = 1 } })
    pushes p e = rw e refl

-- The machine when the first line of the outermost script is read.
abbrev pub begun : Machine → Vm → Machine
begun m v = record m {
  files = record m.files { file_stack_ptr = 1 };
  current_forth_vm = some (record v { quiet_mode = 1 });
}

-- The machine when its stream is closed.
abbrev closed : ℕ → Machine → Machine
closed f m = record m {
  files = record m.files {
    file_stack_ptr = sub32 m.files.file_stack_ptr 1;
    closed = f ∷ m.files.closed;
  };
}

module _ (interpret_line : List ℕ → Action (Unit {0})) (o : Outside) (f : ℕ) (m : Machine)
    (v w : Vm) (m' : Machine) (running : m.current_forth_vm ≡ some v)
    (outermost : m.files.file_stack_ptr ≡ 0)
    (lines : run_lines interpret_line (o.fgets_lines f) (begun m v) ≡ ok tt m')
    (left : m'.current_forth_vm ≡ some w) where
  run_script-end_script : run_script interpret_line o f m ≡ end_script true (closed f m')
  unfolding run_script pop_file
  run_script-end_script =
      let pushed : Machine = record m { files = record m.files { file_stack_ptr = 1 } } in
      rw (run_script, ◌>>◌, ◌>>=◌, push_file_at m outermost, start_script_at pushed running, lines)
        refl

  -- After the outermost script the context is without an abort and with its prompt, in the mode of the
  -- interpreter if a line has aborted, no file is nested, and the script's stream is closed, if the
  -- lines return and, where none of them has aborted, leave the nesting as it was.
  run_script-after_script :
      (w.abort_flag ≡ 0 → m'.files.file_stack_ptr ≡ 1)
      → (m'' : Machine) × (run_script interpret_line o f m ≡ ok tt m'')
        × (m''.current_forth_vm ≡ some (after_script w))
        × (m''.files.file_stack_ptr ≡ 0)
        × (m''.files.closed ≡ f ∷ m'.files.closed)
  run_script-after_script nested = elim (Bool-cases (w.abort_flag == 0)) [
    | inl e ↦
        let a : w.abort_flag ≡ 0 = ground arith in
        (
          with_vm (closed f m') (record w { quiet_mode = 0 }),
          run_script-end_script ∙ end_script-clean (closed f m') left a,
          rw e refl,
          rw (nested a) refl,
          refl,
        )
    | inr e ↦
        let a : w.abort_flag ≢ 0 = ground arith in
        (_, run_script-end_script ∙ end_script-aborted (closed f m') left a, rw e refl, refl, refl)
  ]
