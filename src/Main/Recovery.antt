-- ===== src/Main/Recovery.antt =====
-- The interactive loop after an abort.
use u_forth.Prelude.{ℕ, ◌<◌, ◌≡◌, ◌≢◌, ◌∙◌, refl, false, ◌==◌, none, some, ◌++◌, arith}
use u_forth.Vm.{Vm, ForthState}
use u_forth.Machine.{Machine, Files, ok, ◌>>=◌, ◌>>◌, set_vm}
use u_forth.Machine.Laws.{get_vm_at}
use u_forth.Files.{purge_sys_file_table}
use u_forth.Files.Slots.{streams, purge_sys_file_table-closes}
use u_forth.Main.{recover}

-- Before the line that follows an abort, the loop clears the abort, both stacks and the mode, and closes
-- the open files once each, so that the four slots are empty; the rest of the context, the bus and the
-- pools are left as they are.
pub recover-purge_sys_file_table :
    (m : Machine) (v : Vm)
    → m.current_forth_vm ≡ some v
    → v.abort_flag ≢ 0
    → (files : Files) × (recover m
        ≡ ok tt (record m {
          current_forth_vm =
              some (record v { abort_flag = 0; sp = 0; rp = 0; state = ForthState.repl });
          files = files;
        }))
      × ((k : ℕ) → k < 4 → files.sys_file_table k ≡ none)
      × (files.closed ≡ streams m.files.sys_file_table 0 4 ++ m.files.closed)
unfolding recover set_vm
recover-purge_sys_file_table m v running aborted =
    let (table, closed) = purge_sys_file_table-closes m.files in
    let other : (v.abort_flag == 0) ≡ false = ground arith in
    (
      purge_sys_file_table m.files,
      rw (recover, ◌>>◌, ◌>>=◌, get_vm_at m running, other) refl,
      λ k lt. table k ∙ (ground arith),
      closed,
    )
