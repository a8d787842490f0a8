-- ===== src/Main.antt =====
-- main.c: the initialisation, and one round of the interactive loop; dict_init of forth_dict.c and
-- vm_dump_stack of forth_vm.c, which they call.
pub mod Startup
pub mod Recovery
pub mod Round
pub mod Program
use u_forth.Prelude.{
  ℕ, zero, suc, ◌+◌, Bool, true, false, ◌&&◌, ◌==◌, Option, none, some, if◌then◌else◌, List, [],
  ◌∷◌,
}
use u_forth.Bus.{hw_init, ext_spi_ram_base}
use u_forth.Vm
use u_forth.Vm.{Vm, ForthState}
use u_forth.Machine.{
  Action, Machine, Printed, ok, pure, branch, ◌>>=◌, ◌>>◌, if_vm, get_vm, set_vm, print,
}
use u_forth.CellPool.{cell_pool_init}
use u_forth.ChunkPool.{chunk_pool_init}
use u_forth.Heap.{heap_init}
use u_forth.Outside.{Outside}
use u_forth.Files.{get_files, set_files, purge_sys_file_table, set_quiet_mode}
use u_forth.Builtins.{Builtin, codes, forth_dict_validate_sorting}
use u_forth.Interpreter.{forth_interpret_line}
use u_forth.Debug.{forth_export_memory_csv, forth_export_runtime_snapshot_csv}

-- flash_init_constants
abbrev pub flash_init_constants : List (List ℕ)
flash_init_constants =
    codes "$22 constant B.HEX"
    ∷ codes "$23 constant B.BIN"
    ∷ codes "$42 constant W.HEX"
    ∷ codes "$43 constant W.BIN"
    ∷ codes "$13 constant N.BIN"
    ∷ codes "$10 constant N.DEC"
    ∷ []

-- The loop of `dict_init` over the lines: whether it came to their end.
unfoldable pub interpret_constants : (List ℕ → Action (Unit {0})) → List (List ℕ) → Action Bool
interpret_constants interpret_line [] = pure true
interpret_constants interpret_line (line ∷ lines) = do
  interpret_line line
  v ← get_vm
  branch (v.abort_flag == 0) (interpret_constants interpret_line lines) (pure false)

unfoldable pub dict_init : (List ℕ → Action (Unit {0})) → Action (Unit {0})
dict_init interpret_line = do
  v ← get_vm
  set_vm (record v { latest_word = 0; state = ForthState.repl; ip = 0; quiet_mode = 1 })
  done ← interpret_constants interpret_line flash_init_constants
  branch done (set_quiet_mode 0) (pure tt)

abbrev pub set_bus : Action (Unit {0})
set_bus m = ok tt (record m { bus = hw_init })

-- `vm_context_init(&system_forth_instance, ...)`, of an instance that the program has cleared.
unfoldable pub vm_context_init : Vm → ℕ → Action (Unit {0})
vm_context_init instance_vm dict_start_addr =
    set_vm (Vm.vm_context_init instance_vm dict_start_addr)

-- `main` up to `dict_init`.
unfoldable pub initialise : List Builtin → Vm → Action (Unit {0})
initialise words system_forth_instance = do
  set_bus
  cell_pool_init
  chunk_pool_init
  heap_init
  forth_dict_validate_sorting words
  vm_context_init system_forth_instance (ext_spi_ram_base + 0x80000)

-- The loop of `vm_dump_stack`, from index `i` on.
unfoldable pub dump_cells : (ℕ → ℕ) → ℕ → ℕ → Action (Unit {0})
dump_cells stack zero i = pure tt
dump_cells stack (suc left) i = print (Printed.signed (stack i)) >> dump_cells stack left (i + 1)

unfoldable pub vm_dump_stack : Action (Unit {0})
vm_dump_stack = if_vm (do
  v ← get_vm
  print (Printed.depth v.sp)
  dump_cells v.data_stack v.sp 0
  print (Printed.char 10))

-- `strncmp(line, word, n) == 0`, where `word` has `n` characters.
unfoldable pub starts_with : List ℕ → List ℕ → Bool
starts_with [] line = true
starts_with (c ∷ word) [] = false
starts_with (c ∷ word) (d ∷ line) = c == d && starts_with word line

-- What the loop does after an abort, before the next line.
unfoldable pub recover : Action (Unit {0})
recover = do
  v ← get_vm
  branch (v.abort_flag == 0) (pure tt) (do
    set_vm (record v { abort_flag = 0; sp = 0; rp = 0; state = ForthState.repl })
    files ← get_files
    set_files (purge_sys_file_table files))

-- One round of the loop with the line that was read: whether the loop goes on.
unfoldable pub repl_round : ℕ → (List ℕ → Action (Unit {0})) → List ℕ → Action Bool
repl_round fuel interpret_line input_buffer = do
  vm_dump_stack
  branch (starts_with (codes "exit") input_buffer) (pure false) (
      branch (starts_with (codes "dump") input_buffer)
        (forth_export_memory_csv fuel >>= λ _. pure true)
        (branch (starts_with (codes "snapshot") input_buffer)
          (forth_export_runtime_snapshot_csv fuel >>= λ _. pure true)
          (do recover; interpret_line input_buffer; pure true)))
