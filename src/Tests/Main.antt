-- ===== src/Tests/Main.antt =====
-- The start of the program, the recovery after an abort, the file words and the exports: tests and
-- instances.
use u_forth.Prelude.{
  ℕ, true, false, ◌-◌, ◌≤◌, ◌<◌, ◌≡◌, ◌≢◌, refl, ◌==◌, if◌then◌else◌, none, some, List, [], ◌∷◌,
  ◌++◌, map, arith,
}
use u_forth.Vm
use u_forth.Vm.{Vm, ForthState}
use u_forth.Bus
use u_forth.Machine.{Machine, Files, Printed, ok, pure, ◌>>◌, forth_abort, hw_spi_ram_read_buf}
use u_forth.Machine.Laws.{with_vm}
use u_forth.Outside.{Outside}
use u_forth.ChunkPool.{chunk_count}
use u_forth.ChunkPool.Init.{chunk_addrs}
use u_forth.Builtins.Table.{builtin_words}
use u_forth.Files.{
  read_name, c_string, stream_of, find_slot, forth_primitive_f_create, forth_primitive_f_close,
}
use u_forth.Files.Slots.{streams}
use u_forth.Files.Handles.{Opening, opening_word-f_close}
use u_forth.Vm.Refine.{HasRoom, view}
use u_forth.Debug.{ChunkRow, chunk_rows, WordRow, word_row}
use u_forth.Debug.Header.{dict_add_word-word_row}
use u_forth.Compiler.Layout.{HasSpace}
use u_forth.Strings.{dict_add_word}
use u_forth.Debug.Chunks.{is_among, chunk_rows-is_free}
use u_forth.Main.{initialise, recover, starts_with, repl_round}
use u_forth.Main.Round.{recovered, repl_round-interprets}
use u_forth.Builtins.{codes}
use u_forth.Main.Startup.{IsFresh, initialise-IsFresh}
use u_forth.Main.Recovery.{recover-purge_sys_file_table}
use u_forth.Tests.Fixtures.{vm, start, two_free, two_free-chunks}
use u_forth.Tests.Outside.{outside}

initialise-IsFresh_example :
    (m' : Machine) × (v : Vm) × (initialise
        (builtin_words (λ line. ok tt) outside 9)
        (Vm.abort vm)
        (record start { current_forth_vm = none })
      ≡ ok tt m')
    × IsFresh m' v
initialise-IsFresh_example =
    initialise-IsFresh (builtin_words (λ line. ok tt) outside 9) (Vm.abort vm)
      (record start { current_forth_vm = none }) refl

-- The streams 6 and 8 stand in the slots 0 and 2.
abbrev two_open : Files
two_open = record {
  sys_file_table = λ i. if i == 0 then some 6 else if i == 2 then some 8 else none;
  file_stack_ptr = 0;
  closed = [];
}

both_closed : streams two_open.sys_file_table 0 4 ≡ 8 ∷ 6 ∷ []
both_closed = refl

abbrev aborted : Vm
aborted = record vm { abort_flag = 1 }

abbrev after_abort : Machine
after_abort = record start { current_forth_vm = some aborted; files = two_open }

recover-purge_sys_file_table_example :
    (files : Files) × (recover after_abort
      ≡ ok tt (record after_abort {
        current_forth_vm =
            some (record aborted { abort_flag = 0; sp = 0; rp = 0; state = ForthState.repl });
        files = files;
      }))
    × ((k : ℕ) → k < 4 → files.sys_file_table k ≡ none)
    × (files.closed ≡ streams two_open.sys_file_table 0 4 ++ [])
recover-purge_sys_file_table_example =
    recover-purge_sys_file_table after_abort aborted refl (omega arith)

abbrev some_open : Machine
some_open = record start { files = two_open }

slot_free : find_slot 4 0 two_open.sys_file_table ≢ 0
unfolding find_slot
slot_free = omega arith

-- An empty name.
abbrev with_name : Vm
with_name = Vm.push 0 (Vm.push 0x60000100 (Vm.vm_context_init vm 0x60080000))

abbrev below_name : Vm
below_name = (Vm.pop (Vm.pop with_name).1).1

below_name-HasRoom : HasRoom below_name
unfolding Vm.pop Vm.push Vm.vm_context_init
below_name-HasRoom = record { running = refl; room = omega arith }

abbrev file_7 : Outside
file_7 = record outside { fopen = λ name mode. some 7 }

name_read :
    read_name (Vm.pop (Vm.pop with_name).1).0 (Vm.pop with_name).0 (with_vm some_open below_name)
    ≡ ok [] (with_vm some_open below_name)
unfolding Vm.pop Vm.push Vm.vm_context_init read_name hw_spi_ram_read_buf c_string
    Bus.hw_spi_ram_read_buf
name_read = refl

opening_word-f_close_example :
    (slot : ℕ) × (m' m'' : Machine) × (w : Vm) × (0 < slot)
    × (slot ≤ 4)
    × (two_open.sys_file_table (slot - 1) ≡ none)
    × (forth_primitive_f_create file_7 (with_vm some_open with_name) ≡ ok tt m')
    × (m'.current_forth_vm ≡ some (Vm.push slot below_name))
    × (stream_of slot m'.files ≡ some 7)
    × (forth_primitive_f_close m' ≡ ok tt m'')
    × ((i : ℕ) → m''.files.sys_file_table i ≡ two_open.sys_file_table i)
    × (m''.files.closed ≡ 7 ∷ [])
    × (m''.current_forth_vm ≡ some w)
    × (view w ≡ view below_name)
opening_word-f_close_example =
    opening_word-f_close Opening.creating file_7 (with_vm some_open with_name) with_name below_name
      [] 7 refl refl below_name-HasRoom name_read slot_free refl

chunk_rows-is_free_example :
    (rows : List ChunkRow) × (chunk_rows 3 chunk_count 0 two_free ≡ ok rows two_free)
    × (map (λ r. r.chunk_addr) rows ≡ chunk_addrs 20 0)
    × (map (λ r. r.is_free) rows
        ≡ map (λ a. is_among a (0x20000C20 ∷ 0x20000C00 ∷ [])) (chunk_addrs 20 0))
chunk_rows-is_free_example =
    chunk_rows-is_free two_free (0x20000C20 ∷ 0x20000C00 ∷ []) 3 two_free-chunks (omega arith)

header_space : HasSpace 0x60080000 64
header_space = omega arith

dict_add_word-word_row_example :
    (m' : Machine) × (w : Vm) × (row : WordRow) × (dict_add_word (b'D' ∷ b'U' ∷ b'P' ∷ []) start
      ≡ ok tt m')
    × (m'.current_forth_vm ≡ some w)
    × (word_row w.latest_word m' ≡ ok row m')
    × (row.prev_word_ptr ≡ 0)
    × (row.is_immediate ≡ false)
    × (row.name ≡ b'D' ∷ b'U' ∷ b'P' ∷ [])
    × (row.body_addr ≡ w.dict_free_ptr)
dict_add_word-word_row_example =
    dict_add_word-word_row start vm (b'D' ∷ b'U' ∷ b'P' ∷ []) refl header_space (omega arith)
      (omega arith)

repl_round-interprets_example :
    (ps : List Printed) × (files : Files) × (repl_round 9
        (λ line. forth_abort)
        (codes "5 6 +")
        (with_vm start (Vm.abort vm))
      ≡ (forth_abort >> pure true) (record start {
        current_forth_vm = some (recovered (Vm.abort vm));
        files = files;
        printed = ps;
      }))
    × ((recovered (Vm.abort vm)).abort_flag ≡ 0)
unfolding starts_with
repl_round-interprets_example =
    repl_round-interprets 9 (λ line. forth_abort) (codes "5 6 +") (with_vm start (Vm.abort vm))
      (Vm.abort vm) refl refl refl refl
