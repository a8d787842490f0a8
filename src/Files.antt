-- ===== src/Files.antt =====
-- The file words of forth_dict.c: a table of four streams, of which the program sees the indices 1 to
-- 4, and INCLUDED with its stack of nested files. The streams and what the host answers are outside.
pub mod Slots
pub mod Handles
pub mod Scripts
use u_forth.Prelude.{
  ℕ, zero, suc, ◌+◌, ◌-◌, ◌*◌, ◌%◌, ◌^◌, Bool, true, false, not, ◌&&◌, ◌||◌, Option, none, some,
  ltb, leb, ◌==◌, if◌then◌else◌, List, [], ◌∷◌, length,
}
use u_forth.Vm.{Vm, ForthState}
use u_forth.Machine.{
  Action, Files, Machine, Stop, ok, pure, fail, branch, ◌>>=◌, ◌>>◌, if_vm, get_vm, set_vm,
  hw_read8, hw_spi_ram_read_buf, hw_spi_ram_write_buf, forth_push, forth_pop, forth_abort,
}
use u_forth.Outside.{Outside}
use u_forth.Words.Arith.{add32, sub32}
use u_forth.Words.{if_running}
use u_forth.Strings.{max_string_len, max_word_len}
use u_forth.CellPool.{cell_bitmap_base, is_free_bit}

-- MAX_OPEN_FILES and MAX_FILE_NESTING
abbrev pub max_open_files : ℕ
max_open_files = 4

abbrev pub max_file_nesting : ℕ
max_file_nesting = 4

abbrev pub get_files : Action Files
get_files m = ok m.files m

abbrev pub set_files : Files → Action (Unit {0})
set_files f m = ok tt (record m { files = f })

-- `sys_file_table[i] = f`
abbrev pub set_slot : (ℕ → Option ℕ) → ℕ → Option ℕ → ℕ → Option ℕ
set_slot table i f k = if k == i then f else table k

abbrev pub is_open : Option ℕ → Bool
is_open none = false
is_open (some f) = true

-- The bytes up to the first NUL byte.
unfoldable pub c_string : List ℕ → List ℕ
c_string [] = []
c_string (c ∷ s) = if c == 0 then [] else c ∷ c_string s

-- `fclose` of the stream in a slot, which becomes NULL.
unfoldable pub close_slot : ℕ → Files → Files
close_slot i files = elim (files.sys_file_table i) [
  | none ↦ files
  | some f ↦ record files {
    sys_file_table = set_slot files.sys_file_table i none;
    closed = f ∷ files.closed;
  }
]

-- The loop of `purge_sys_file_table` from slot `i` on, with `left` rounds to go.
unfoldable pub close_slots : ℕ → ℕ → Files → Files
close_slots zero i files = files
close_slots (suc left) i files = close_slots left (i + 1) (close_slot i files)

unfoldable pub purge_sys_file_table : Files → Files
purge_sys_file_table files = close_slots max_open_files 0 files

-- The index of the first free slot from `i` on, with 1 added, or 0.
unfoldable pub find_slot : ℕ → ℕ → (ℕ → Option ℕ) → ℕ
find_slot zero i table = 0
find_slot (suc left) i table = if is_open (table i) then find_slot left (i + 1) table else i + 1

-- `name_len` bytes of the name, 255 at most.
unfoldable pub read_name : ℕ → ℕ → Action (List ℕ)
read_name name_addr name_len = do
  let name_len' = if ltb max_string_len name_len then max_string_len else name_len
  filename ← hw_spi_ram_read_buf name_addr name_len'
  pure (c_string filename)

-- What F-OPEN and F-CREATE do with a name: they differ in the mode.
unfoldable pub open_named : (List ℕ → Option ℕ) → List ℕ → Action (Unit {0})
open_named fopen filename = do
  files ← get_files
  let slot_idx = find_slot max_open_files 0 files.sys_file_table
  branch (slot_idx == 0) (forth_push 0) (elim (fopen filename) [
    | none ↦ forth_push 0
    | some f ↦ do
      set_files
          (record files { sys_file_table = set_slot files.sys_file_table (slot_idx - 1) (some f) })
      forth_push slot_idx
  ])

unfoldable pub open_file : (List ℕ → Option ℕ) → Action (Unit {0})
open_file fopen = if_vm (do
  name_len ← forth_pop
  name_addr ← forth_pop
  if_running (do filename ← read_name name_addr name_len; open_named fopen filename))

unfoldable pub forth_primitive_f_open : Outside → Action (Unit {0})
forth_primitive_f_open o = open_file λ name. o.fopen name (b'r' ∷ [])

unfoldable pub forth_primitive_f_create : Outside → Action (Unit {0})
forth_primitive_f_create o = open_file λ name. o.fopen name (b'w' ∷ b'+' ∷ [])

-- The stream of an index, if it is in range and open.
unfoldable pub stream_of : ℕ → Files → Option ℕ
stream_of slot_id files =
    if slot_id == 0 || ltb max_open_files slot_id then none else files.sys_file_table (slot_id - 1)

-- `buf_len` after it was limited.
unfoldable pub limited : ℕ → ℕ
limited len = if ltb max_string_len len then max_string_len else len

unfoldable pub forth_primitive_f_write : Outside → Action (Unit {0})
forth_primitive_f_write o = if_vm (do
  slot_id ← forth_pop
  buf_len ← forth_pop
  buf_addr ← forth_pop
  if_running (do
    files ← get_files
    elim (stream_of slot_id files) [
      | none ↦ forth_abort
      | some f ↦ do
        temp_write_buffer ← hw_spi_ram_read_buf buf_addr (limited buf_len)
        branch (ltb (o.fwrite f temp_write_buffer) (limited buf_len)) forth_abort (pure tt)
    ]))

unfoldable pub forth_primitive_f_read : Outside → Action (Unit {0})
forth_primitive_f_read o = if_vm (do
  slot_id ← forth_pop
  max_bytes ← forth_pop
  dest_buf_addr ← forth_pop
  if_running (do
    files ← get_files
    elim (stream_of slot_id files) [
      | none ↦ forth_push 0
      | some f ↦ do
        let bytes = o.fread f (limited max_bytes)
        branch (length bytes == 0) (pure tt) (hw_spi_ram_write_buf dest_buf_addr bytes)
        forth_push (length bytes)
    ]))

-- `forth_primitive_f_close` behind its `forth_pop`.
unfoldable pub close_handle : ℕ → Action (Unit {0})
close_handle slot_id = do
  files ← get_files
  elim (stream_of slot_id files) [
    | none ↦ pure tt
    | some f ↦ set_files (close_slot (slot_id - 1) files)
  ]

unfoldable pub forth_primitive_f_close : Action (Unit {0})
forth_primitive_f_close = if_vm (do slot_id ← forth_pop; if_running (close_handle slot_id))

-- `mem_metrics_t`
pub record Metrics : Type 0 where
  pub fast_cells : ℕ
  pub chunks : ℕ
  pub spi_ram_used : ℕ

-- The set bits of a byte from `bit_idx` on, with `left` rounds to go.
unfoldable pub count_bits : ℕ → ℕ → ℕ → ℕ
count_bits zero bit_idx b = 0
count_bits (suc left) bit_idx b =
    (if is_free_bit b bit_idx then 0 else 1) + count_bits left (bit_idx + 1) b

-- The bytes are read from the bus, where nothing writes the bitmap.
unfoldable pub count_cells : ℕ → ℕ → Action ℕ
count_cells zero byte_idx = pure 0
count_cells (suc left) byte_idx = do
  b ← hw_read8 (cell_bitmap_base + byte_idx)
  rest ← count_cells left (byte_idx + 1)
  pure (count_bits 8 0 b + rest)

-- DICT_SPI_RAM_START
abbrev pub dict_spi_ram_start : ℕ
dict_spi_ram_start = 0x60080000

unfoldable pub get_current_mem_metrics : Action Metrics
get_current_mem_metrics = do
  fast_cells ← count_cells 32 0
  v ← get_vm
  λ m.
      ok
        (record {
          fast_cells = fast_cells;
          chunks = m.chunks.chunk_allocated_count;
          spi_ram_used = sub32 v.dict_free_ptr dict_spi_ram_start;
        })
        m

-- The loop that reads the name of a script, with `left` rounds to go.
unfoldable pub read_chars : ℕ → ℕ → Action (List ℕ)
read_chars zero addr = pure []
read_chars (suc left) addr = do
  c ← hw_read8 addr
  rest ← read_chars left (add32 addr 1)
  pure (c ∷ rest)

-- The loop over the lines of a script: it ends where a line has aborted.
unfoldable pub run_lines : (List ℕ → Action (Unit {0})) → List (List ℕ) → Action (Unit {0})
run_lines interpret_line [] = pure tt
run_lines interpret_line (line ∷ lines) = do
  interpret_line line
  v ← get_vm
  branch (v.abort_flag == 0) (run_lines interpret_line lines) (pure tt)

-- `file_stack[file_stack_ptr++] = f`
unfoldable pub push_file : Action (Unit {0})
push_file = do
  files ← get_files
  branch (leb max_file_nesting files.file_stack_ptr) (fail Stop.array_overrun)
      (set_files (record files { file_stack_ptr = files.file_stack_ptr + 1 }))

-- `fclose(f); file_stack_ptr--;`
unfoldable pub pop_file : ℕ → Action (Unit {0})
pop_file f = do
  files ← get_files
  set_files
      (record files { file_stack_ptr = sub32 files.file_stack_ptr 1; closed = f ∷ files.closed })

unfoldable pub set_quiet_mode : ℕ → Action (Unit {0})
set_quiet_mode q = do v ← get_vm; set_vm (record v { quiet_mode = q })

-- What the outermost script does after an abort.
unfoldable pub recover_root : Action (Unit {0})
recover_root = do
  v ← get_vm
  set_vm (record v { state = ForthState.repl; quiet_mode = 0; abort_flag = 0 })
  files ← get_files
  set_files (record files { file_stack_ptr = 0 })

-- The outermost script starts with the metrics and without the prompt.
unfoldable pub start_script : Bool → Action (Unit {0})
start_script is_root_file =
    branch is_root_file (get_current_mem_metrics >>= λ _. set_quiet_mode 1) (pure tt)

-- What follows the last line, once the stream is closed.
unfoldable pub end_script : Bool → Action (Unit {0})
end_script is_root_file = do
  v ← get_vm
  branch (v.abort_flag == 0)
      (branch is_root_file (do set_quiet_mode 0; get_current_mem_metrics >>= λ _. pure tt)
        (pure tt))
      (branch is_root_file recover_root (pure tt))

-- `forth_primitive_included` from the opened stream on.
unfoldable pub run_script : (List ℕ → Action (Unit {0})) → Outside → ℕ → Action (Unit {0})
run_script interpret_line o f = do
  push_file
  files ← get_files
  start_script (files.file_stack_ptr == 1)
  run_lines interpret_line (o.fgets_lines f)
  pop_file f
  end_script (files.file_stack_ptr == 1)

unfoldable pub forth_primitive_included : (List ℕ → Action (Unit {0})) → Outside → Action (Unit {0})
forth_primitive_included interpret_line o = do
  str_len ← forth_pop
  str_addr ← forth_pop
  if_running (do
    filename ← read_chars (if ltb max_word_len str_len then max_word_len else str_len) str_addr
    elim (o.fopen (c_string filename) (b'r' ∷ [])) [
      | none ↦ forth_abort
      | some f ↦ run_script interpret_line o f
    ])
