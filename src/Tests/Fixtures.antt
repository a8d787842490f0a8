-- ===== src/Tests/Fixtures.antt =====
-- The machine at the start of the program, and contexts with something on their stacks.
use u_forth.Prelude.{refl, none, some, [], ◌∷◌, get_or, arith}
use u_forth.Bus.{Bus}
use u_forth.Vm.{Vm, ForthState}
use u_forth.Vm.Refine.{IsValid, HasRoom}
use u_forth.Machine.{Machine}
use u_forth.Bus.Access.{load, store}
use u_forth.CellPool.{is_free_bit}
use u_forth.CellPool.State as Cells
use u_forth.ChunkPool.Chain as Chunks

abbrev pub bus : Bus
bus = record { fast_sram = λ _. 0; ext_spi_ram = λ _. 0 }

-- 7 on top of 5 on top of 9, in compiling mode, with the frontier of `main` and a return address.
abbrev pub vm : Vm
vm = record {
  data_stack = λ i. get_or (9 ∷ 5 ∷ 7 ∷ []) i 0;
  return_stack = λ i. 0x60080004;
  sp = 3;
  rp = 1;
  ip = 0x60080004;
  state = ForthState.compile;
  latest_word = 0;
  dict_free_ptr = 0x60080000;
  parse_line_ptr = [];
  abort_flag = 0;
  quiet_mode = 0;
}

pub vm-IsValid : IsValid vm
vm-IsValid = omega arith

pub vm-HasRoom : HasRoom vm
vm-HasRoom = omega arith

abbrev pub start : Machine
start = record {
  bus = bus;
  current_forth_vm = some vm;
  cells = record { cell_bitmap = λ _. 0; cell_allocated_count = 0 };
  chunks = record { chunk_free_list_head = 0; chunk_allocated_count = 20 };
  files = record { sys_file_table = λ _. none; file_stack_ptr = 0; closed = [] };
  printed = [];
}

pub start-cells : Cells.IsValid start.cells
unfolding Cells.count_used is_free_bit
start-cells = record { bytes = λ i. omega arith; counted = refl }

-- Two chunks are free, chunk 1 and then chunk 0.
abbrev pub two_free : Machine
two_free = record start {
  bus = store bus 0x20000C20 0x20000C00;
  chunks = record { chunk_free_list_head = 0x20000C20; chunk_allocated_count = 18 };
}

pub two_free-chunks : Chunks.IsValid two_free (0x20000C20 ∷ 0x20000C00 ∷ [])
unfolding load store
two_free-chunks = record {
  chain = (refl, omega arith, (omega arith, tt), (refl, omega arith, tt, refl));
  counted = refl;
}
