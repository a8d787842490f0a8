-- ===== src/Widths/Start.antt =====
-- The start of the program, and what its loop does before a line.
use u_forth.Prelude.{ℕ, zero, suc, ◌+◌, if◌then◌else◌, Bool, true, false, arith, List}
use u_forth.Bus.{hw_init}
use u_forth.Bus.Words.{HoldsBytes}
use u_forth.Vm
use u_forth.Vm.{Vm, ForthState}
use u_forth.Machine.{pure, forth_abort}
use u_forth.CellPool.{cell_pool_init}
use u_forth.ChunkPool.{chunk_pool_init}
use u_forth.Builtins.{Builtin, is_sorted, forth_dict_validate_sorting}
use u_forth.Main.{set_bus, vm_context_init, initialise, dump_cells, vm_dump_stack, recover}
use u_forth.Widths.{IsWord, IsByte, VmFits, KeepsFit}
use u_forth.Widths.Stacks.{zero-IsWord}
use u_forth.Widths.Rules.{Keeps-pure, Keeps-set_vm}
use u_forth.Widths.Access.{Keeps-forth_abort}
use u_forth.Widths.Blocks.{widths}
use u_forth.Widths.Pools.{Keeps-link_chunks, Keeps-set_chunks, with_cells}
use u_forth.Widths.Heap.{Keeps-heap_init}
use u_forth.Widths.Streams.{file_rules, purge_sys_file_table-FilesFit}

hw_init-HoldsBytes : HoldsBytes hw_init
unfolding hw_init
hw_init-HoldsBytes = record { fast = λ i. omega arith; ext = λ i. omega arith }

Keeps-set_bus : KeepsFit set_bus
Keeps-set_bus = record {
  at = λ m h. (
    tt,
    record {
      bus = hw_init-HoldsBytes;
      vm = h.vm;
      cells = h.cells;
      chunks = h.chunks;
      file_stack_ptr = h.file_stack_ptr;
    },
  );
}

zero-IsByte : IsByte 0
unfolding IsByte
zero-IsByte = omega arith

Keeps-cell_pool_init : KeepsFit cell_pool_init
unfolding cell_pool_init
Keeps-cell_pool_init = record {
  at = λ m h. (
    tt,
    with_cells m h (record { cell_bitmap = λ i. zero-IsByte; cell_allocated_count = zero-IsWord }),
  );
}

chunk_base-IsWord : IsWord 0x20000C00
unfolding IsWord
chunk_base-IsWord = omega arith

Keeps-chunk_pool_init : KeepsFit chunk_pool_init
unfolding chunk_pool_init
Keeps-chunk_pool_init =
    let start =
      Keeps-set_chunks _ (record {
        chunk_free_list_head = chunk_base-IsWord;
        chunk_allocated_count = zero-IsWord;
      }) in
    search (widths, Keeps-link_chunks)

Keeps-forth_dict_validate_sorting :
    (table : List Builtin) → KeepsFit (forth_dict_validate_sorting table)
unfolding forth_dict_validate_sorting
Keeps-forth_dict_validate_sorting table = by_order (is_sorted table)
  where
    by_order : (t : Bool) → KeepsFit (if t then pure tt else forth_abort)
    by_order true = Keeps-pure tt tt
    by_order false = Keeps-forth_abort

module _ (v : Vm) (h : VmFits v) where
  vm_context_init-VmFits :
      (dict_start_addr : ℕ) → IsWord dict_start_addr → VmFits (Vm.vm_context_init v dict_start_addr)
  unfolding Vm.vm_context_init
  vm_context_init-VmFits dict_start_addr w = record {
    data_stack = h.data_stack;
    return_stack = h.return_stack;
    sp = omega arith;
    rp = omega arith;
    ip = zero-IsWord;
    latest_word = zero-IsWord;
    dict_free_ptr = w;
    parse_line_ptr = h.parse_line_ptr;
  }

  -- What dict_init and the loop after an abort set.
  pub restarted-VmFits :
      VmFits (record v { latest_word = 0; state = ForthState.repl; ip = 0; quiet_mode = 1 })
  restarted-VmFits = record {
    data_stack = h.data_stack;
    return_stack = h.return_stack;
    sp = h.sp;
    rp = h.rp;
    ip = zero-IsWord;
    latest_word = zero-IsWord;
    dict_free_ptr = h.dict_free_ptr;
    parse_line_ptr = h.parse_line_ptr;
  }

  recovered-VmFits : VmFits (record v { abort_flag = 0; sp = 0; rp = 0; state = ForthState.repl })
  recovered-VmFits = record {
    data_stack = h.data_stack;
    return_stack = h.return_stack;
    sp = omega arith;
    rp = omega arith;
    ip = h.ip;
    latest_word = h.latest_word;
    dict_free_ptr = h.dict_free_ptr;
    parse_line_ptr = h.parse_line_ptr;
  }

dict_start-IsWord : IsWord 0x60080000
unfolding IsWord
dict_start-IsWord = omega arith

Keeps-vm_context_init : (v : Vm) → VmFits v → KeepsFit (vm_context_init v 0x60080000)
unfolding vm_context_init
Keeps-vm_context_init v h = Keeps-set_vm _ (vm_context_init-VmFits v h _ dict_start-IsWord)

pub Keeps-initialise : (words : List Builtin) (v : Vm) → VmFits v → KeepsFit (initialise words v)
unfolding initialise
Keeps-initialise words v h =
    search
      (
        widths, Keeps-set_bus, Keeps-cell_pool_init, Keeps-chunk_pool_init, Keeps-heap_init,
        Keeps-forth_dict_validate_sorting, Keeps-vm_context_init,
      )
      depth 10

Keeps-dump_cells : (stack : ℕ → ℕ) (left i : ℕ) → KeepsFit (dump_cells stack left i)
unfolding dump_cells
Keeps-dump_cells stack zero i = search widths
Keeps-dump_cells stack (suc left) i =
    let rest = Keeps-dump_cells stack left (i + 1) in search widths

pub Keeps-vm_dump_stack : KeepsFit vm_dump_stack
unfolding vm_dump_stack
Keeps-vm_dump_stack = search (widths, Keeps-dump_cells) depth 8

pub Keeps-recover : KeepsFit recover
unfolding recover
Keeps-recover =
    search (file_rules, Keeps-set_vm, recovered-VmFits, purge_sys_file_table-FilesFit) depth 10
