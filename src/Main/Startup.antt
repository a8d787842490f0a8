-- ===== src/Main/Startup.antt =====
-- The components as `main` starts them, one after the other.
use u_forth.Prelude.{
  ℕ, ◌+◌, ◌≡◌, ◌∙◌, refl, true, false, none, some, List, arith, if◌then◌else◌, Bool,
}
use u_forth.Bus.{Bus, hw_init, ext_spi_ram_base}
use u_forth.Bus.Access.{load, store}
use u_forth.Bus.Words.{load-store_ne}
use u_forth.Vm
use u_forth.Vm.{Vm, ForthState}
use u_forth.Machine.{Machine, Cells, ok, ◌>>=◌, ◌>>◌, forth_abort, pure, set_vm}
use u_forth.Machine.Laws.{with_vm, with_bus}
use u_forth.CellPool.{cell_pool_init, is_free_bit}
use u_forth.CellPool.State as Cells'
use u_forth.ChunkPool.{chunk_pool_init}
use u_forth.ChunkPool.Chain as Chunks
use u_forth.ChunkPool.Chain.{IsChunk, IsChunk-is_word_head, Chain-apart}
use u_forth.ChunkPool.Init.{chunk_addrs, with_chunks, chunk_pool_init_at, with_chunks-IsValid}
use u_forth.Heap.{heap_init, heap_base_addr, heap_managed_size}
use u_forth.Heap.Blocks.{flags_at, next_at}
use u_forth.Heap.Fresh.{fresh, heap_init_at, fresh-flags, fresh-next}
use u_forth.Builtins.{Builtin, is_sorted, forth_dict_validate_sorting}
use u_forth.Main.{vm_context_init, initialise}

-- A context that can start: empty stacks, outside a definition, with no abort and its prompt, no word
-- yet, and the frontier 512 KB into the SPI-RAM.
pub record IsCleared (v : Vm) : Type 0 where
  pub no_items : v.sp ≡ 0
  pub no_returns : v.rp ≡ 0
  pub no_address : v.ip ≡ 0
  pub prompting : v.state ≡ ForthState.repl
  pub no_word : v.latest_word ≡ 0
  pub frontier : v.dict_free_ptr ≡ 0x60080000
  pub no_abort : v.abort_flag ≡ 0
  pub loud : v.quiet_mode ≡ 0

-- All of it is free or empty: the cells, the 20 chunks, one block of the heap, and the context.
pub record IsFresh (m : Machine) (v : Vm) : Type 0 where
  pub cells : Cells'.IsValid m.cells
  pub no_cells : m.cells.cell_allocated_count ≡ 0
  pub chunks : Chunks.IsValid m (chunk_addrs 20 0)
  pub block : flags_at m.bus heap_base_addr ≡ heap_managed_size
  pub last : next_at m.bus heap_base_addr ≡ 0
  pub context : m.current_forth_vm ≡ some v
  pub cleared_context : IsCleared v

fresh-load : (b : Bus) (x : ℕ) → IsChunk x → load (fresh b) x ≡ load b x
unfolding fresh
fresh-load b x k =
    let w = IsChunk-is_word_head k in
    load-store_ne (store b heap_base_addr heap_managed_size) (heap_base_addr + 4) x 0 refl w
      (omega (arith, k.high))
    ∙ load-store_ne b heap_base_addr x heap_managed_size refl w (omega (arith, k.high))

validate_skipped :
    (words : List Builtin) (m : Machine)
    → m.current_forth_vm ≡ none
    → forth_dict_validate_sorting words m ≡ ok tt m
unfolding forth_dict_validate_sorting forth_abort
validate_skipped words m e = by_order (is_sorted words)
  where
    by_order : (b : Bool) → (if b then pure tt else forth_abort) m ≡ ok tt m
    by_order true = refl
    by_order false = rw e

vm_with_chunks : (m : Machine) → (with_chunks m).current_forth_vm ≡ m.current_forth_vm
unfolding with_chunks
vm_with_chunks m = refl

cells_with_chunks : (m : Machine) → (with_chunks m).cells ≡ m.cells
unfolding with_chunks
cells_with_chunks m = refl

abbrev no_cells_used : Cells
no_cells_used = record { cell_bitmap = λ _. 0; cell_allocated_count = 0 }

no_cells_used-IsValid : Cells'.IsValid no_cells_used
unfolding Cells'.count_used is_free_bit
no_cells_used-IsValid = record { bytes = λ i. omega arith; counted = refl }

-- The machine before and after `chunk_pool_init`, and after `heap_init`.
abbrev cleared : Machine → Machine
cleared m = record m { bus = hw_init; cells = no_cells_used }

abbrev linked : Machine → Machine
linked m = with_chunks (cleared m)

abbrev started : Machine → Machine
started m = with_bus (linked m) (fresh (linked m).bus)

abbrev context : Vm → Vm
context v = Vm.vm_context_init v (ext_spi_ram_base + 0x80000)

module _ (words : List Builtin) (system_forth_instance : Vm) (m : Machine)
    (unset : m.current_forth_vm ≡ none) where
  after_chunks :
      (m₁ m₂ : Machine)
      → chunk_pool_init m₁ ≡ ok tt m₂
      → m₂.current_forth_vm ≡ none
      → (do
        chunk_pool_init
        heap_init
        forth_dict_validate_sorting words
        vm_context_init system_forth_instance (ext_spi_ram_base + 0x80000))
          m₁
        ≡ ok tt (with_vm (with_bus m₂ (fresh m₂.bus)) (context system_forth_instance))
  unfolding vm_context_init set_vm
  after_chunks m₁ m₂ e k =
      rw (◌>>◌, ◌>>=◌, e, heap_init_at m₂, validate_skipped words (with_bus m₂ (fresh m₂.bus)) k)
        refl

  initialise-started :
      initialise words system_forth_instance m
      ≡ ok tt (with_vm (started m) (context system_forth_instance))
  unfolding initialise cell_pool_init
  initialise-started =
      after_chunks (cleared m) (linked m) (chunk_pool_init_at (cleared m))
        (vm_with_chunks (cleared m) ∙ unset)

-- From a machine without a context, which is how the program starts, `main` up to dict_init does not
-- fail, and leaves no cell in use, the 20 chunks free in the order of their addresses, the heap one free
-- block, and a current context with empty stacks, outside a definition, with no abort, with its prompt,
-- with no word, and with its frontier 512 KB into the SPI-RAM: whatever the order of the table of
-- built-in words is, since its test can abort no context yet.
pub initialise-IsFresh :
    (words : List Builtin) (system_forth_instance : Vm) (m : Machine)
    → m.current_forth_vm ≡ none
    → (m' : Machine) × (v : Vm) × (initialise words system_forth_instance m ≡ ok tt m')
      × IsFresh m' v
unfolding Vm.vm_context_init
initialise-IsFresh words system_forth_instance m unset =
    let b = (linked m).bus in
    let chunks = with_chunks-IsValid (cleared m) in
    (
      _,
      context system_forth_instance,
      initialise-started words system_forth_instance m unset,
      record {
        cells = rw (cells_with_chunks (cleared m)) no_cells_used-IsValid;
        no_cells = rw (cells_with_chunks (cleared m)) refl;
        chunks = record {
          chain = Chain-apart b (fresh b) (chunk_addrs 20 0) _ (fresh-load b) chunks.chain;
          counted = chunks.counted;
        };
        block = fresh-flags b;
        last = fresh-next b;
        context = refl;
        cleared_context = record {
          no_items = refl;
          no_returns = refl;
          no_address = refl;
          prompting = refl;
          no_word = refl;
          frontier = refl;
          no_abort = refl;
          loud = refl;
        };
      },
    )
