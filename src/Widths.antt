-- ===== src/Widths.antt =====
-- The widths of the C variables of the program: a word of 32 bits, a byte, the depth of a stack.
pub mod Stacks
pub mod Access
pub mod Blocks
pub mod Bits
pub mod Words
pub mod Compile
pub mod Pools
pub mod Heap
pub mod Debug
pub mod Calls
pub mod Strings
pub mod Define
pub mod Streams
pub mod Scripts
pub mod Table
pub mod Lines
pub mod Start
pub mod Program
pub mod Memory
pub mod Rules
use u_forth.Prelude.{ℕ, ◌^◌, ◌≤◌, ◌<◌, ◌≡◌, Option, some, List, [], ◌∷◌}
use u_forth.Vm.{Vm}
use u_forth.Bus.Words.{HoldsBytes}
use u_forth.Machine.{Cells, Chunks, Machine, Action, Run, ok, stop}

unfoldable pub IsWord : ℕ → Type 0
IsWord n = n < 2 ^ 32

unfoldable pub IsByte : ℕ → Type 0
IsByte n = n < 256

-- `char` arrays
unfoldable pub AreBytes : List ℕ → Type 0
AreBytes [] = Unit {0}
AreBytes (c ∷ cs) = IsByte c × AreBytes cs

-- The fields of ForthMachineState_t.
pub record VmFits (v : Vm) : Type 0 where
  pub data_stack : (i : ℕ) → IsWord (v.data_stack i)
  pub return_stack : (i : ℕ) → IsWord (v.return_stack i)
  pub sp : v.sp ≤ 64
  pub rp : v.rp ≤ 64
  pub ip : IsWord v.ip
  pub latest_word : IsWord v.latest_word
  pub dict_free_ptr : IsWord v.dict_free_ptr
  pub parse_line_ptr : AreBytes v.parse_line_ptr

pub record CellsFit (c : Cells) : Type 0 where
  pub cell_bitmap : (i : ℕ) → IsByte (c.cell_bitmap i)
  pub cell_allocated_count : IsWord c.cell_allocated_count

pub record ChunksFit (c : Chunks) : Type 0 where
  pub chunk_free_list_head : IsWord c.chunk_free_list_head
  pub chunk_allocated_count : IsWord c.chunk_allocated_count

-- The variables of the whole program.
pub record Fits (m : Machine) : Type 0 where
  pub bus : HoldsBytes m.bus
  pub vm : (v : Vm) → m.current_forth_vm ≡ some v → VmFits v
  pub cells : CellsFit m.cells
  pub chunks : ChunksFit m.chunks
  pub file_stack_ptr : IsWord m.files.file_stack_ptr

-- A run that stops, or gives a result with a property and leaves variables that fit.
abbrev pub EndsFit : {A : Type 0} → (A → Type 0) → Run A → Type 0
EndsFit P (ok a m) = P a × Fits m
EndsFit P (stop s) = Unit {0}

-- From variables that fit.
pub record Keeps {A : Type 0} (P : A → Type 0) (act : Action A) : Type 0 where
  pub at : (m : Machine) → Fits m → EndsFit P (act m)

-- For an action whose result says nothing.
abbrev pub KeepsFit : {A : Type 0} → Action A → Type 0
KeepsFit act = Keeps (λ _. Unit {0}) act
