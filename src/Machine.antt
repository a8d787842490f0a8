-- ===== src/Machine.antt =====
-- The whole state of the program and the runs of its functions: the bus of hardware.c, the context
-- that `current_forth_vm` of forth_vm.c points to, the static variables of forth_cell_pool.c and
-- forth_chunk_pool.c, the table of open files, and what the words print. Diagnostic messages are left
-- out.
pub mod Laws
use u_forth.Prelude.{ℕ, ◌==◌, List, ◌∷◌, Option, none, some, if◌then◌else◌, Bool}
use u_forth.Bus
use u_forth.Bus.{Bus}
use u_forth.Vm
use u_forth.Vm.{Vm, ForthState}

-- `cell_bitmap` and `cell_allocated_count`
pub record Cells : Type 0 where
  pub cell_bitmap : ℕ → ℕ
  pub cell_allocated_count : ℕ

-- `chunk_free_list_head` and `chunk_allocated_count`
pub record Chunks : Type 0 where
  pub chunk_free_list_head : ℕ
  pub chunk_allocated_count : ℕ

-- The static variables of the file words in forth_dict.c: `sys_file_table`, where `none` is NULL, and
-- `file_stack_ptr`. `closed` is a record of the calls of `fclose`, the last one first.
pub record Files : Type 0 where
  pub sys_file_table : ℕ → Option ℕ
  pub file_stack_ptr : ℕ
  pub closed : List ℕ

-- A call of `printf` or `putchar` with its argument: "%d ", "%u ", "<%u> ", "0x%0*X " with its width,
-- one character, and "%s".
pub data Printed : Type 0 where
  signed unsigned depth char : ℕ → Printed
  hex : ℕ → ℕ → Printed
  text : List ℕ → Printed

-- `current_forth_vm` is `none` where it is NULL. The last print comes first.
pub record Machine : Type 0 where
  pub bus : Bus
  pub current_forth_vm : Option Vm
  pub cells : Cells
  pub chunks : Chunks
  pub files : Files
  pub printed : List Printed

-- Why a run has no result: `exit(1)` of the bus, a null pointer followed, a write outside an array of
-- the program, the model's own fuel.
pub data Stop : Type 0 where
  bus_fault null_pointer array_overrun out_of_fuel : Stop

pub data Run (A : Type 0) : Type 0 where
  ok : A → Machine → Run A
  stop : Stop → Run A

abbrev pub Action : Type 0 → Type 0
Action A = Machine → Run A

abbrev pub pure : {A : Type 0} → A → Action A
pure = ok

infixl 5 ◌>>=◌ ◌>>◌
abbrev pub ◌>>=◌ : {A B : Type 0} → Action A → (A → Action B) → Action B
◌>>=◌ act next m = elim (act m) [ ok a m' ↦ next a m' | stop s ↦ stop s ]

abbrev pub ◌>>◌ : {B : Type 0} → Action (Unit {0}) → Action B → Action B
act >> next = act >>= λ _. next

abbrev pub fail : {A : Type 0} → Stop → Action A
fail s m = stop s

-- A test of the program, whose branches wait.
abbrev pub branch : {A : Type 0} → Bool → Action A → Action A → Action A
branch b yes' no' m = if b then yes' m else no' m

abbrev pub on_bus : Option Bus → Action (Unit {0})
on_bus r m = elim r [ none ↦ stop bus_fault | some b ↦ ok tt (record m { bus = b }) ]

abbrev pub read_bus : {A : Type 0} → Option A → Action A
read_bus r m = elim r [ none ↦ stop bus_fault | some a ↦ ok a m ]

unfoldable pub hw_read8 : ℕ → Action ℕ
hw_read8 addr m = read_bus (Bus.hw_read8 addr m.bus) m

unfoldable pub hw_write8 : ℕ → ℕ → Action (Unit {0})
hw_write8 addr val m = on_bus (Bus.hw_write8 addr val m.bus) m

unfoldable pub hw_read32 : ℕ → Action ℕ
hw_read32 addr m = read_bus (Bus.hw_read32 addr m.bus) m

unfoldable pub hw_write32 : ℕ → ℕ → Action (Unit {0})
hw_write32 addr val m = on_bus (Bus.hw_write32 addr val m.bus) m

unfoldable pub hw_spi_ram_read_buf : ℕ → ℕ → Action (List ℕ)
hw_spi_ram_read_buf addr len m = read_bus (Bus.hw_spi_ram_read_buf addr len m.bus) m

unfoldable pub hw_spi_ram_write_buf : ℕ → List ℕ → Action (Unit {0})
hw_spi_ram_write_buf addr src m = on_bus (Bus.hw_spi_ram_write_buf addr src m.bus) m

-- `*current_forth_vm`, read and changed.
unfoldable pub get_vm : Action Vm
get_vm m = elim m.current_forth_vm [ none ↦ stop null_pointer | some v ↦ ok v m ]

unfoldable pub set_vm : Vm → Action (Unit {0})
set_vm v m = ok tt (record m { current_forth_vm = some v })

-- `if (!current_forth_vm) return;` before the rest.
unfoldable pub if_vm : Action (Unit {0}) → Action (Unit {0})
if_vm act m = elim m.current_forth_vm [ none ↦ ok tt m | some _ ↦ act m ]

-- A function of forth_vm.c that returns nothing, with its test for NULL.
abbrev pub on_vm : (Vm → Vm) → Action (Unit {0})
on_vm f m = elim m.current_forth_vm [
  | none ↦ ok tt m
  | some v ↦ ok tt (record m { current_forth_vm = some (f v) })
]

-- `forth_pop` and `forth_r_pop`, which return 0 at NULL.
abbrev pub from_vm : (Vm → ℕ × Vm) → Action ℕ
from_vm f m = elim m.current_forth_vm [
  | none ↦ ok 0 m
  | some v ↦ ok (f v).0 (record m { current_forth_vm = some (f v).1 })
]

unfoldable pub forth_abort : Action (Unit {0})
forth_abort = on_vm Vm.abort

unfoldable pub forth_push : ℕ → Action (Unit {0})
forth_push val = on_vm (Vm.push val)

unfoldable pub forth_pop : Action ℕ
forth_pop = from_vm Vm.pop

unfoldable pub forth_r_push : ℕ → Action (Unit {0})
forth_r_push val = on_vm (Vm.r_push val)

unfoldable pub forth_r_pop : Action ℕ
forth_r_pop = from_vm Vm.r_pop

unfoldable pub print : Printed → Action (Unit {0})
print p m = ok tt (record m { printed = p ∷ m.printed })
