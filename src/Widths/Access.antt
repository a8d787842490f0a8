-- ===== src/Widths/Access.antt =====
-- The accesses to the bus and to the stacks.
use u_forth.Prelude.{ℕ, ◌≡◌, refl, Option, none, some, List}
use u_forth.Vm
use u_forth.Vm.{Vm, ForthState}
use u_forth.Bus
use u_forth.Bus.{Bus}
use u_forth.Machine.{
  Machine, hw_read8, hw_write8, hw_spi_ram_read_buf, hw_spi_ram_write_buf, hw_read32, hw_write32,
  forth_push, forth_pop, forth_r_push, forth_r_pop, forth_abort, on_bus, read_bus,
}
use u_forth.Bus.Words.{HoldsBytes}
use u_forth.Widths.Stacks.{abort-VmFits, push-VmFits, pop-VmFits, r_push-VmFits, r_pop-VmFits}
use u_forth.Widths.Memory.{
  hw_read32-IsWord, hw_read8-IsByte, hw_write32-HoldsBytes, hw_write8-HoldsBytes, read_buf-AreBytes,
  write_buf-HoldsBytes,
}
use u_forth.Widths.{IsWord, IsByte, AreBytes, Fits, EndsFit, Keeps, KeepsFit}
use u_forth.Widths.Rules.{Keeps-on_vm, Keeps-from_vm}

with_bus : (m : Machine) → Fits m → {b : Bus} → HoldsBytes b → Fits (record m { bus = b })
with_bus m h k = record {
  bus = k;
  vm = h.vm;
  cells = h.cells;
  chunks = h.chunks;
  file_stack_ptr = h.file_stack_ptr;
}

-- An access to the bus.
on_bus-EndsFit :
    (m : Machine)
    → Fits m
    → (r : Option Bus) → ((b : Bus) → r ≡ some b → HoldsBytes b)
    → EndsFit (λ _. Unit {0}) (on_bus r m)
on_bus-EndsFit m h none k = tt
on_bus-EndsFit m h (some b) k = (tt, with_bus m h (k b refl))

read_bus-EndsFit :
    {A : Type 0} {P : A → Type 0} (m : Machine)
    → Fits m
    → (r : Option A) → ((a : A) → r ≡ some a → P a)
    → EndsFit P (read_bus r m)
read_bus-EndsFit m h none k = tt
read_bus-EndsFit m h (some a) k = (k a refl, h)

pub Keeps-hw_read32 : (addr : ℕ) → Keeps IsWord (hw_read32 addr)
unfolding hw_read32
Keeps-hw_read32 addr = record {
  at = λ m h.
      read_bus-EndsFit m h (Bus.hw_read32 addr m.bus) λ a e. hw_read32-IsWord addr m.bus a h.bus e;
}

pub Keeps-hw_read8 : (addr : ℕ) → Keeps IsByte (hw_read8 addr)
unfolding hw_read8
Keeps-hw_read8 addr = record {
  at = λ m h.
      read_bus-EndsFit m h (Bus.hw_read8 addr m.bus) λ a e. hw_read8-IsByte addr m.bus a h.bus e;
}

pub Keeps-hw_write32 : (addr val : ℕ) → KeepsFit (hw_write32 addr val)
unfolding hw_write32
Keeps-hw_write32 addr val = record {
  at = λ m h.
      on_bus-EndsFit m h (Bus.hw_write32 addr val m.bus)
        λ b e. hw_write32-HoldsBytes addr val m.bus b h.bus e;
}

pub Keeps-hw_write8 : (addr val : ℕ) → IsByte val → KeepsFit (hw_write8 addr val)
unfolding hw_write8
Keeps-hw_write8 addr val p = record {
  at = λ m h.
      on_bus-EndsFit m h (Bus.hw_write8 addr val m.bus)
        λ b e. hw_write8-HoldsBytes addr val m.bus b p h.bus e;
}

pub Keeps-hw_spi_ram_read_buf : (addr len : ℕ) → Keeps AreBytes (hw_spi_ram_read_buf addr len)
unfolding hw_spi_ram_read_buf
Keeps-hw_spi_ram_read_buf addr len = record {
  at = λ m h.
      read_bus-EndsFit m h (Bus.hw_spi_ram_read_buf addr len m.bus)
        λ a e. read_buf-AreBytes addr len m.bus a h.bus e;
}

pub Keeps-hw_spi_ram_write_buf :
    (addr : ℕ) (src : List ℕ) → AreBytes src → KeepsFit (hw_spi_ram_write_buf addr src)
unfolding hw_spi_ram_write_buf
Keeps-hw_spi_ram_write_buf addr src p = record {
  at = λ m h.
      on_bus-EndsFit m h (Bus.hw_spi_ram_write_buf addr src m.bus)
        λ b e. write_buf-HoldsBytes addr src m.bus b p h.bus e;
}

pub Keeps-forth_push : (x : ℕ) → IsWord x → KeepsFit (forth_push x)
unfolding forth_push
Keeps-forth_push x p = Keeps-on_vm (Vm.push x) λ v h. push-VmFits v h x p

pub Keeps-forth_r_push : (x : ℕ) → IsWord x → KeepsFit (forth_r_push x)
unfolding forth_r_push
Keeps-forth_r_push x p = Keeps-on_vm (Vm.r_push x) λ v h. r_push-VmFits v h x p

pub Keeps-forth_pop : Keeps IsWord forth_pop
unfolding forth_pop
Keeps-forth_pop = Keeps-from_vm Vm.pop pop-VmFits

pub Keeps-forth_r_pop : Keeps IsWord forth_r_pop
unfolding forth_r_pop
Keeps-forth_r_pop = Keeps-from_vm Vm.r_pop r_pop-VmFits

pub Keeps-forth_abort : KeepsFit forth_abort
unfolding forth_abort
Keeps-forth_abort = Keeps-on_vm Vm.abort abort-VmFits
