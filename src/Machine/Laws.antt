-- ===== src/Machine/Laws.antt =====
-- What the accesses and the stack operations do to a machine, where it is known that they succeed.
use u_forth.Prelude.{ℕ, ◌≡◌, true, false, some}
use u_forth.Bus.{Bus}
use u_forth.Bus.Access.{
  is_byte, is_word, load, store, peek, poke, hw_read8-peek, hw_write8-poke, hw_read32-load,
  hw_write32-store,
}
use u_forth.Vm
use u_forth.Vm.{Vm}
use u_forth.Machine.{
  Machine, ok, stop, Stop, hw_read8, hw_write8, hw_read32, hw_write32, forth_push, forth_pop,
  forth_r_push, forth_r_pop, forth_abort, get_vm, if_vm, Action,
}

abbrev pub with_vm : Machine → Vm → Machine
with_vm m v = record m { current_forth_vm = some v }

abbrev pub with_bus : Machine → Bus → Machine
with_bus m b = record m { bus = b }

module _ (a : ℕ) (m : Machine) where
  pub read32_at : is_word a ≡ true → hw_read32 a m ≡ ok (load m.bus a) m
  unfolding hw_read32
  read32_at w = rw (hw_read32-load a m.bus, w)

  pub read32_out : is_word a ≡ false → hw_read32 a m ≡ stop Stop.bus_fault
  unfolding hw_read32
  read32_out w = rw (hw_read32-load a m.bus, w)

  pub write32_at :
      (v : ℕ) → is_word a ≡ true → hw_write32 a v m ≡ ok tt (with_bus m (store m.bus a v))
  unfolding hw_write32
  write32_at v w = rw (hw_write32-store a v m.bus, w)

  pub write32_out : (v : ℕ) → is_word a ≡ false → hw_write32 a v m ≡ stop Stop.bus_fault
  unfolding hw_write32
  write32_out v w = rw (hw_write32-store a v m.bus, w)

  pub read8_at : is_byte a ≡ true → hw_read8 a m ≡ ok (peek m.bus a) m
  unfolding hw_read8
  read8_at w = rw (hw_read8-peek a m.bus, w)

  pub write8_at : (v : ℕ) → is_byte a ≡ true → hw_write8 a v m ≡ ok tt (with_bus m (poke m.bus a v))
  unfolding hw_write8
  write8_at v w = rw (hw_write8-poke a v m.bus, w)

module _ (m : Machine) {v : Vm} (e : m.current_forth_vm ≡ some v) where
  pub get_vm_at : get_vm m ≡ ok v m
  unfolding get_vm
  get_vm_at = rw e

  pub push_at : (x : ℕ) → forth_push x m ≡ ok tt (with_vm m (Vm.push x v))
  unfolding forth_push
  push_at x = rw e

  pub pop_at : forth_pop m ≡ ok (Vm.pop v).0 (with_vm m (Vm.pop v).1)
  unfolding forth_pop
  pop_at = rw e

  pub r_push_at : (x : ℕ) → forth_r_push x m ≡ ok tt (with_vm m (Vm.r_push x v))
  unfolding forth_r_push
  r_push_at x = rw e

  pub r_pop_at : forth_r_pop m ≡ ok (Vm.r_pop v).0 (with_vm m (Vm.r_pop v).1)
  unfolding forth_r_pop
  r_pop_at = rw e

  pub abort_at : forth_abort m ≡ ok tt (with_vm m (Vm.abort v))
  unfolding forth_abort
  abort_at = rw e

  pub if_vm_at : (act : Action (Unit {0})) → if_vm act m ≡ act m
  unfolding if_vm
  if_vm_at act = simp (if_vm, e)
