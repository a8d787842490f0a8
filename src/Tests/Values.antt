-- ===== src/Tests/Values.antt =====
-- The words of values: an instance.
use u_forth.Prelude.{◌≡◌, refl, some, arith}
use u_forth.Bus.Access.{load, store}
use u_forth.Vm
use u_forth.Vm.{Vm}
use u_forth.Machine.{Machine, ok}
use u_forth.Machine.Laws.{with_vm, with_bus}
use u_forth.Values.{forth_primitive_p_value, forth_primitive_p_to}
use u_forth.Values.Store.{after_value, p_to-p_value}
use u_forth.Tests.Fixtures.{bus, vm, start}

-- The cell of (TO) names a word at 0x60080100, whose value lies behind its token.
abbrev to_value : Machine
to_value = with_bus start (store bus 0x60080004 0x60080100)

abbrev at_value : Vm
at_value = record vm { ip = 0x60080104 }

p_to-p_value_example :
    (m' : Machine) × (forth_primitive_p_to to_value ≡ ok tt m')
    × (m'.current_forth_vm ≡ some (record (Vm.pop vm).1 { ip = 0x60080008 }))
    × (forth_primitive_p_value (with_vm m' at_value)
        ≡ ok tt (with_vm m' (after_value at_value (Vm.pop vm).0)))
unfolding load store Vm.pop
p_to-p_value_example = p_to-p_value to_value vm at_value refl refl refl refl (omega arith) refl
