-- ===== src/Tests/Words.antt =====
-- The words that compute: tests and instances.
use u_forth.Prelude.{◌≡◌, refl, arith}
use u_forth.Words.Print.{forth_primitive_dot_binary, forth_primitive_dot_formatted}
use u_forth.Words.Digits.{PrintsBinary, Width, dot_binary-read_binary, dot_formatted-read_binary}
use u_forth.Vm
use u_forth.Vm.{Vm}
use u_forth.Vm.Refine.{IsValid, view}
use u_forth.Machine.Laws.{with_vm}
use u_forth.Words.Arith.{signed32, arshift, lshift, rshift}
use u_forth.Words.Refine.{ArithWord, run_word, meaning, Yields, run_word-Yields}
use u_forth.Words.Shift.{shift_ℤ, narrow, arshift-shift_ℤ}
use u_forth.Tests.Fixtures.{vm, start}

-- -1 above 5, which are out of order for an unsigned comparison.
abbrev two_numbers : Vm
two_numbers = Vm.push 5 (Vm.push 0xFFFFFFFF (Vm.vm_context_init vm 0x60080000))

two_numbers-IsValid : IsValid two_numbers
unfolding Vm.push Vm.vm_context_init
two_numbers-IsValid = omega arith

run_word-Yields_example :
    Yields
      (run_word ArithWord.less)
      (with_vm start two_numbers)
      (meaning ArithWord.less (view two_numbers))
unfolding Vm.push Vm.vm_context_init view
run_word-Yields_example =
    run_word-Yields ArithWord.less (with_vm start two_numbers) two_numbers refl two_numbers-IsValid
      (omega arith, (omega arith, tt))

arshift-shift_ℤ_example : signed32 (arshift 0xFE 1) ≡ shift_ℤ (narrow 0xFE) 1
arshift-shift_ℤ_example = arshift-shift_ℤ 0xFE 1 (omega arith) (omega arith)

shifts : (arshift 0xFE 1 ≡ 0xFFFFFFFF) × (lshift 1 31 ≡ 0x80000000) × (rshift 0x80000000 31 ≡ 1)
unfolding arshift lshift rshift
shifts = (refl, refl, refl)

dot_binary-read_binary_example :
    PrintsBinary forth_primitive_dot_binary
      (with_vm start two_numbers)
      (Vm.pop two_numbers).1
      (Vm.pop two_numbers).0
      32
unfolding Vm.pop Vm.push Vm.vm_context_init
dot_binary-read_binary_example =
    dot_binary-read_binary (with_vm start two_numbers) two_numbers refl refl

-- 0x1A and the descriptor for a nibble in base 2.
abbrev nibble_of_1a : Vm
nibble_of_1a = Vm.push 0x13 (Vm.push 0x1A (Vm.vm_context_init vm 0x60080000))

dot_formatted-read_binary_example :
    PrintsBinary forth_primitive_dot_formatted
      (with_vm start nibble_of_1a)
      (Vm.pop (Vm.pop nibble_of_1a).1).1
      (Vm.pop (Vm.pop nibble_of_1a).1).0
      4
unfolding Vm.pop Vm.push Vm.vm_context_init
dot_formatted-read_binary_example =
    dot_formatted-read_binary (with_vm start nibble_of_1a) nibble_of_1a Width.nibble refl refl refl
