-- ===== src/Tests/Widths.antt =====
-- The widths of the variables: instances.
use mathlib.Core.Option.{some-injective}
use u_forth.Prelude.{
  ℕ, zero, suc, subst, ◌==◌, ◌≡◌, inl, inr, Bool-cases, none, some, List, [], ◌∷◌, arith,
}
use u_forth.Machine.{Machine}
use u_forth.Builtins.{codes}
use u_forth.Main.Program.{main}
use u_forth.Widths.{IsWord, IsByte, AreBytes, VmFits, Fits, EndsFit}
use u_forth.Widths.Calls.{CallsFit, AreLines}
use u_forth.Widths.Blocks.{widths}
use u_forth.Widths.Lines.{parse_forth_number-IsWord}
use u_forth.Widths.Program.{main-Fits}
use u_forth.Tests.Fixtures.{vm, start}
use u_forth.Tests.Outside.{outside, extract_next_token}

extract_next_token-AreBytes :
    (line : List ℕ)
    → AreBytes line
    → ((token : List ℕ) → (extract_next_token line).0 ≡ some token → AreBytes token)
      × AreBytes (extract_next_token line).1
unfolding extract_next_token AreBytes
extract_next_token-AreBytes [] h = ((λ token e. absurd (cc)), tt)
extract_next_token-AreBytes (c ∷ line) (b, h) = elim (Bool-cases (c == 32)) [
  | inl blank ↦ rw (extract_next_token, blank) (extract_next_token-AreBytes line h)
  | inr other ↦
      rw (extract_next_token, other)
        ((λ token e. subst AreBytes (some-injective _ token e) (b, tt)), h)
]

outside-CallsFit : CallsFit outside
unfolding AreBytes AreLines
outside-CallsFit = record {
  hw_spi_ram_read32 = λ addr. search widths;
  extract_next_token = extract_next_token-AreBytes;
  parse_next_token_to_buf = λ line h. (tt, h);
  dict_add_user_word = λ name xt payload h w k. search widths;
  dict_find_variable_address = λ name h. search widths;
  try_parse_number = parse_forth_number-IsWord;
  process_numeric_token = λ n w. search widths;
  forth_abort_unknown_token = λ token h. search widths;
  get_public_handler_by_id = λ xt handler e. absurd (cc);
  dummy_xt = search widths;
  fgets_lines = λ f. tt;
  fread = λ f n. (tt, omega arith);
}

data_stack-IsWord : (i : ℕ) → IsWord (vm.data_stack i)
unfolding IsWord
data_stack-IsWord zero = omega arith
data_stack-IsWord (suc zero) = omega arith
data_stack-IsWord (suc (suc zero)) = omega arith
data_stack-IsWord (suc (suc (suc i))) = omega arith

vm-VmFits : VmFits vm
unfolding IsWord AreBytes
vm-VmFits = record {
  data_stack = data_stack-IsWord;
  return_stack = λ i. omega arith;
  sp = omega arith;
  rp = omega arith;
  ip = omega arith;
  latest_word = omega arith;
  dict_free_ptr = omega arith;
  parse_line_ptr = tt;
}

-- The machine before `main`.
abbrev unstarted : Machine
unstarted = record start { current_forth_vm = none }

unstarted-Fits : Fits unstarted
unfolding IsWord IsByte
unstarted-Fits = record {
  bus = record { fast = λ i. omega arith; ext = λ i. omega arith };
  vm = λ v e. absurd (cc);
  cells = record { cell_bitmap = λ i. omega arith; cell_allocated_count = omega arith };
  chunks = record { chunk_free_list_head = omega arith; chunk_allocated_count = omega arith };
  file_stack_ptr = omega arith;
}

abbrev typed : List (List ℕ)
typed = codes "5 6 +" ∷ codes "exit" ∷ []

typed-AreLines : AreLines typed
unfolding AreLines AreBytes IsByte
typed-AreLines = search arith

main-Fits_example : EndsFit (λ _. Unit {0}) (main 5 40 outside vm typed unstarted)
main-Fits_example =
    main-Fits outside outside-CallsFit 5 40 vm typed unstarted vm-VmFits typed-AreLines
      unstarted-Fits
