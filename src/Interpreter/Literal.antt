-- ===== src/Interpreter/Literal.antt =====
-- A token that is a number, from its characters to the number that the threaded code pushes.
use u_forth.Prelude.{
  ℕ, ◌+◌, ◌<◌, ◌^◌, ◌≡◌, ◌∙◌, refl, Bool, true, false, ◌==◌, none, some, List, ◌∷◌, arith,
}
use u_forth.Bus.Access.{load}
use u_forth.Vm
use u_forth.Vm.{Vm, ForthState}
use u_forth.Machine.{Machine, ok, ◌>>=◌}
use u_forth.Machine.Laws.{with_vm, get_vm_at}
use u_forth.Words.{if_running}
use u_forth.Compiler.{xt_lit, process_number, forth_primitive_lit}
use u_forth.Compiler.Layout.{HasSpace}
use u_forth.Compiler.Literal.{process_number-lit}
use u_forth.Numbers.{to_word}
use u_forth.Numbers.Literal.{
  Notation, AllBelow, base_of, value_from, write_number, write_sign, parse_number-to_word,
}
use u_forth.Builtins.{Builtin, find_builtin}
use u_forth.Interpreter.{process_token}

to_word-lt : (negative : Bool) (value : ℕ) → to_word negative value < 2 ^ 32
unfolding to_word
to_word-lt true value = omega arith
to_word-lt false value = omega arith

module _ (words : List Builtin) (n : Notation) (negative : Bool) (d : ℕ) (ds : List ℕ)
    (below : AllBelow (base_of n) (d ∷ ds))
    (fits : value_from (base_of n) 0 (d ∷ ds) < 2 ^ 63) where
  abbrev token : List ℕ
  token = write_sign negative (write_number n (d ∷ ds))

  abbrev number : ℕ
  number = to_word negative (value_from (base_of n) 0 (d ∷ ds))

  process_token-process_number :
      (m : Machine) (v : Vm)
      → m.current_forth_vm ≡ some v
      → v.abort_flag ≡ 0
      → find_builtin words token ≡ none
      → process_token words token m ≡ process_number number m
  unfolding process_token
  process_token-process_number m v running a unknown =
      let clean : (v.abort_flag == 0) ≡ true = ground arith in
      rw
        (
          process_token,
          if_running,
          ◌>>=◌,
          get_vm_at m running,
          clean,
          unknown,
          parse_number-to_word n negative d ds below fits,
        )
        refl

  -- A number in one of the four notations, below 2 ^ 63, that is no word of the table: in compiling mode,
  -- with space at the frontier and no abort before, the token is laid down as LIT and its value modulo
  -- 2 ^ 32, and the frontier moves on by 8. When LIT is then run with the instruction pointer behind its
  -- token, from any context, it pushes that value and comes to the end of the pair.
  pub process_token-lit :
      (m : Machine) (v w : Vm)
      → m.current_forth_vm ≡ some v
      → v.abort_flag ≡ 0
      → v.state ≡ ForthState.compile
      → HasSpace v.dict_free_ptr 8
      → find_builtin words token ≡ none
      → w.ip ≡ v.dict_free_ptr + 4
      → (m' : Machine) × (process_token words token m ≡ ok tt m')
        × (m'.current_forth_vm ≡ some (record v { dict_free_ptr = v.dict_free_ptr + 8 }))
        × (load m'.bus v.dict_free_ptr ≡ xt_lit)
        × (forth_primitive_lit (with_vm m' w)
            ≡ ok tt (with_vm m' (record (Vm.push number w) { ip = v.dict_free_ptr + 8 })))
  process_token-lit m v w running a s space unknown e =
      let small = to_word-lt negative (value_from (base_of n) 0 (d ∷ ds)) in
      let (m', compiled, frontier, laid, pushed) =
        process_number-lit m v number w running s space small e in
      (m', process_token-process_number m v running a unknown ∙ compiled, frontier, laid, pushed)
