-- ===== src/Tests/Interpreter.antt =====
-- The interpreter of lines and the table of built-in words: tests and instances.
use u_forth.Prelude.{ℕ, ◌≢◌, none, ◌≡◌, refl, true, false, some, List, [], ◌∷◌, arith}
use u_forth.Bus.Access.{load, store}
use u_forth.Vm
use u_forth.Machine.{Machine, ok, pure, forth_abort}
use u_forth.Machine.Laws.{with_vm}
use u_forth.Compiler.{forth_primitive_lit}
use u_forth.Numbers.{to_word}
use u_forth.Numbers.Literal.{Notation}
use u_forth.Words.{binary}
use u_forth.Builtins.{
  Builtin, codes, strcmp, nth, bsearch, compare_builtin_nodes, find_builtin,
  forth_dict_validate_sorting,
}
use u_forth.Builtins.Search.{find_builtin-named}
use u_forth.Builtins.Tokens.{ForthXt, value}
use u_forth.Builtins.Table.{builtin_words}
use u_forth.Builtins.Back.{find_xt, find_xt-handler}
use u_forth.Words.Arith.{add32, forth_add, forth_primitive_lshift}
use u_forth.Builtins.Lost.{lost, lost_tokens, forth_dict_validate_sorting-lost}
use u_forth.Interpreter.Literal.{process_token-lit}
use u_forth.Interpreter.{process_token, interpret_token}
use u_forth.Interpreter.Semicolon.{interpret_token-semicolon}
use u_forth.Tests.Fixtures.{vm, start}
use u_forth.Tests.Outside.{outside}

abbrev words : List Builtin
words =
    record { name = codes "*"; handler = binary λ a b. a; xt_id = 12; is_immediate = false }
    ∷ record { name = codes "+"; handler = binary add32; xt_id = 14; is_immediate = false }
    ∷ []

forth_dict_validate_sorting-lost_example :
    (forth_dict_validate_sorting (builtin_words (λ line. pure tt) outside 9) start
      ≡ forth_abort start)
    × (lost (builtin_words (λ line. pure tt) outside 9) ≡ lost_tokens)
forth_dict_validate_sorting-lost_example =
    forth_dict_validate_sorting-lost (λ line. pure tt) outside 9 start

interpret_token-semicolon_example :
    interpret_token outside (builtin_words (λ line. pure tt) outside 9) (codes ";") start
    ≡ ok tt (record start {
      bus = store start.bus 0x60080000 39;
      current_forth_vm = some (record vm { dict_free_ptr = 0x60080004 });
    })
interpret_token-semicolon_example =
    interpret_token-semicolon (λ line. pure tt) outside 9 start vm refl refl refl

-- -$1F, which is no word of the table.
unknown_number : find_builtin words (codes "-$1F") ≡ none
unfolding find_builtin bsearch compare_builtin_nodes nth strcmp
unknown_number = refl

process_token-lit_example :
    (m' : Machine) × (process_token words (codes "-$1F") start ≡ ok tt m')
    × (m'.current_forth_vm ≡ some (record vm { dict_free_ptr = 0x60080008 }))
    × (load m'.bus 0x60080000 ≡ 1)
    × (forth_primitive_lit (with_vm m' vm)
        ≡ ok tt (with_vm m' (record (Vm.push (to_word true 31) vm) { ip = 0x60080008 })))
process_token-lit_example =
    process_token-lit words Notation.dollar true 1 (15 ∷ []) (omega arith, (omega arith, tt))
      (omega arith) start vm vm refl refl refl (omega arith) unknown_number refl

abbrev source_table : List Builtin
source_table = builtin_words (λ line. pure tt) outside 9

abbrev plus_row : Builtin
plus_row = record {
  name = codes "+";
  handler = forth_add;
  xt_id = value ForthXt.xt_add;
  is_immediate = false;
}

plus_found : find_builtin source_table (codes "+") ≡ some plus_row
unfolding find_builtin bsearch compare_builtin_nodes nth strcmp builtin_words
plus_found = refl

find_builtin-named_example :
    (i : ℕ) × (nth source_table i ≡ some plus_row) × (plus_row.name ≡ codes "+")
find_builtin-named_example = find_builtin-named source_table (codes "+") plus_row plus_found

find_xt-handler_example :
    ((i : ℕ) (w : Builtin)
      → nth source_table i ≡ some w
      → w.name ≢ codes "RSHIFT"
      → (x : Builtin) × (find_xt w.xt_id source_table ≡ some x) × (x.handler ≡ w.handler))
    × ((w : Builtin)
        → nth source_table 53 ≡ some w
        → (w.name ≡ codes "RSHIFT")
          × ((x : Builtin) × (find_xt w.xt_id source_table ≡ some x)
              × (x.handler ≡ forth_primitive_lshift)))
find_xt-handler_example = find_xt-handler (λ line. pure tt) outside 9
