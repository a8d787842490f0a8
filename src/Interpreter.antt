-- ===== src/Interpreter.antt =====
-- process_token and forth_interpret_line of forth_dict.c, over a table of built-in words. The loop over
-- the tokens of a line takes fuel.
pub mod Keeps
pub mod Ends
pub mod Semicolon
pub mod Literal
use u_forth.Prelude.{ℕ, zero, suc, Bool, true, false, ◌||◌, ◌==◌, none, some, List}
use u_forth.Vm.{ForthState}
use u_forth.Machine.{Action, Stop, pure, fail, branch, ◌>>=◌, ◌>>◌, get_vm}
use u_forth.Outside.{Outside}
use u_forth.Words.{if_running}
use u_forth.Compiler.{compile_token, process_number}
use u_forth.Strings.{set_parse_line_ptr}
use u_forth.Numbers.{is_end, parse_forth_number}
use u_forth.Builtins.{Builtin, find_builtin}

unfoldable pub is_repl : ForthState → Bool
is_repl ForthState.repl = true
is_repl _ = false

-- The handler of an immediate word, or of any word outside a definition; else the word's token.
unfoldable pub dispatch : Builtin → Action (Unit {0})
dispatch word = do
  v ← get_vm
  branch (word.is_immediate || is_repl v.state) word.handler (compile_token word.xt_id)

-- `process_token`, which returns at once after an abort. Nothing calls it.
unfoldable pub process_token : List Builtin → List ℕ → Action (Unit {0})
process_token words token_name = if_running (elim (find_builtin words token_name) [
  | some word ↦ dispatch word
  | none ↦ elim (parse_forth_number token_name) [
    | none ↦ pure tt
    | some numeric_val ↦ process_number numeric_val
  ]
])

-- The body of the loop of `forth_interpret_line` with a token.
unfoldable pub interpret_token : Outside → List Builtin → List ℕ → Action (Unit {0})
interpret_token o words token = elim (find_builtin words token) [
  | some word ↦ dispatch word
  | none ↦ elim (o.try_parse_number token) [
    | none ↦ o.forth_abort_unknown_token token
    | some numeric_value ↦ o.process_numeric_token numeric_value
  ]
]

unfoldable pub interpret_tokens : ℕ → Outside → List Builtin → Action (Unit {0})
interpret_tokens zero o words = fail Stop.out_of_fuel
interpret_tokens (suc fuel) o words = do
  v ← get_vm
  branch (is_end v.parse_line_ptr) (pure tt) (
      let extracted = o.extract_next_token v.parse_line_ptr in
      do
        set_parse_line_ptr extracted.1
        elim extracted.0 [
          | none ↦ pure tt
          | some token ↦ interpret_token o words token >> interpret_tokens fuel o words
        ])

unfoldable pub forth_interpret_line : ℕ → Outside → List Builtin → List ℕ → Action (Unit {0})
forth_interpret_line fuel o words line = set_parse_line_ptr line >> interpret_tokens fuel o words
