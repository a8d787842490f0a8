-- ===== src/Main/Program.antt =====
-- The whole of `main`. forth_interpret_line and INCLUDED of the table call one another: `depth` says how
-- deep, the line of the terminal counted. Four nested scripts fill `file_stack`.
use u_forth.Prelude.{ℕ, zero, suc, List, [], ◌∷◌}
use u_forth.Vm.{Vm}
use u_forth.Machine.{Action, Stop, pure, fail, branch, ◌>>=◌, ◌>>◌}
use u_forth.Outside.{Outside}
use u_forth.Builtins.Table.{builtin_words}
use u_forth.Interpreter.{forth_interpret_line}
use u_forth.Main.{dict_init, initialise, vm_dump_stack, repl_round}

unfoldable pub interpret_nested : ℕ → ℕ → Outside → List ℕ → Action (Unit {0})
interpret_nested zero fuel o line = fail Stop.out_of_fuel
interpret_nested (suc depth) fuel o line =
    forth_interpret_line fuel o (builtin_words (interpret_nested depth fuel o) o fuel) line

-- The loop over the lines that `fgets` gives, up to its NULL.
unfoldable pub repl_loop : ℕ → (List ℕ → Action (Unit {0})) → List (List ℕ) → Action (Unit {0})
repl_loop fuel interpret_line [] = vm_dump_stack
repl_loop fuel interpret_line (input_buffer ∷ lines) = do
  goes_on ← repl_round fuel interpret_line input_buffer
  branch goes_on (repl_loop fuel interpret_line lines) (pure tt)

unfoldable pub main : ℕ → ℕ → Outside → Vm → List (List ℕ) → Action (Unit {0})
main depth fuel o system_forth_instance lines = do
  initialise (builtin_words (interpret_nested depth fuel o) o fuel) system_forth_instance
  dict_init (interpret_nested depth fuel o)
  repl_loop fuel (interpret_nested depth fuel o) lines
