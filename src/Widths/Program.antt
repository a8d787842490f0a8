-- ===== src/Widths/Program.antt =====
-- The whole of `main`: every variable of the program stays within the width of its C type.
use u_forth.Prelude.{ℕ, zero, suc, arith, List, [], ◌∷◌}
use u_forth.Vm.{Vm, ForthState}
use u_forth.Machine.{Machine, Action, ◌>>=◌, get_vm, set_vm}
use u_forth.Outside.{Outside}
use u_forth.Builtins.Table.{builtin_words}
use u_forth.Main.{interpret_constants, dict_init, flash_init_constants, repl_round}
use u_forth.Main.Program.{interpret_nested, repl_loop, main}
use u_forth.Widths.{IsByte, AreBytes, VmFits, Fits, EndsFit, KeepsFit}
use u_forth.Widths.Calls.{CallsFit, AreLines}
use u_forth.Widths.Rules.{Keeps-set_vm}
use u_forth.Widths.Blocks.{widths}
use u_forth.Widths.Scripts.{Keeps-set_quiet_mode}
use u_forth.Widths.Debug.{
  Keeps-forth_export_memory_csv, Keeps-forth_export_runtime_snapshot_csv, result_then,
}
use u_forth.Widths.Table.{builtin_words-HandlersFit}
use u_forth.Widths.Lines.{Keeps-forth_interpret_line}
use u_forth.Widths.Start.{Keeps-initialise, Keeps-vm_dump_stack, Keeps-recover, restarted-VmFits}

flash_init_constants-AreLines : AreLines flash_init_constants
unfolding AreLines AreBytes IsByte
flash_init_constants-AreLines = search arith

module _ (interpret_line : List ℕ → Action (Unit {0}))
    (fits : (line : List ℕ) → AreBytes line → KeepsFit (interpret_line line)) where
  Keeps-interpret_constants :
      (lines : List (List ℕ)) → AreLines lines → KeepsFit (interpret_constants interpret_line lines)
  unfolding interpret_constants AreLines
  Keeps-interpret_constants [] h = search widths
  Keeps-interpret_constants (line ∷ lines) (b, h) =
      let first = fits line b in let rest = Keeps-interpret_constants lines h in search widths

  Keeps-restart : KeepsFit (
      get_vm >>= λ v.
      set_vm (record v { latest_word = 0; state = ForthState.repl; ip = 0; quiet_mode = 1 }))
  Keeps-restart = search (widths, Keeps-set_vm, restarted-VmFits)

  Keeps-dict_init : KeepsFit (dict_init interpret_line)
  unfolding dict_init
  Keeps-dict_init =
      let constants =
        Keeps-interpret_constants flash_init_constants flash_init_constants-AreLines in
      search (widths, result_then, Keeps-set_vm, restarted-VmFits, Keeps-set_quiet_mode) depth 10

  Keeps-repl_round :
      (fuel : ℕ) (line : List ℕ) → AreBytes line → KeepsFit (repl_round fuel interpret_line line)
  unfolding repl_round
  Keeps-repl_round fuel line h =
      let run = fits line h in
      search
        (
          widths, result_then, Keeps-vm_dump_stack, Keeps-recover, Keeps-forth_export_memory_csv,
          Keeps-forth_export_runtime_snapshot_csv,
        )
        depth 10

  Keeps-repl_loop :
      (fuel : ℕ) (lines : List (List ℕ))
      → AreLines lines
      → KeepsFit (repl_loop fuel interpret_line lines)
  unfolding repl_loop AreLines
  Keeps-repl_loop fuel [] h = Keeps-vm_dump_stack
  Keeps-repl_loop fuel (line ∷ lines) (b, h) =
      let first = Keeps-repl_round fuel line b in
      let rest = Keeps-repl_loop fuel lines h in search (widths, result_then)

-- One line, with the scripts that it runs, whichever words it names.
interpret_nested-Fits :
    (o : Outside)
    → CallsFit o
    → (depth fuel : ℕ) (line : List ℕ) → AreBytes line
    → KeepsFit (interpret_nested depth fuel o line)
unfolding interpret_nested
interpret_nested-Fits o calls zero fuel line h = search widths
interpret_nested-Fits o calls (suc depth) fuel line h =
    Keeps-forth_interpret_line _
      (builtin_words-HandlersFit (interpret_nested depth fuel o)
        (interpret_nested-Fits o calls depth fuel) o calls fuel)
      o calls fuel line h

-- Started on variables that fit, `main` leaves variables that fit, whatever lines of bytes are typed, unless
-- it stops: every cell of both stacks, the registers, the counters and heads of the pools below 2^32, both
-- stack pointers at most 64, every byte of memory, of the bitmap and of the line below 256. It is asked
-- that the functions outside the repository and the files of the host do the same.
pub main-Fits :
    (o : Outside)
    → CallsFit o
    → (depth fuel : ℕ) (system_forth_instance : Vm) (lines : List (List ℕ)) (m : Machine)
    → VmFits system_forth_instance
    → AreLines lines
    → Fits m
    → EndsFit (λ _. Unit {0}) (main depth fuel o system_forth_instance lines m)
unfolding main
main-Fits o calls depth fuel v lines m h typed fit =
    let line = interpret_nested-Fits o calls depth fuel in
    let keeps : KeepsFit (main depth fuel o v lines) =
      (let start = Keeps-initialise (builtin_words (interpret_nested depth fuel o) o fuel) v h in
        let constants = Keeps-dict_init (interpret_nested depth fuel o) line in
        let loop = Keeps-repl_loop (interpret_nested depth fuel o) line fuel lines typed in
        search widths) in
    keeps.at m fit
