-- ===== src/Words.antt =====
-- The built-in words of forth_dict.c that work on the data stack, on memory and on the output.
pub mod Arith
pub mod Memory
pub mod Print
pub mod Refine
pub mod Shift
pub mod Digits
use u_forth.Prelude.{ℕ, ◌==◌, ◌≡◌}
use u_forth.Vm.{Vm}
use u_forth.Machine.Laws.{with_vm}
use u_forth.Machine.{
  Action, Machine, ok, pure, branch, ◌>>=◌, ◌>>◌, if_vm, get_vm, forth_push, forth_pop,
}

-- `if (!current_forth_vm->abort_flag)` before the rest.
abbrev pub if_running : Action (Unit {0}) → Action (Unit {0})
if_running act = do v ← get_vm; branch (v.abort_flag == 0) act (pure tt)

-- The words that pop, compute and push with no test of their own.
abbrev pub unary : (ℕ → ℕ) → Action (Unit {0})
unary f = do a ← forth_pop; forth_push (f a)

abbrev pub binary : (ℕ → ℕ → ℕ) → Action (Unit {0})
binary f = do b ← forth_pop; a ← forth_pop; forth_push (f a b)

-- The words that return at NULL, and push only while nothing has aborted.
abbrev pub guarded_unary : (ℕ → ℕ) → Action (Unit {0})
guarded_unary f = if_vm (do a ← forth_pop; if_running (forth_push (f a)))

abbrev pub guarded_binary : (ℕ → ℕ → ℕ) → Action (Unit {0})
guarded_binary f = if_vm (do b ← forth_pop; a ← forth_pop; if_running (forth_push (f a b)))

-- Without an abort the test changes nothing.
pub if_running-runs :
    (act : Action (Unit {0})) (m : Machine) (v : Vm)
    → v.abort_flag ≡ 0
    → if_running act (with_vm m v) ≡ act (with_vm m v)
unfolding get_vm
if_running-runs act m v clean = rw clean
