-- ===== src/Widths/Rules.antt =====
-- One rule for each way to build an action of the program.
use u_forth.Prelude.{ℕ, ◌≡◌, refl, subst, Bool, true, false, Option, none, some, arith}
use mathlib.Core.Option.{some-injective}
use u_forth.Vm.{Vm, ForthState}
use u_forth.Machine.{
  Action, Machine, Run, Stop, ok, stop, pure, fail, branch, ◌>>=◌, get_vm, set_vm, if_vm, print,
  Printed, on_vm, from_vm,
}
use u_forth.Widths.{IsWord, VmFits, Fits, EndsFit, Keeps, KeepsFit}

module _ {A : Type 0} {P : A → Type 0} where
  pub Keeps-pure : (a : A) → P a → Keeps P (pure a)
  Keeps-pure a p = record { at = λ m h. (p, h) }

  pub Keeps-fail : (s : Stop) → Keeps P (fail {A = A} s)
  Keeps-fail s = record { at = λ m h. tt }

  pub Keeps-branch :
      (b : Bool) (act next : Action A) → Keeps P act → Keeps P next → Keeps P (branch b act next)
  Keeps-branch true act next h k = record { at = h.at }
  Keeps-branch false act next h k = record { at = k.at }

module _ {A B : Type 0} {P : A → Type 0} {Q : B → Type 0} (act : Action A)
    (next : A → Action B) where
  pub Keeps->>= : Keeps P act → ((a : A) → P a → Keeps Q (next a)) → Keeps Q (act >>= next)
  Keeps->>= h k = record { at = λ m fit. by_run (act m) (h.at m fit) }
    where
      by_run :
          (r : Run A)
          → EndsFit P r
          → EndsFit Q (elim r as (λ _. Run B) [ ok a m' ↦ next a m' | stop s ↦ stop s ])
      by_run (ok a m') (p, fit) = (k a p).at m' fit
      by_run (stop s) h = tt

module _ {B : Type 0} {Q : B → Type 0} where
  pub Keeps->> :
      (act : Action (Unit {0})) (next : Unit {0} → Action B)
      → KeepsFit act
      → ((u : Unit {0}) → Keeps Q (next u))
      → Keeps Q (act >>= next)
  Keeps->> act next h k = Keeps->>= act next h (λ u _. k u)

-- An access to the context that `current_forth_vm` points to.
with_vm :
    (m : Machine) → Fits m → {v : Vm} → VmFits v → Fits (record m { current_forth_vm = some v })
with_vm m h k = record {
  bus = h.bus;
  vm = λ v e. subst VmFits (some-injective _ _ e) k;
  cells = h.cells;
  chunks = h.chunks;
  file_stack_ptr = h.file_stack_ptr;
}

module _ (f : Vm → Vm) (fits : (v : Vm) → VmFits v → VmFits (f v)) where
  pub Keeps-on_vm : KeepsFit (on_vm f)
  Keeps-on_vm = record { at = λ m h. by_vm m h m.current_forth_vm h.vm }
    where
      by_vm :
          (m : Machine)
          → Fits m
          → (o : Option Vm) → ((v : Vm) → o ≡ some v → VmFits v)
          → EndsFit
              (λ _. Unit {0})
              (elim o as (λ _. Run (Unit {0})) [
                | none ↦ ok tt m
                | some v ↦ ok tt (record m { current_forth_vm = some (f v) })
              ])
      by_vm m h none k = (tt, h)
      by_vm m h (some v) k = (tt, with_vm m h (fits v (k v refl)))

module _ (f : Vm → ℕ × Vm) (fits : (v : Vm) → VmFits v → IsWord (f v).0 × VmFits (f v).1) where
  pub Keeps-from_vm : Keeps IsWord (from_vm f)
  unfolding IsWord
  Keeps-from_vm = record { at = λ m h. by_vm m h m.current_forth_vm h.vm }
    where
      by_vm :
          (m : Machine)
          → Fits m
          → (o : Option Vm) → ((v : Vm) → o ≡ some v → VmFits v)
          → EndsFit IsWord (elim o as (λ _. Run ℕ) [
            | none ↦ ok 0 m
            | some v ↦ ok (f v).0 (record m { current_forth_vm = some (f v).1 })
          ])
      by_vm m h none k = (omega arith, h)
      by_vm m h (some v) k = let (p, q) = fits v (k v refl) in (p, with_vm m h q)

pub Keeps-get_vm : Keeps VmFits get_vm
unfolding get_vm
Keeps-get_vm = record { at = λ m h. by_vm m h m.current_forth_vm h.vm }
  where
    by_vm :
        (m : Machine)
        → Fits m
        → (o : Option Vm) → ((v : Vm) → o ≡ some v → VmFits v)
        → EndsFit VmFits
            (elim o as (λ _. Run Vm) [ none ↦ stop Stop.null_pointer | some v ↦ ok v m ])
    by_vm m h none k = tt
    by_vm m h (some v) k = (k v refl, h)

pub Keeps-set_vm : (v : Vm) → VmFits v → KeepsFit (set_vm v)
unfolding set_vm
Keeps-set_vm v k = record { at = λ m h. (tt, with_vm m h k) }

pub Keeps-if_vm : (act : Action (Unit {0})) → KeepsFit act → KeepsFit (if_vm act)
unfolding if_vm
Keeps-if_vm act k = record { at = λ m h. by_vm m h m.current_forth_vm }
  where
    by_vm :
        (m : Machine)
        → Fits m
        → (o : Option Vm)
        → EndsFit
            (λ _. Unit {0})
            (elim o as (λ _. Run (Unit {0})) [ none ↦ ok tt m | some v ↦ act m ])
    by_vm m h none = (tt, h)
    by_vm m h (some v) = k.at m h

pub Keeps-print : (p : Printed) → KeepsFit (print p)
unfolding print
Keeps-print p = record {
  at = λ m h. (
    tt,
    record {
      bus = h.bus;
      vm = h.vm;
      cells = h.cells;
      chunks = h.chunks;
      file_stack_ptr = h.file_stack_ptr;
    },
  );
}

-- A choice by the state of the context, or by whether there is a result.
module _ {B : Type 0} {Q : B → Type 0} where
  pub Keeps-by_state :
      (s : ForthState) (in_repl in_compile in_runtime : Action B)
      → Keeps Q in_repl
      → Keeps Q in_compile
      → Keeps Q in_runtime
      → Keeps Q (elim s as (λ _. Action B) [
        | ForthState.repl ↦ in_repl
        | ForthState.compile ↦ in_compile
        | ForthState.runtime ↦ in_runtime
      ])
  Keeps-by_state ForthState.repl in_repl in_compile in_runtime h k l = h
  Keeps-by_state ForthState.compile in_repl in_compile in_runtime h k l = k
  Keeps-by_state ForthState.runtime in_repl in_compile in_runtime h k l = l

  pub Keeps-by_option :
      {A : Type 0} (o : Option A) (nothing : Action B) (next : A → Action B)
      → Keeps Q nothing
      → ((a : A) → o ≡ some a → Keeps Q (next a))
      → Keeps Q (elim o as (λ _. Action B) [ none ↦ nothing | some a ↦ next a ])
  Keeps-by_option none nothing next h k = h
  Keeps-by_option (some a) nothing next h k = k a refl
