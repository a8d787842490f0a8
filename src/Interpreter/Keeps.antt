-- ===== src/Interpreter/Keeps.antt =====
-- Actions that leave the line of the context as it is, or a part of it, and do not run out of fuel.
use u_forth.Prelude.{
  ℕ, ◌≤◌, ◌≡◌, ◌≢◌, refl, ap, Bool, true, false, Option, none, some, length, arith,
}
use u_forth.Vm
use u_forth.Vm.{Vm}
use u_forth.Bus
use u_forth.Bus.{Bus}
use u_forth.Machine.{
  Action, Machine, Run, Stop, ok, stop, pure, branch, ◌>>=◌, get_vm, set_vm, hw_write32, forth_push,
  forth_pop, forth_abort, on_vm, from_vm, on_bus,
}
use u_forth.Compiler.{set_dict_free_ptr, compile_token}
use u_forth.Words.{binary}

-- How much of the line is left.
abbrev line_of : Option Vm → ℕ
line_of none = 0
line_of (some v) = length v.parse_line_ptr

abbrev pub line_length : Machine → ℕ
line_length m = line_of m.current_forth_vm

-- A run that leaves at most `n` characters of the line, or stops for a reason of the program's own.
abbrev pub Ends : {A : Type 0} → ℕ → Run A → Type 0
Ends n (ok a m) = line_length m ≤ n
Ends n (stop s) = s ≢ Stop.out_of_fuel

-- The action leaves the line as it is, or a part of it.
abbrev pub Keeps : {A : Type 0} → Action A → Type 0
Keeps act = (m : Machine) → Ends (line_length m) (act m)

module _ {A : Type 0} where
  pub Ends-le : (r : Run A) {n k : ℕ} → n ≤ k → Ends n r → Ends k r
  Ends-le (ok a m) le h = omega arith
  Ends-le (stop s) le h = h

  pub Keeps-branch :
      (b : Bool) (act next : Action A) → Keeps act → Keeps next → Keeps (branch b act next)
  Keeps-branch true act next h k = h
  Keeps-branch false act next h k = k

  pub Keeps-pure : (a : A) → Keeps (pure a)
  Keeps-pure a = λ m. omega arith

module _ {A B : Type 0} (act : Action A) (next : A → Action B) where
  pub Ends->>= :
      (n : ℕ) (m : Machine)
      → Ends n (act m)
      → ((a : A) (m' : Machine) → line_length m' ≤ n → Ends n (next a m'))
      → Ends n ((act >>= next) m)
  Ends->>= n m h k = by_run (act m) h
    where
      by_run :
          (r : Run A)
          → Ends n r
          → Ends n (elim r as (λ _. Run B) [ ok a m' ↦ next a m' | stop s ↦ stop s ])
      by_run (ok a m') h = k a m' h
      by_run (stop s) h = h

  pub Keeps->>= : Keeps act → ((a : A) → Keeps (next a)) → Keeps (act >>= next)
  Keeps->>= h k = λ m. Ends->>= (line_length m) m (h m) (λ a m' le. Ends-le (next a m') le (k a m'))

null_not_fuel : Stop.null_pointer ≢ Stop.out_of_fuel
null_not_fuel = λ e. cc

fault_not_fuel : Stop.bus_fault ≢ Stop.out_of_fuel
fault_not_fuel = λ e. cc

pub Keeps-get_vm : Keeps get_vm
unfolding get_vm
Keeps-get_vm = λ m. by_vm m m.current_forth_vm
  where
    by_vm :
        (m : Machine) (o : Option Vm)
        → Ends
            (line_length m)
            (elim o as (λ _. Run Vm) [ none ↦ stop Stop.null_pointer | some v ↦ ok v m ])
    by_vm m none = null_not_fuel
    by_vm m (some v) = omega arith

module _ (f : Vm → Vm)
    (same : (v : Vm) → length (f v).parse_line_ptr ≤ length v.parse_line_ptr) where
  Keeps-context :
      (m : Machine) (o : Option Vm)
      → m.current_forth_vm ≡ o
      → Ends (line_of o) (elim o as (λ _. Run (Unit {0})) [
        | none ↦ ok tt m
        | some v ↦ ok tt (record m { current_forth_vm = some (f v) })
      ])
  Keeps-context m none e = omega (arith, ap line_of e)
  Keeps-context m (some v) e = same v

  pub Keeps-on_vm : Keeps (on_vm f)
  Keeps-on_vm = λ m. Keeps-context m m.current_forth_vm refl

module _ (f : Vm → ℕ × Vm)
    (same : (v : Vm) → length (f v).1.parse_line_ptr ≤ length v.parse_line_ptr) where
  Keeps-result :
      (m : Machine) (o : Option Vm)
      → m.current_forth_vm ≡ o
      → Ends (line_of o) (elim o as (λ _. Run ℕ) [
        | none ↦ ok 0 m
        | some v ↦ ok (f v).0 (record m { current_forth_vm = some (f v).1 })
      ])
  Keeps-result m none e = omega (arith, ap line_of e)
  Keeps-result m (some v) e = same v

  pub Keeps-from_vm : Keeps (from_vm f)
  Keeps-from_vm = λ m. Keeps-result m m.current_forth_vm refl

-- `*current_forth_vm = f(*current_forth_vm)`
module _ (f : Vm → Vm)
    (same : (v : Vm) → length (f v).parse_line_ptr ≤ length v.parse_line_ptr) where
  Keeps-assigned :
      (m : Machine) (o : Option Vm)
      → m.current_forth_vm ≡ o
      → Ends
          (line_of o)
          (elim (elim o as (λ _. Run Vm) [ none ↦ stop Stop.null_pointer | some v ↦ ok v m ])
            as (λ _. Run (Unit {0})) [ ok v m' ↦ set_vm (f v) m' | stop s ↦ stop s ])
  unfolding set_vm
  Keeps-assigned m none e = null_not_fuel
  Keeps-assigned m (some v) e = same v

  Keeps-update : Keeps (get_vm >>= λ v. set_vm (f v))
  unfolding get_vm
  Keeps-update = λ m. Keeps-assigned m m.current_forth_vm refl

pub Keeps-hw_write32 : (addr val : ℕ) → Keeps (hw_write32 addr val)
unfolding hw_write32
Keeps-hw_write32 addr val = λ m. by_bus m (Bus.hw_write32 addr val m.bus)
  where
    by_bus : (m : Machine) (r : Option Bus) → Ends (line_length m) (on_bus r m)
    by_bus m none = fault_not_fuel
    by_bus m (some b) = omega arith

push-line : (x : ℕ) (v : Vm) → length (Vm.push x v).parse_line_ptr ≤ length v.parse_line_ptr
unfolding Vm.push
push-line x v = ground arith

pop-line : (v : Vm) → length (Vm.pop v).1.parse_line_ptr ≤ length v.parse_line_ptr
unfolding Vm.pop
pop-line v = ground arith

abort-line : (v : Vm) → length (Vm.abort v).parse_line_ptr ≤ length v.parse_line_ptr
unfolding Vm.abort
abort-line v = omega arith

pub Keeps-forth_push : (x : ℕ) → Keeps (forth_push x)
unfolding forth_push
Keeps-forth_push x = Keeps-on_vm (Vm.push x) (push-line x)

pub Keeps-forth_pop : Keeps forth_pop
unfolding forth_pop
Keeps-forth_pop = Keeps-from_vm Vm.pop pop-line

pub Keeps-forth_abort : Keeps forth_abort
unfolding forth_abort
Keeps-forth_abort = Keeps-on_vm Vm.abort abort-line

pub Keeps-set_dict_free_ptr : (p : ℕ) → Keeps (set_dict_free_ptr p)
unfolding set_dict_free_ptr
Keeps-set_dict_free_ptr p = Keeps-update (λ v. record v { dict_free_ptr = p }) (λ v. omega arith)

pub Keeps-compile_token : (xt_id : ℕ) → Keeps (compile_token xt_id)
unfolding compile_token
Keeps-compile_token xt_id = Keeps->>= get_vm _ Keeps-get_vm λ v.
    Keeps->>= (hw_write32 v.dict_free_ptr xt_id) _ (Keeps-hw_write32 v.dict_free_ptr xt_id)
      λ _. Keeps->>= get_vm _ Keeps-get_vm λ v'. Keeps-set_dict_free_ptr _

-- The words that pop two numbers and push one.
pub Keeps-binary : (f : ℕ → ℕ → ℕ) → Keeps (binary f)
Keeps-binary f =
    Keeps->>= forth_pop _ Keeps-forth_pop
      λ b. Keeps->>= forth_pop _ Keeps-forth_pop λ a. Keeps-forth_push (f a b)
