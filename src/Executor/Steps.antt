-- ===== src/Executor/Steps.antt =====
-- The loop of forth_execute_compiled_xt as a step relation.
use u_forth.Prelude.{
  ℕ, zero, suc, ◌<◌, ◌≡◌, ◌≢◌, ◌↔◌, ◌∙◌, sym, refl, subst, Bool-cases, ◌⊎◌, inl, inr, ap, false,
  ◌==◌, Option-cases, none, some, arith,
}
use u_forth.Vm.{Vm}
use u_forth.Machine.{Machine, Run, Stop, ok, stop, ◌>>=◌, ◌>>◌, get_vm}
use u_forth.Machine.Laws.{get_vm_at}
use u_forth.Outside.{Outside}
use u_forth.Executor.{execute_next, execute_loop}

-- The loop ends here.
abbrev pub Halted : Machine → Type 0
Halted m = (v : Vm) × (m.current_forth_vm ≡ some v) × (v.ip ≡ 0)

-- Another token is taken, and leads from the one machine to the other.
abbrev pub Step : Outside → Machine → Machine → Type 0
Step o m m' = (v : Vm) × (m.current_forth_vm ≡ some v) × (v.ip ≢ 0) × (execute_next o m ≡ ok tt m')

-- So many tokens one after the other.
pub data Steps (o : Outside) : ℕ → Machine → Machine → Type 0 where
  here : (m : Machine) → Steps o 0 m m
  next : {n : ℕ} {m m₁ m' : Machine} → Step o m m₁ → Steps o n m₁ m' → Steps o (suc n) m m'

stop_lem : {r : Run (Unit {0})} {s : Stop} {m : Machine} → r ≡ ok tt m → r ≡ stop s → ⊥
stop_lem e k = cc

Run-cases : (r : Run (Unit {0})) → ((s : Stop) × (r ≡ stop s)) ⊎ ((m : Machine) × (r ≡ ok tt m))
Run-cases (ok u m) = inr (m, refl)
Run-cases (stop s) = inl (s, refl)

ok_machine : {m m' : Machine} → ok tt m ≡ ok tt m' → m ≡ m'
ok_machine {m} e = ap machine_of e
  where
    machine_of : Run (Unit {0}) → Machine
    machine_of (ok u m') = m'
    machine_of (stop s) = m

get_vm-none : (m : Machine) → m.current_forth_vm ≡ none → get_vm m ≡ stop Stop.null_pointer
unfolding get_vm
get_vm-none m e = rw e

module _ (o : Outside) where
  module _ (fuel : ℕ) (m : Machine) where
    loop-Halted : Halted m → execute_loop (suc fuel) o m ≡ ok tt m
    unfolding execute_loop
    loop-Halted (v, e, z) = rw (execute_loop, ◌>>=◌, get_vm_at m e, z) refl

    loop-Step : (m₁ : Machine) → Step o m m₁ → execute_loop (suc fuel) o m ≡ execute_loop fuel o m₁
    unfolding execute_loop
    loop-Step m₁ (v, e, z, s) =
        let other : (v.ip == 0) ≡ false = ground arith in
        rw (execute_loop, ◌>>=◌, get_vm_at m e, other, ◌>>◌, s) refl

  loop-Steps :
      (fuel n : ℕ) {m m' : Machine}
      → n < fuel
      → Steps o n m m'
      → Halted m'
      → execute_loop fuel o m ≡ ok tt m'
  loop-Steps zero n lt steps h = absurd (omega arith)
  loop-Steps (suc fuel) zero lt (here m) h = loop-Halted fuel m h
  loop-Steps (suc fuel) (suc n) {m = m} lt (next {m₁ = m₁} s rest) h =
      loop-Step fuel m m₁ s ∙ loop-Steps fuel n (omega arith) rest h

  Steps-loop :
      (fuel : ℕ) (m m' : Machine)
      → execute_loop fuel o m ≡ ok tt m'
      → (n : ℕ) × (n < fuel) × Steps o n m m' × Halted m'
  unfolding execute_loop
  Steps-loop zero m m' h = absurd (stop_lem h refl)
  Steps-loop (suc fuel) m m' h = elim (Option-cases m.current_forth_vm) [
    | inl e ↦
        absurd (stop_lem {s = Stop.null_pointer} h (rw (execute_loop, ◌>>=◌, get_vm-none m e) refl))
    | inr (v, e) ↦ elim (Bool-cases (v.ip == 0)) [
      | inl end ↦
          let at : v.ip ≡ 0 = ground arith in
          let same : m ≡ m' = ok_machine (sym (loop-Halted fuel m (v, e, at)) ∙ h) in
          (0, omega arith, subst (Steps o 0 m) same (here m), subst Halted same (v, e, at))
      | inr other ↦ elim (Run-cases (execute_next o m)) [
        | inl (s, k) ↦
            absurd
              (stop_lem {s = s} h (rw (execute_loop, ◌>>=◌, get_vm_at m e, other, ◌>>◌, k) refl))
        | inr (m₁, k) ↦
            let (n, lt, steps, end) =
              Steps-loop fuel m₁ m'
                (rw (execute_loop, ◌>>=◌, get_vm_at m e, other, ◌>>◌, k) at h) in
            (suc n, omega (arith, lt), next (v, e, ground arith, k) steps, end)
      ]
    ]
  ]

-- The loop returns a machine exactly if fewer tokens than the fuel, taken one after the other where the
-- instruction pointer is not 0, lead to that machine and the pointer is 0 there.
pub execute_loop-Steps :
    (fuel : ℕ) (o : Outside) (m m' : Machine)
    → (execute_loop fuel o m ≡ ok tt m') ↔ ((n : ℕ) × (n < fuel) × Steps o n m m' × Halted m')
execute_loop-Steps fuel o m m' =
    (Steps-loop o fuel m m', λ (n, lt, steps, end). loop-Steps o fuel n lt steps end)
