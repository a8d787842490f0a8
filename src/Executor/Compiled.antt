-- ===== src/Executor/Compiled.antt =====
-- forth_execute_compiled_xt on what the compiler lays down for numbers and ;.
use u_forth.Prelude.{
  ℕ, suc, ◌+◌, ◌*◌, ◌<◌, ◌≡◌, ◌⊎◌, inl, inr, Bool-cases, leb, ◌∙◌, refl, some, List, [], ◌∷◌,
  length, arith,
}
use u_forth.Vm
use u_forth.Vm.{Vm, ForthState}
use u_forth.Machine.{Machine, ok, ◌>>=◌, ◌>>◌, set_vm}
use u_forth.Machine.Laws.{with_vm, get_vm_at}
use u_forth.Outside.{Outside}
use u_forth.Executor.{forth_execute_compiled_xt, execute_loop}
use u_forth.Executor.Steps.{execute_loop-Steps}
use u_forth.Executor.Literals.{r_pop-push, push_all, Executes, Fits, numbers_run}
use u_forth.Executor.Layout.{
  compile_literals, compiled, AllWords, compiled-Holds, compile_literals_at,
}

execute_at :
    (o : Outside) (fuel xt_address : ℕ) (m m' : Machine) (v w : Vm)
    → m.current_forth_vm ≡ some v
    → m'.current_forth_vm ≡ some w
    → execute_loop fuel o (with_vm m (record v { state = ForthState.runtime; ip = xt_address }))
      ≡ ok tt m'
    → forth_execute_compiled_xt fuel o xt_address m
      ≡ ok tt (with_vm m' (record w { state = v.state; ip = v.ip }))
unfolding forth_execute_compiled_xt set_vm
execute_at o fuel xt_address m m' v w running ended h =
    rw (forth_execute_compiled_xt, ◌>>◌, ◌>>=◌, get_vm_at m running, h, get_vm_at m' ended) refl

-- The context when `forth_execute_compiled_xt` starts on the numbers.
abbrev pub at_start : List ℕ → Vm → Vm
at_start ns v = record v {
  dict_free_ptr = v.dict_free_ptr + (8 * length ns + 4);
  state = ForthState.runtime;
}

r_pop-push_all : (ns : List ℕ) (v : Vm) → (Vm.r_pop v).0 ≡ 0 → (Vm.r_pop (push_all ns v)).0 ≡ 0
r_pop-push_all [] v h = h
r_pop-push_all (n ∷ ns) v h = r_pop-push_all ns (Vm.push n v) (r_pop-push n v h)

r_pop-state :
    (v : Vm) (s : ForthState) (p : ℕ)
    → (Vm.r_pop (record v { dict_free_ptr = p; state = s })).0 ≡ (Vm.r_pop v).0
unfolding Vm.r_pop Vm.abort
r_pop-state v s p = ground arith

-- Numbers below 2^32 that the compiler lays down, where they and EXIT have space at the frontier, and ;
-- behind them: forth_execute_compiled_xt at the first one pushes them in their order, then pops a
-- return address, which is asked to be 0, and returns with the mode and the instruction pointer that
-- it found. It takes fuel for the numbers, EXIT and the end of the loop. The call reads a word as the
-- bus does and finds the handler of EXIT by its token.
pub compile_literals-execute :
    (o : Outside) (ns : List ℕ) (m : Machine) (v : Vm) (fuel : ℕ)
    → Executes o
    → m.current_forth_vm ≡ some v
    → v.state ≡ ForthState.compile
    → Fits v.dict_free_ptr ns
    → AllWords ns
    → (Vm.r_pop v).0 ≡ 0
    → suc (length ns) < fuel
    → (m' : Machine) × (compile_literals ns m ≡ ok tt m')
      × (forth_execute_compiled_xt fuel o v.dict_free_ptr m'
          ≡ ok tt (
              with_vm m' (record (Vm.r_pop (push_all ns (at_start ns v))).1 {
                state = ForthState.repl;
                ip = v.ip;
              })))
compile_literals-execute o ns m v fuel ex running s fits lt h enough =
    let p = v.dict_free_ptr in
    let b = compiled m.bus p ns in
    let v' = record v { dict_free_ptr = p + (8 * length ns + 4); state = ForthState.repl } in
    let m' : Machine = record m { bus = b; current_forth_vm = some v' } in
    let w = at_start ns v in
    let started = with_vm m' (record w { ip = p }) in
    let zero_ip =
      r_pop-push_all ns w (r_pop-state v ForthState.runtime (p + (8 * length ns + 4)) ∙ h) in
    let steps = numbers_run o ex ns started w p refl fits (compiled-Holds m.bus p ns fits lt) in
    let ended =
      (execute_loop-Steps fuel o started _).1
        (suc (length ns), enough, steps, (_, refl, zero_ip)) in
    (m', compile_literals_at ns m v running s fits, execute_at o fuel p m' _ v' _ refl refl ended)

-- Nothing to return to: the return stack is empty, and so is the data stack once there was an abort.
abbrev Unreturned : Vm → Type 0
Unreturned v = (v.rp ≡ 0) × ((v.abort_flag ≡ 0) ⊎ ((v.abort_flag ≡ 1) × (v.sp ≡ 0)))

Unreturned-push : (n : ℕ) (v : Vm) → Unreturned v → Unreturned (Vm.push n v)
unfolding Vm.push Vm.abort
Unreturned-push n v (r, inl a) = elim (Bool-cases (leb Vm.stack_cells v.sp)) [
  | inl full ↦ (ground arith, inr (ground arith, ground arith))
  | inr room ↦ (ground arith, inl (ground arith))
]
Unreturned-push n v (r, inr (a, s)) = (ground arith, inr (ground arith, ground arith))

Unreturned-push_all : (ns : List ℕ) (v : Vm) → Unreturned v → Unreturned (push_all ns v)
Unreturned-push_all [] v h = h
Unreturned-push_all (n ∷ ns) v h = Unreturned-push_all ns (Vm.push n v) (Unreturned-push n v h)

Unreturned-r_pop :
    (v : Vm) → Unreturned v → ((Vm.r_pop v).1.abort_flag ≡ 1) × ((Vm.r_pop v).1.sp ≡ 0)
unfolding Vm.r_pop Vm.abort
Unreturned-r_pop v (r, inl a) = (ground arith, ground arith)
Unreturned-r_pop v (r, inr (a, s)) = (ground arith, ground arith)

-- With an empty return stack and no abort before, the same numbers always end in an abort with the data
-- stack empty, whatever they are: no call puts a return address there for EXIT.
pub compile_literals-aborts :
    (o : Outside) (ns : List ℕ) (m : Machine) (v : Vm) (fuel : ℕ)
    → Executes o
    → m.current_forth_vm ≡ some v
    → v.state ≡ ForthState.compile
    → Fits v.dict_free_ptr ns
    → AllWords ns
    → v.rp ≡ 0
    → v.abort_flag ≡ 0
    → suc (length ns) < fuel
    → (m' m'' : Machine) × (w : Vm) × (compile_literals ns m ≡ ok tt m')
      × (forth_execute_compiled_xt fuel o v.dict_free_ptr m' ≡ ok tt m'')
      × (m''.current_forth_vm ≡ some w)
      × (w.abort_flag ≡ 1)
      × (w.sp ≡ 0)
unfolding Vm.r_pop
compile_literals-aborts o ns m v fuel ex running s fits lt r a enough =
    let (m', compiles, executes) =
      compile_literals-execute o ns m v fuel ex running s fits lt (ground arith) enough in
    let (flag, empty) =
      Unreturned-r_pop (push_all ns (at_start ns v))
        (Unreturned-push_all ns (at_start ns v) (r, inl a)) in
    (m', _, _, compiles, executes, refl, flag, empty)
