-- ===== src/Compiler/Loops.antt =====
-- BEGIN and UNTIL: the jump that is compiled goes back to where BEGIN stood.
use u_forth.Prelude.{
  ℕ, ◌+◌, ◌<◌, ◌≡◌, ◌^◌, refl, true, inl, inr, Bool-cases, some, arith, ap, ◌∙◌, ◌==◌,
  if◌then◌else◌,
}
use u_forth.Bus.Access.{is_word, load}
use u_forth.Vm
use u_forth.Vm.{Vm, ForthState}
use u_forth.Machine.{Machine, Action, ok, ◌>>=◌, hw_read32}
use u_forth.Machine.Laws.{with_vm, get_vm_at, push_at, pop_at, read32_at}
use u_forth.Words.Arith.{add32}
use u_forth.Compiler.{
  xt_0branch, compile_pair, forth_cmd_begin, forth_cmd_until, forth_primitive_0branch,
}
use u_forth.Compiler.Layout.{
  HasSpace, second-is_word, with_pair, load-with_pair_operand, load-with_pair_token,
  compile_pair_at, set_ip_at, is_compile_at,
}

-- `0BRANCH` at a word of the bus: what it does to the instruction pointer.
pub zero_branch_at :
    (read : ℕ → Action ℕ) (m : Machine) (v : Vm)
    → ((a : ℕ) (m : Machine) → read a m ≡ hw_read32 a m)
    → m.current_forth_vm ≡ some v
    → is_word (Vm.pop v).1.ip ≡ true
    → forth_primitive_0branch read m
      ≡ ok tt (
          with_vm m (record (Vm.pop v).1 {
            ip = if (Vm.pop v).0 == 0 then load m.bus (Vm.pop v).1.ip else add32 (Vm.pop v).1.ip 4;
          }))
unfolding forth_primitive_0branch
zero_branch_at read m v is_read e w =
    let v' = (Vm.pop v).1 in
    rw
      (
        forth_primitive_0branch,
        ◌>>=◌,
        pop_at m e,
        get_vm_at (with_vm m v') refl,
        is_read v'.ip (with_vm m v'),
        read32_at v'.ip (with_vm m v') w,
      )
      (elim (Bool-cases ((Vm.pop v).0 == 0)) [
        | inl z ↦ rw z (set_ip_at (with_vm m v') refl (load m.bus v'.ip))
        | inr nz ↦ rw nz (set_ip_at (with_vm m v') refl (add32 v'.ip 4))
      ])

pub ip-pop : (v : Vm) → (Vm.pop v).1.ip ≡ v.ip
unfolding Vm.pop
ip-pop v = ground arith

until-compile_pair :
    (m : Machine) (v : Vm)
    → m.current_forth_vm ≡ some v
    → v.state ≡ ForthState.compile
    → forth_cmd_until m ≡ compile_pair xt_0branch (Vm.pop v).0 (with_vm m (Vm.pop v).1)
unfolding forth_cmd_until
until-compile_pair m v e s = rw (forth_cmd_until, ◌>>=◌, get_vm_at m e, is_compile_at s, pop_at m e)

begin-push :
    (m : Machine) (v : Vm)
    → m.current_forth_vm ≡ some v
    → v.state ≡ ForthState.compile
    → forth_cmd_begin m ≡ ok tt (with_vm m (Vm.push v.dict_free_ptr v))
unfolding forth_cmd_begin
begin-push m v e s =
    rw (forth_cmd_begin, ◌>>=◌, get_vm_at m e, is_compile_at s) (push_at m e v.dict_free_ptr)

-- In compiling mode, with the address that BEGIN left on top of the data stack and space at the
-- frontier, UNTIL lays down 0BRANCH and that address. When 0BRANCH is then run with the instruction
-- pointer behind its token, a flag of 0 sets the pointer to that address and any other flag to the
-- end of the pair.
pub until-zero_branch :
    (read : ℕ → Action ℕ) (m : Machine) (v : Vm) (w : Vm)
    → ((a : ℕ) (m : Machine) → read a m ≡ hw_read32 a m)
    → m.current_forth_vm ≡ some v
    → v.state ≡ ForthState.compile
    → HasSpace (Vm.pop v).1.dict_free_ptr 8
    → (Vm.pop v).0 < 2 ^ 32
    → w.ip ≡ (Vm.pop v).1.dict_free_ptr + 4
    → (m' : Machine) × (forth_cmd_until m ≡ ok tt m')
      × (load m'.bus (Vm.pop v).1.dict_free_ptr ≡ xt_0branch)
      × (forth_primitive_0branch read (with_vm m' w)
          ≡ ok tt (
              with_vm m' (record (Vm.pop w).1 {
                ip = if (Vm.pop w).0 == 0 then (Vm.pop v).0 else (Vm.pop v).1.dict_free_ptr + 8;
              })))
until-zero_branch read m v w is_read running compiling h lt e =
    let (target, v') = Vm.pop v in
    let p = v'.dict_free_ptr in
    let b = with_pair m.bus p xt_0branch target in
    let m' : Machine = record m {
      bus = b;
      current_forth_vm = some (record v' { dict_free_ptr = p + 8 });
    } in
    let at : (Vm.pop w).1.ip ≡ p + 4 = ip-pop w ∙ e in
    let operand : load b (Vm.pop w).1.ip ≡ target =
      ap (load b) at ∙ load-with_pair_operand m.bus h xt_0branch target lt in
    let next : add32 (Vm.pop w).1.ip 4 ≡ p + 8 = omega (arith, at, h.high) in
    (
      m',
      until-compile_pair m v running compiling
          ∙ compile_pair_at (with_vm m v') refl h xt_0branch target,
      load-with_pair_token m.bus h xt_0branch target (omega arith),
      zero_branch_at read (with_vm m' w) w is_read refl (rw at (second-is_word h))
          ∙ (rw (operand, next) refl),
    )
