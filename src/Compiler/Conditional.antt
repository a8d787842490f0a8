-- ===== src/Compiler/Conditional.antt =====
-- IF, ELSE and THEN: where the compiled jumps lead.
use u_forth.Prelude.{ℕ, ◌+◌, ◌<◌, ◌≡◌, ◌≢◌, ◌^◌, refl, true, some, arith, ap, ◌∙◌}
use u_forth.Bus.Access.{is_word, load, store}
use u_forth.Bus.Words.{load-store_self}
use u_forth.Vm
use u_forth.Vm.{Vm}
use u_forth.Machine.{Machine, Action, ok, ◌>>=◌, ◌>>◌, hw_read32}
use u_forth.Machine.Laws.{
  with_vm, with_bus, get_vm_at, r_push_at, r_pop_at, if_vm_at, read32_at, write32_at,
}
use u_forth.Words.Arith.{add32, sub32}
use u_forth.Compiler.{
  xt_0branch, forth_cmd_if, forth_cmd_then, forth_primitive_branch, forth_primitive_0branch,
}
use u_forth.Compiler.Layout.{
  HasSpace, first-is_word, second-is_word, add32-four, add32-eight, with_pair, set_ip_at,
  set_dict_free_ptr_at,
}
use u_forth.Compiler.Loops.{zero_branch_at, ip-pop}

pub after_then : Machine → Vm → Machine
after_then m v = record m {
  bus = store m.bus (Vm.r_pop v).0 (sub32 v.dict_free_ptr (Vm.r_pop v).0);
  current_forth_vm = some (Vm.r_pop v).1;
}

then_at :
    (m : Machine) (v : Vm)
    → m.current_forth_vm ≡ some v
    → is_word (Vm.r_pop v).0 ≡ true
    → forth_cmd_then m ≡ ok tt (after_then m v)
unfolding forth_cmd_then after_then
then_at m v e w =
    let (patch, v') = Vm.r_pop v in
    if_vm_at m e _
    ∙ (rw (◌>>=◌, get_vm_at m e, r_pop_at m e)
        (write32_at patch (with_vm m v') (sub32 v.dict_free_ptr patch) w))

branch_at :
    (m : Machine) (v : Vm)
    → m.current_forth_vm ≡ some v
    → is_word v.ip ≡ true
    → forth_primitive_branch m ≡ ok tt (with_vm m (record v { ip = add32 v.ip (load m.bus v.ip) }))
unfolding forth_primitive_branch
branch_at m v e w =
    rw (forth_primitive_branch, ◌>>=◌, get_vm_at m e, read32_at v.ip m w)
      (set_ip_at m e (add32 v.ip (load m.bus v.ip)))

module _ (m : Machine) (v w : Vm) (running : m.current_forth_vm ≡ some v)
    (at_word : is_word (Vm.r_pop v).0 ≡ true) (fits : v.dict_free_ptr < 2 ^ 32) where
  load-after_then : load (after_then m v).bus (Vm.r_pop v).0 ≡ sub32 v.dict_free_ptr (Vm.r_pop v).0
  unfolding after_then
  load-after_then = load-store_self m.bus (Vm.r_pop v).0 _ (omega arith)

  patch-pos : (a : ℕ) → is_word a ≡ true → (0 < a) × (a < 2 ^ 32)
  patch-pos a h = ground arith

  -- THEN writes the distance from the cell that ELSE left open to the frontier. BRANCH, run with its
  -- instruction pointer at that cell, jumps to where the frontier stood at THEN.
  then-branch :
      w.ip ≡ (Vm.r_pop v).0
      → (m' : Machine) × (forth_cmd_then m ≡ ok tt m')
        × (forth_primitive_branch (with_vm m' w)
            ≡ ok tt (with_vm m' (record w { ip = v.dict_free_ptr })))
  then-branch e =
      let patch = (Vm.r_pop v).0 in
      let m' = after_then m v in
      let offset : load m'.bus w.ip ≡ sub32 v.dict_free_ptr patch =
        ap (load m'.bus) e ∙ load-after_then in
      let target : add32 w.ip (load m'.bus w.ip) ≡ v.dict_free_ptr =
        omega (arith, offset, (patch-pos patch at_word).1) in
      (
        m',
        then_at m v running at_word,
        branch_at (with_vm m' w) w refl (rw e at_word)
            ∙ ap (λ t. ok tt (with_vm m' (record w { ip = t }))) target,
      )

  -- 0BRANCH takes the same distance, which THEN also writes for an IF with no ELSE, for an address:
  -- with a flag of 0 it sets the instruction pointer to the distance, which is never the address at
  -- which THEN stood.
  pub then-zero_branch :
      (read : ℕ → Action ℕ)
      → ((a : ℕ) (m : Machine) → read a m ≡ hw_read32 a m)
      → w.ip ≡ (Vm.r_pop v).0
      → (Vm.pop w).0 ≡ 0
      → (m' : Machine) × (forth_cmd_then m ≡ ok tt m')
        × (forth_primitive_0branch read (with_vm m' w)
            ≡ ok tt
                (with_vm m' (record (Vm.pop w).1 { ip = sub32 v.dict_free_ptr (Vm.r_pop v).0 })))
        × (sub32 v.dict_free_ptr (Vm.r_pop v).0 ≢ v.dict_free_ptr)
  then-zero_branch read is_read e z =
      let patch = (Vm.r_pop v).0 in
      let m' = after_then m v in
      let at : (Vm.pop w).1.ip ≡ patch = ip-pop w ∙ e in
      let offset : load m'.bus (Vm.pop w).1.ip ≡ sub32 v.dict_free_ptr patch =
        ap (load m'.bus) at ∙ load-after_then in
      (
        m',
        then_at m v running at_word,
        zero_branch_at read (with_vm m' w) w is_read refl (rw at at_word) ∙ (rw (z, offset) refl),
        omega (arith, patch-pos patch at_word),
      )

module _ (m : Machine) {v : Vm} (running : m.current_forth_vm ≡ some v)
    (h : HasSpace v.dict_free_ptr 8) where
  -- IF lays down 0BRANCH with an open cell, pushes the address of that cell on the return stack and
  -- moves the frontier on by 8 bytes.
  if_at :
      forth_cmd_if m
      ≡ ok tt (record m {
        bus = with_pair m.bus v.dict_free_ptr xt_0branch 0;
        current_forth_vm =
            some
              (record (Vm.r_push (v.dict_free_ptr + 4) v) { dict_free_ptr = v.dict_free_ptr + 8 });
      })
  unfolding forth_cmd_if with_pair
  if_at =
      let p = v.dict_free_ptr in
      let m₁ = with_bus m (store m.bus p xt_0branch) in
      let m₂ = with_bus m (store m₁.bus (p + 4) 0) in
      if_vm_at m running _
      ∙ (rw
          (
            ◌>>◌,
            ◌>>=◌,
            get_vm_at m running,
            write32_at p m xt_0branch (first-is_word h),
            add32-four h,
            write32_at (p + 4) m₁ 0 (second-is_word h),
            add32-four h,
            r_push_at m₂ running (p + 4),
            add32-eight h,
          )
          (set_dict_free_ptr_at (with_vm m₂ (Vm.r_push (p + 4) v)) refl (p + 8)))
