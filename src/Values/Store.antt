-- ===== src/Values/Store.antt =====
-- (TO) and the value that is read afterwards.
use u_forth.Prelude.{ℕ, ◌<◌, ◌^◌, ◌≡◌, true, some, refl, ap, ◌∙◌, ◌==◌}
use u_forth.Bus.Access.{is_word, load, store}
use u_forth.Bus.Words.{load-store_self}
use u_forth.Vm
use u_forth.Vm.{Vm}
use u_forth.Machine.{Machine, ok, ◌>>=◌, ◌>>◌}
use u_forth.Machine.Laws.{
  with_vm, with_bus, read32_at, write32_at, get_vm_at, push_at, pop_at, r_pop_at,
}
use u_forth.Words.Arith.{add32}
use u_forth.Compiler.Layout.{set_ip_at}
use u_forth.Values.{forth_primitive_p_value, forth_primitive_p_to}

-- The context after the word of a value whose cell holds `x`: `x` is pushed, and the instruction
-- pointer comes from the return stack.
pub after_value : Vm → ℕ → Vm
after_value w x = let (saved_ip, w') = Vm.r_pop (Vm.push x w) in record w' { ip = saved_ip }

p_value_at :
    (m : Machine) (w : Vm)
    → m.current_forth_vm ≡ some w
    → is_word w.ip ≡ true
    → forth_primitive_p_value m ≡ ok tt (with_vm m (after_value w (load m.bus w.ip)))
unfolding forth_primitive_p_value after_value
p_value_at m w e at_word =
    let x = load m.bus w.ip in
    let m₁ = with_vm m (Vm.push x w) in
    rw
      (
        forth_primitive_p_value,
        ◌>>◌,
        ◌>>=◌,
        get_vm_at m e,
        read32_at w.ip m at_word,
        push_at m e x,
        r_pop_at m₁ refl,
      )
      (set_ip_at (with_vm m (Vm.r_pop (Vm.push x w)).1) refl (Vm.r_pop (Vm.push x w)).0)

-- (TO) stores the number on top of the data stack in the cell behind the token of the word that its
-- own cell names, if that pop does not leave the context aborted and both cells are words of the bus;
-- it steps over its own cell. When the value's word is then run at its cell, from any context, that
-- number is pushed and the word returns.
pub p_to-p_value :
    (m : Machine) (v w : Vm)
    → m.current_forth_vm ≡ some v
    → is_word v.ip ≡ true
    → is_word (add32 (load m.bus v.ip) 4) ≡ true
    → ((Vm.pop v).1.abort_flag == 0) ≡ true
    → (Vm.pop v).0 < 2 ^ 32
    → w.ip ≡ add32 (load m.bus v.ip) 4
    → (m' : Machine) × (forth_primitive_p_to m ≡ ok tt m')
      × (m'.current_forth_vm ≡ some (record (Vm.pop v).1 { ip = add32 v.ip 4 }))
      × (forth_primitive_p_value (with_vm m' w) ≡ ok tt (with_vm m' (after_value w (Vm.pop v).0)))
unfolding forth_primitive_p_to
p_to-p_value m v w e at_word target_word live fits at =
    let cell = add32 (load m.bus v.ip) 4 in
    let (x, v') = Vm.pop v in
    let m₁ = with_vm m v' in
    let m₂ = with_bus m₁ (store m.bus cell x) in
    let m' = with_vm m₂ (record v' { ip = add32 v.ip 4 }) in
    let stored : load m'.bus w.ip ≡ x = rw at (load-store_self m.bus cell x fits) in
    (
      m',
      rw
          (
            forth_primitive_p_to,
            ◌>>◌,
            ◌>>=◌,
            get_vm_at m e,
            read32_at v.ip m at_word,
            pop_at m e,
            get_vm_at m₁ refl,
            live,
            write32_at cell m₁ x target_word,
          )
          (set_ip_at m₂ refl (add32 v.ip 4)),
      refl,
      p_value_at (with_vm m' w) w refl (rw at target_word)
          ∙ ap (λ n. ok tt (with_vm m' (after_value w n))) stored,
    )
