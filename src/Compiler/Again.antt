-- ===== src/Compiler/Again.antt =====
-- AGAIN writes over the token that it has compiled.
use u_forth.Prelude.{◌+◌, ◌≡◌, ◌≢◌, refl, some, arith}
use u_forth.Bus.Access.{load, store}
use u_forth.Bus.Words.{load-store_self}
use u_forth.Vm
use u_forth.Vm.{Vm}
use u_forth.Machine.{Machine, ok, ◌>>=◌, ◌>>◌}
use u_forth.Machine.Laws.{with_vm, with_bus, get_vm_at, r_pop_at, write32_at}
use u_forth.Words.Arith.{sub32}
use u_forth.Compiler.{xt_branch, forth_cmd_again}
use u_forth.Compiler.Layout.{HasSpace, first-is_word, second-is_word, add32-four, add32-eight}

dict_free_ptr-r_pop : (v : Vm) → (Vm.r_pop v).1.dict_free_ptr ≡ v.dict_free_ptr
unfolding Vm.r_pop
dict_free_ptr-r_pop v = ground arith

-- With space at the frontier, AGAIN leaves the frontier where it was, and the word there is the
-- address 8 bytes further on: the token BRANCH that it wrote first is gone.
again_overwrites :
    (m : Machine) (v : Vm)
    → m.current_forth_vm ≡ some v
    → HasSpace v.dict_free_ptr 8
    → (m' : Machine) × (forth_cmd_again m ≡ ok tt m')
      × (m'.current_forth_vm ≡ some (Vm.r_pop v).1)
      × ((Vm.r_pop v).1.dict_free_ptr ≡ v.dict_free_ptr)
      × (load m'.bus v.dict_free_ptr ≡ v.dict_free_ptr + 8)
      × (load m'.bus v.dict_free_ptr ≢ xt_branch)
unfolding forth_cmd_again
again_overwrites m v running h =
    let p = v.dict_free_ptr in
    let (begin_addr, v') = Vm.r_pop v in
    let m₀ = with_vm m v' in
    let m₁ = with_bus m₀ (store m.bus p xt_branch) in
    let m₂ = with_bus m₀ (store m₁.bus (p + 4) (sub32 begin_addr (p + 4))) in
    let m₃ = with_bus m₀ (store m₂.bus p (p + 8)) in
    let last : load m₃.bus p ≡ p + 8 = load-store_self m₂.bus p (p + 8) (omega (arith, h.high)) in
    (
      m₃,
      rw
          (
            forth_cmd_again,
            ◌>>◌,
            ◌>>=◌,
            get_vm_at m running,
            r_pop_at m running,
            write32_at p m₀ xt_branch (first-is_word h),
            add32-four h,
            write32_at (p + 4) m₁ (sub32 begin_addr (p + 4)) (second-is_word h),
            get_vm_at m₂ refl,
            dict_free_ptr-r_pop v,
            add32-eight h,
          )
          (write32_at p m₂ (p + 8) (first-is_word h)),
      refl,
      dict_free_ptr-r_pop v,
      last,
      omega (arith, last, h.low),
    )
