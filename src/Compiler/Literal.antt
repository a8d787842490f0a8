-- ===== src/Compiler/Literal.antt =====
-- A number that is compiled is the number that the threaded code pushes.
use u_forth.Prelude.{ℕ, ◌+◌, ◌<◌, ◌≡◌, ◌^◌, refl, true, some, arith, ap, ◌∙◌}
use u_forth.Bus.Access.{is_word, load}
use u_forth.Vm
use u_forth.Vm.{Vm, ForthState}
use u_forth.Machine.{Machine, ok, ◌>>=◌, ◌>>◌}
use u_forth.Machine.Laws.{with_vm, get_vm_at, push_at, read32_at}
use u_forth.Words.Arith.{add32}
use u_forth.Compiler.{xt_lit, compile_pair, process_number, forth_primitive_lit}
use u_forth.Compiler.Layout.{
  HasSpace, second-is_word, with_pair, load-with_pair_operand, load-with_pair_token,
  compile_pair_at, set_ip_at,
}

-- `LIT` with its instruction pointer at a word of the bus pushes that word and steps over it.
pub lit_at :
    (m : Machine) (v : Vm)
    → m.current_forth_vm ≡ some v
    → is_word v.ip ≡ true
    → forth_primitive_lit m
      ≡ ok tt (
          with_vm m (record (Vm.push (load m.bus v.ip) v) {
            ip = add32 (Vm.push (load m.bus v.ip) v).ip 4;
          }))
unfolding forth_primitive_lit
lit_at m v e w =
    let v' = Vm.push (load m.bus v.ip) v in
    rw
      (
        forth_primitive_lit,
        ◌>>◌,
        ◌>>=◌,
        get_vm_at m e,
        read32_at v.ip m w,
        push_at m e (load m.bus v.ip),
        get_vm_at (with_vm m v') refl,
      )
      (set_ip_at (with_vm m v') refl (add32 v'.ip 4))

ip-push : (x : ℕ) (v : Vm) → (Vm.push x v).ip ≡ v.ip
unfolding Vm.push
ip-push x v = ground arith

pub process_number-compile_pair :
    (m : Machine) (v : Vm) (n : ℕ)
    → m.current_forth_vm ≡ some v
    → v.state ≡ ForthState.compile
    → process_number n m ≡ compile_pair xt_lit n m
unfolding process_number
process_number-compile_pair m v n e s = rw (process_number, ◌>>=◌, get_vm_at m e, s)

-- In compiling mode, with space at the frontier, a number is laid down as LIT and its value: the
-- frontier moves on by 8 bytes. When LIT is then run with the instruction pointer behind its token,
-- from any context, the number is pushed and the pointer comes to the end of the pair.
pub process_number-lit :
    (m : Machine) (v : Vm) (n : ℕ) (w : Vm)
    → m.current_forth_vm ≡ some v
    → v.state ≡ ForthState.compile
    → HasSpace v.dict_free_ptr 8
    → n < 2 ^ 32
    → w.ip ≡ v.dict_free_ptr + 4
    → (m' : Machine) × (process_number n m ≡ ok tt m')
      × (m'.current_forth_vm ≡ some (record v { dict_free_ptr = v.dict_free_ptr + 8 }))
      × (load m'.bus v.dict_free_ptr ≡ xt_lit)
      × (forth_primitive_lit (with_vm m' w)
          ≡ ok tt (with_vm m' (record (Vm.push n w) { ip = v.dict_free_ptr + 8 })))
process_number-lit m v n w running compiling h lt e =
    let p = v.dict_free_ptr in
    let b = with_pair m.bus p xt_lit n in
    let m' : Machine = record m {
      bus = b;
      current_forth_vm = some (record v { dict_free_ptr = p + 8 });
    } in
    let operand : load b w.ip ≡ n = ap (load b) e ∙ load-with_pair_operand m.bus h xt_lit n lt in
    let next : add32 (Vm.push n w).ip 4 ≡ p + 8 = omega (arith, ip-push n w, h.high) in
    (
      m',
      process_number-compile_pair m v n running compiling ∙ compile_pair_at m running h xt_lit n,
      refl,
      load-with_pair_token m.bus h xt_lit n (omega arith),
      lit_at (with_vm m' w) w refl (rw e (second-is_word h)) ∙ (rw (operand, next) refl),
    )
