-- ===== src/Executor/Literals.antt =====
-- Numbers that the compiler lays down, and the loop that runs them.
use u_forth.Prelude.{
  ℕ, suc, ◌+◌, ◌*◌, ◌≡◌, ◌≢◌, ◌∙◌, refl, true, some, List, [], ◌∷◌, length, arith,
}
use u_forth.Bus.{Bus}
use u_forth.Bus.Access.{is_word, load}
use u_forth.Vm
use u_forth.Vm.{Vm, ForthState}
use u_forth.Machine.{Machine, ok, ◌>>=◌, ◌>>◌, hw_read32}
use u_forth.Machine.Laws.{with_vm, get_vm_at, read32_at, r_pop_at}
use u_forth.Outside.{Outside}
use u_forth.Words.Arith.{add32}
use u_forth.Compiler.{xt_lit, xt_exit, forth_primitive_exit}
use u_forth.Compiler.Layout.{HasSpace, second-is_word, add32-four, set_ip_at}
use u_forth.Compiler.Literal.{lit_at}
use u_forth.Executor.{execute_next, execute_native_id, execute_public, kernel_primitive_handlers}
use u_forth.Executor.Steps.{Step, Steps, next}

-- The numbers as literals from `p` on, and EXIT behind them.
abbrev pub Holds : Bus → ℕ → List ℕ → Type 0
Holds b p [] = load b p ≡ xt_exit
Holds b p (n ∷ ns) = (load b p ≡ xt_lit) × (load b (p + 4) ≡ n) × Holds b (p + 8) ns

-- The numbers pushed one after the other.
abbrev pub push_all : List ℕ → Vm → Vm
push_all [] v = v
push_all (n ∷ ns) v = push_all ns (Vm.push n v)

-- What the executor asks of the functions it calls: the read of a word, and the handler of EXIT.
abbrev pub Executes : Outside → Type 0
Executes o =
    ((a : ℕ) (m : Machine) → o.hw_spi_ram_read32 a m ≡ hw_read32 a m)
    × (o.get_public_handler_by_id xt_exit ≡ some forth_primitive_exit)

push-ip : (n q : ℕ) (v : Vm) → Vm.push n (record v { ip = q }) ≡ record (Vm.push n v) { ip = q }
unfolding Vm.push
push-ip n q v = ground arith

pub r_pop-push : (n : ℕ) (v : Vm) → (Vm.r_pop v).0 ≡ 0 → (Vm.r_pop (Vm.push n v)).0 ≡ 0
unfolding Vm.push Vm.r_pop Vm.abort
r_pop-push n v h = ground arith

r_pop-ip : (q : ℕ) (v : Vm) → (Vm.r_pop (record v { ip = q })).1 ≡ record (Vm.r_pop v).1 { ip = q }
unfolding Vm.r_pop Vm.abort
r_pop-ip q v = ground arith

r_pop_ip : (q : ℕ) (v : Vm) → (Vm.r_pop (record v { ip = q })).0 ≡ (Vm.r_pop v).0
unfolding Vm.r_pop Vm.abort
r_pop_ip q v = ground arith

module _ (o : Outside) (ex : Executes o) (m : Machine) (v : Vm) (p : ℕ)
    (running : m.current_forth_vm ≡ some (record v { ip = p })) (word : is_word p ≡ true) where
  exit-native : execute_native_id o xt_exit ≡ forth_primitive_exit
  unfolding execute_native_id execute_public
  exit-native = rw (execute_native_id, execute_public, ex.1) refl

  -- The token at `p` is taken.
  next_at :
      execute_next o m
      ≡ execute_native_id o (load m.bus p) (with_vm m (record v { ip = add32 p 4 }))
  unfolding execute_next
  next_at =
      rw
        (
          execute_next,
          ◌>>◌,
          ◌>>=◌,
          get_vm_at m running,
          ex.0 p m,
          read32_at p m word,
          set_ip_at m running (add32 p 4),
        )
        refl

  exit_at :
      load m.bus p ≡ xt_exit
      → execute_next o m ≡ ok tt (with_vm m (record (Vm.r_pop v).1 { ip = (Vm.r_pop v).0 }))
  unfolding forth_primitive_exit
  exit_at h =
      let v' = record v { ip = add32 p 4 } in
      let m' = with_vm m v' in
      next_at
      ∙ (rw
          (
            h,
            exit-native,
            forth_primitive_exit,
            ◌>>=◌,
            r_pop_at m' refl,
            r_pop_ip (add32 p 4) v,
            r_pop-ip (add32 p 4) v,
          )
          (set_ip_at (with_vm m (record (Vm.r_pop v).1 { ip = add32 p 4 })) refl (Vm.r_pop v).0))

  literal_at :
      (n : ℕ)
      → is_word (p + 4) ≡ true
      → add32 p 4 ≡ p + 4
      → add32 (p + 4) 4 ≡ p + 8
      → load m.bus p ≡ xt_lit
      → load m.bus (p + 4) ≡ n
      → execute_next o m ≡ ok tt (with_vm m (record (Vm.push n v) { ip = p + 8 }))
  unfolding execute_native_id kernel_primitive_handlers
  literal_at n word' four eight h k =
      let v' = record v { ip = p + 4 } in
      let m' = with_vm m v' in
      next_at
      ∙ (rw (h, four) (lit_at m' v' refl word' ∙ (rw k rw (push-ip n (p + 4) v, eight) refl)))

  Step-of : (m' : Machine) → p ≢ 0 → execute_next o m ≡ ok tt m' → Step o m m'
  Step-of m' other e = (record v { ip = p }, running, other, e)

-- Room for the numbers and EXIT.
abbrev pub Fits : ℕ → List ℕ → Type 0
Fits p ns = HasSpace p (8 * length ns + 4)

pub Fits-rest : (p n : ℕ) (ns : List ℕ) → Fits p (n ∷ ns) → Fits (p + 8) ns
Fits-rest p n ns h = record {
  low = omega (arith, h.low);
  high = omega (arith, h.high);
  aligned = omega (arith, h.aligned);
}

pub Fits-is_word : (p : ℕ) (ns : List ℕ) → Fits p ns → is_word p ≡ true
Fits-is_word p ns h = ground (arith, h.low, h.high, h.aligned)

pub Fits-pair : (p n : ℕ) (ns : List ℕ) → Fits p (n ∷ ns) → HasSpace p 8
Fits-pair p n ns h = record { low = h.low; high = omega (arith, h.high); aligned = h.aligned }

-- Running the numbers from `p` on.
pub numbers_run :
    (o : Outside)
    → Executes o
    → (ns : List ℕ) (m : Machine) (v : Vm) (p : ℕ) → m.current_forth_vm ≡ some (record v { ip = p })
    → Fits p ns
    → Holds m.bus p ns
    → Steps o
        (suc (length ns))
        m
        (with_vm m (record (Vm.r_pop (push_all ns v)).1 { ip = (Vm.r_pop (push_all ns v)).0 }))
numbers_run o ex [] m v p running fits h =
    next
      (Step-of o ex m v p running (Fits-is_word p [] fits) _ (omega (arith, fits.low))
        (exit_at o ex m v p running (Fits-is_word p [] fits) h))
      (Steps.here _)
numbers_run o ex (n ∷ ns) m v p running fits (token, operand, rest) =
    let pair = Fits-pair p n ns fits in
    let word = Fits-is_word p (n ∷ ns) fits in
    let m' = with_vm m (record (Vm.push n v) { ip = p + 8 }) in
    next
      (Step-of o ex m v p running word m' (omega (arith, fits.low)) (
        literal_at o ex m v p running word n (second-is_word pair) (add32-four pair)
          (omega (arith, pair.high)) token operand))
      (numbers_run o ex ns m' (Vm.push n v) (p + 8) refl (Fits-rest p n ns fits) rest)
