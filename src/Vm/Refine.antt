-- ===== src/Vm/Refine.antt =====
-- The stack operations keep to the contract of Stacks.
use u_forth.Prelude.{
  ℕ, zero, suc, ◌+◌, ◌-◌, ◌≤◌, ◌<◌, ◌≡◌, refl, ap, ◌∙◌, inl, inr, not, Bool-cases, List, [], ◌∷◌,
  length, ltb, ◌==◌, if◌then◌else◌, update, arith,
}
use u_forth.Vm
use u_forth.Vm.{Vm, stack_cells}
use u_forth.Vm.Stacks
use u_forth.Vm.Stacks.{Stacks, Op}

-- The stack indices are in range: every cell that the code reads or writes is in the arrays.
pub record IsValid (v : Vm) : Type 0 where
  pub data_in : v.sp ≤ stack_cells
  pub return_in : v.rp ≤ stack_cells

-- The first `n` cells of an array, the last one first.
abbrev pub cells : (ℕ → ℕ) → ℕ → List ℕ
cells f zero = []
cells f (suc n) = f n ∷ cells f n

length-cells : (f : ℕ → ℕ) (n : ℕ) → length (cells f n) ≡ n
length-cells f zero = refl
length-cells f (suc n) = ap suc (length-cells f n)

pub cells-update : (f : ℕ → ℕ) (i x n : ℕ) → n ≤ i → cells (update f i x) n ≡ cells f n
cells-update f i x zero h = refl
cells-update f i x (suc n) h = ground (arith, cells-update f i x n)

-- The code tests and uses `sp`, the list is by cases on it.
pub cells_pos : (f : ℕ → ℕ) (n : ℕ) → 0 < n → cells f n ≡ f (n - 1) ∷ cells f (n - 1)
cells_pos f zero h = absurd (omega arith)
cells_pos f (suc n) h = ap (λ k. f k ∷ cells f k) (omega arith)

unfoldable pub view : Vm → Stacks
view v = record {
  items = cells v.data_stack v.sp;
  returns = cells v.return_stack v.rp;
  aborted = not (v.abort_flag == 0);
}

-- One operation of the code.
unfoldable pub execute : Op → Vm → Vm
execute (Op.push x) v = Vm.push x v
execute Op.drop v = Vm.drop v
execute Op.dup v = Vm.dup v
execute Op.swap v = Vm.swap v
execute Op.over v = Vm.over v
execute Op.to_r v = Vm.to_r v
execute Op.from_r v = Vm.from_r v

module _ (v : Vm) where
  push-view : (x : ℕ) → view (Vm.push x v) ≡ Stacks.step (Op.push x) (view v)
  unfolding view Vm.push Stacks.step
  push-view x = ground (
    arith,
    length-cells v.data_stack v.sp,
    cells-update v.data_stack v.sp x v.sp,
    cells_pos (update v.data_stack v.sp x) (v.sp + 1),
  )

  r_push-view :
      (x : ℕ)
      → view (Vm.r_push x v) ≡ (if (view v).aborted then view v else Stacks.push_return x (view v))
  unfolding view Vm.r_push
  r_push-view x = ground (
    arith,
    length-cells v.return_stack v.rp,
    cells-update v.return_stack v.rp x v.rp,
    cells_pos (update v.return_stack v.rp x) (v.rp + 1),
  )

  drop-view : view (Vm.drop v) ≡ Stacks.step Op.drop (view v)
  unfolding view Vm.drop Stacks.step
  drop-view = ground (arith, cells_pos v.data_stack v.sp)

  dup-view : view (Vm.dup v) ≡ Stacks.step Op.dup (view v)
  unfolding view Vm.dup Stacks.step
  dup-view = ground (
    arith,
    length-cells v.data_stack v.sp,
    cells_pos v.data_stack v.sp,
    cells-update v.data_stack v.sp (v.data_stack (v.sp - 1)) v.sp,
    cells_pos (update v.data_stack v.sp (v.data_stack (v.sp - 1))) (v.sp + 1),
  )

  over-view : view (Vm.over v) ≡ Stacks.step Op.over (view v)
  unfolding view Vm.over Stacks.step
  over-view = ground (
    arith,
    length-cells v.data_stack v.sp,
    cells_pos v.data_stack v.sp,
    cells_pos v.data_stack (v.sp - 1),
    cells-update v.data_stack v.sp (v.data_stack (v.sp - 2)) v.sp,
    cells_pos (update v.data_stack v.sp (v.data_stack (v.sp - 2))) (v.sp + 1),
  )

  swapped : ℕ → ℕ
  swapped =
      update (update v.data_stack (v.sp - 1) (v.data_stack (v.sp - 2))) (v.sp - 2)
        (v.data_stack (v.sp - 1))

  cells-swapped :
      2 ≤ v.sp
      → cells swapped v.sp
        ≡ v.data_stack (v.sp - 2) ∷ v.data_stack (v.sp - 1) ∷ cells v.data_stack (v.sp - 2)
  unfolding swapped
  cells-swapped h = ground (
    arith,
    cells_pos swapped v.sp,
    cells_pos swapped (v.sp - 1),
    cells-update (update v.data_stack (v.sp - 1) (v.data_stack (v.sp - 2))) (v.sp - 2)
        (v.data_stack (v.sp - 1)) (v.sp - 2),
    cells-update v.data_stack (v.sp - 1) (v.data_stack (v.sp - 2)) (v.sp - 2),
  )

  swap-view : view (Vm.swap v) ≡ Stacks.step Op.swap (view v)
  unfolding view Vm.swap Stacks.step swapped
  swap-view = elim (Bool-cases (v.abort_flag == 0)) [
    | inr latched ↦ rw latched (rw latched)
    | inl running ↦ elim (Bool-cases (ltb v.sp 2)) [
      | inl short ↦
          rw (running, short)
            (ground (arith, cells_pos v.data_stack v.sp, cells_pos v.data_stack (v.sp - 1)))
      | inr long ↦
          rw (running, long)
            (ground (
              arith,
              cells_pos v.data_stack v.sp,
              cells_pos v.data_stack (v.sp - 1),
              cells-swapped,
            ))
    ]
  ]

  to_r-view : view (Vm.to_r v) ≡ Stacks.step Op.to_r (view v)
  unfolding view Vm.to_r Stacks.step
  to_r-view = ground (
    arith,
    cells_pos v.data_stack v.sp,
    length-cells v.return_stack v.rp,
    cells-update v.return_stack v.rp (v.data_stack (v.sp - 1)) v.rp,
    cells_pos (update v.return_stack v.rp (v.data_stack (v.sp - 1))) (v.rp + 1),
  )

  from_r-view : view (Vm.from_r v) ≡ Stacks.step Op.from_r (view v)
  unfolding view Vm.from_r Stacks.step
  from_r-view = ground (
    arith,
    cells_pos v.return_stack v.rp,
    length-cells v.data_stack v.sp,
    cells-update v.data_stack v.sp (v.return_stack (v.rp - 1)) v.sp,
    cells_pos (update v.data_stack v.sp (v.return_stack (v.rp - 1))) (v.sp + 1),
  )

execute-view : (op : Op) (v : Vm) → view (execute op v) ≡ Stacks.step op (view v)
unfolding execute
execute-view (Op.push x) v = push-view v x
execute-view Op.drop v = drop-view v
execute-view Op.dup v = dup-view v
execute-view Op.swap v = swap-view v
execute-view Op.over v = over-view v
execute-view Op.to_r v = to_r-view v
execute-view Op.from_r v = from_r-view v

pub execute_all : List Op → Vm → Vm
execute_all [] v = v
execute_all (op ∷ ops) v = execute_all ops (execute op v)

-- From any context, any sequence of the stack operations leaves the two stacks and the abort state
-- that the bounded lists of Stacks have after it, underflow, overflow and a latched abort included.
pub execute_all-run : (ops : List Op) (v : Vm) → view (execute_all ops v) ≡ Stacks.run ops (view v)
unfolding execute_all Stacks.run
execute_all-run [] v = refl
execute_all-run (op ∷ ops) v =
    execute_all-run ops (execute op v) ∙ ap (Stacks.run ops) (execute-view op v)

execute-IsValid : (op : Op) {v : Vm} → IsValid v → IsValid (execute op v)
unfolding execute Vm.drop Vm.dup Vm.swap Vm.over Vm.to_r Vm.from_r
execute-IsValid (Op.push x) h = ground arith
execute-IsValid Op.drop h = ground arith
execute-IsValid Op.dup h = ground arith
execute-IsValid Op.swap h = ground arith
execute-IsValid Op.over h = ground arith
execute-IsValid Op.to_r h = ground arith
execute-IsValid Op.from_r h = ground arith

-- Any sequence of the stack operations keeps both stack indices within the arrays.
execute_all-IsValid : (ops : List Op) {v : Vm} → IsValid v → IsValid (execute_all ops v)
unfolding execute_all
execute_all-IsValid [] h = h
execute_all-IsValid (op ∷ ops) h = execute_all-IsValid ops (execute-IsValid op h)

-- A context that has not aborted and has room on its data stack.
pub record HasRoom (v : Vm) : Type 0 where
  pub running : v.abort_flag ≡ 0
  pub room : v.sp < stack_cells

pub pop-push :
    (x : ℕ) {v : Vm}
    → HasRoom v
    → ((Vm.pop (Vm.push x v)).0 ≡ x) × (view (Vm.pop (Vm.push x v)).1 ≡ view v)
unfolding view Vm.pop Vm.push
pop-push x {v} h = ground (arith, cells-update v.data_stack v.sp x v.sp)
