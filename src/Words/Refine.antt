-- ===== src/Words/Refine.antt =====
-- The arithmetic words against their meaning on the list of the items of the stack.
use Prim.Native.Nat.{bit_and, bit_or, bit_xor}
use native.Mathlib.Nat.{pow-le-pow_right, div-eq_of_lt}
use u_forth.Prelude.{
  ℕ, ◌∙◌, ◌+◌, ◌-◌, ◌*◌, ◌%◌, ◌^◌, ◌≡◌, refl, not, ◌==◌, if◌then◌else◌, false, ◌||◌, ◌/◌, ◌<◌, ◌≤◌,
  ap, Bool, ltb, leb, subst, Bool-cases, inl, inr, some, List, [], ◌∷◌, update, arith,
}
use u_forth.Vm
use u_forth.Vm.{Vm, stack_cells}
use u_forth.Vm.Stacks.{Stacks, aborted_stacks}
use u_forth.Vm.Refine.{IsValid, view, cells_pos, cells-update}
use u_forth.Machine.{Machine, Action, ok, ◌>>=◌, get_vm, forth_push}
use u_forth.Machine.Laws.{with_vm, pop_at, push_at, if_vm_at}
use u_forth.Words.{if_running, unary, binary, guarded_unary, guarded_binary}
use u_forth.Words.Arith

abbrev unary_items : (ℕ → ℕ) → List ℕ → Stacks → Stacks
unary_items f [] s = aborted_stacks
unary_items f (a ∷ xs) s = record s { items = f a ∷ xs }

abbrev binary_items : (ℕ → ℕ → ℕ) → List ℕ → Stacks → Stacks
binary_items f (b ∷ a ∷ xs) s = record s { items = f a b ∷ xs }
binary_items f _ s = aborted_stacks

-- `f` of the top item, or of the two top items, in their place.
unfoldable pub apply_unary : (ℕ → ℕ) → Stacks → Stacks
apply_unary f s = if s.aborted then s else unary_items f s.items s

unfoldable pub apply_binary : (ℕ → ℕ → ℕ) → Stacks → Stacks
apply_binary f s = if s.aborted then s else binary_items f s.items s

-- The run of a word from `m` succeeds and changes the context alone: its stacks become `s`, and its
-- indices stay in range.
pub record Yields (act : Action (Unit {0})) (m : Machine) (s : Stacks) : Type 0 where
  pub vm : Vm
  pub runs : act m ≡ ok tt (with_vm m vm)
  pub stacks : view vm ≡ s
  pub valid : IsValid vm

module _ (v : Vm) (h : IsValid v) where
  after_unary : (ℕ → ℕ) → Vm
  after_unary f = Vm.push (f (Vm.pop v).0) (Vm.pop v).1

  after_binary : (ℕ → ℕ → ℕ) → Vm
  after_binary f = let (b, v₁) = Vm.pop v in let (a, v₂) = Vm.pop v₁ in Vm.push (f a b) v₂

  unary-view : (f : ℕ → ℕ) → view (after_unary f) ≡ apply_unary f (view v)
  unfolding after_unary view Vm.push Vm.pop apply_unary
  unary-view f = ground (
    arith,
    cells_pos v.data_stack v.sp,
    cells-update v.data_stack (v.sp - 1) (f (v.data_stack (v.sp - 1))) (v.sp - 1),
    cells_pos (update v.data_stack (v.sp - 1) (f (v.data_stack (v.sp - 1)))) (v.sp - 1 + 1),
  )

  unary-IsValid : (f : ℕ → ℕ) → IsValid (after_unary f)
  unfolding after_unary Vm.push Vm.pop
  unary-IsValid f = ground arith

  binary-view : (f : ℕ → ℕ → ℕ) → view (after_binary f) ≡ apply_binary f (view v)
  unfolding after_binary view Vm.push Vm.pop apply_binary
  binary-view f =
      let x = f (v.data_stack (v.sp - 1 - 1)) (v.data_stack (v.sp - 1)) in
      ground (
        arith,
        cells_pos v.data_stack v.sp,
        cells_pos v.data_stack (v.sp - 1),
        cells-update v.data_stack (v.sp - 1 - 1) x (v.sp - 1 - 1),
        cells_pos (update v.data_stack (v.sp - 1 - 1) x) (v.sp - 1 - 1 + 1),
      )

  binary-IsValid : (f : ℕ → ℕ → ℕ) → IsValid (after_binary f)
  unfolding after_binary Vm.push Vm.pop
  binary-IsValid f = ground arith

-- After an abort a push is idle, so the tests of the guarded words change nothing.
push_latched : (x : ℕ) (v : Vm) → (v.abort_flag == 0) ≡ false → Vm.push x v ≡ v
unfolding Vm.push
push_latched x v e = rw e

if_running-push :
    (m : Machine) (v : Vm) (x : ℕ)
    → if_running (forth_push x) (with_vm m v) ≡ ok tt (with_vm m (Vm.push x v))
unfolding get_vm forth_push
if_running-push m v x = elim (Bool-cases (v.abort_flag == 0)) [
  | inl e ↦ rw e
  | inr e ↦ rw (e, push_latched x v e)
]

module _ (m : Machine) {v : Vm} (running : m.current_forth_vm ≡ some v) (h : IsValid v) where
  unary-Yields : (f : ℕ → ℕ) → Yields (unary f) m (apply_unary f (view v))
  unfolding after_unary
  unary-Yields f = record {
    vm = after_unary v h f;
    runs = rw (◌>>=◌, pop_at m running) (push_at (with_vm m (Vm.pop v).1) refl (f (Vm.pop v).0));
    stacks = unary-view v h f;
    valid = unary-IsValid v h f;
  }

  binary-Yields : (f : ℕ → ℕ → ℕ) → Yields (binary f) m (apply_binary f (view v))
  unfolding after_binary
  binary-Yields f =
      let (b, v₁) = Vm.pop v in
      let (a, v₂) = Vm.pop v₁ in
      record {
        vm = after_binary v h f;
        runs =
            rw (◌>>=◌, pop_at m running, pop_at (with_vm m v₁) refl)
              (push_at (with_vm m v₂) refl (f a b));
        stacks = binary-view v h f;
        valid = binary-IsValid v h f;
      }

  guarded_unary-Yields : (f : ℕ → ℕ) → Yields (guarded_unary f) m (apply_unary f (view v))
  unfolding after_unary
  guarded_unary-Yields f = record {
    vm = after_unary v h f;
    runs =
        if_vm_at m running _
        ∙ (rw (◌>>=◌, pop_at m running) (if_running-push m (Vm.pop v).1 (f (Vm.pop v).0)));
    stacks = unary-view v h f;
    valid = unary-IsValid v h f;
  }

  guarded_binary-Yields : (f : ℕ → ℕ → ℕ) → Yields (guarded_binary f) m (apply_binary f (view v))
  unfolding after_binary
  guarded_binary-Yields f =
      let (b, v₁) = Vm.pop v in
      let (a, v₂) = Vm.pop v₁ in
      record {
        vm = after_binary v h f;
        runs =
            if_vm_at m running _
            ∙ (rw (◌>>=◌, pop_at m running, pop_at (with_vm m v₁) refl)
                (if_running-push m v₂ (f a b)));
        stacks = binary-view v h f;
        valid = binary-IsValid v h f;
      }

-- The words that compute on the stack.
pub data ArithWord : Type 0 where
  plus minus times and or xor invert lshift rshift arshift : ArithWord
  zero_equal equal not_equal less greater : ArithWord

unfoldable pub run_word : ArithWord → Action (Unit {0})
run_word plus = Arith.forth_add
run_word minus = Arith.forth_sub
run_word times = Arith.forth_mul
run_word and = Arith.forth_primitive_and
run_word or = Arith.forth_primitive_or
run_word xor = Arith.forth_primitive_xor
run_word invert = Arith.forth_primitive_invert
run_word lshift = Arith.forth_primitive_lshift
run_word rshift = Arith.forth_primitive_rshift
run_word arshift = Arith.forth_primitive_arshift
run_word zero_equal = Arith.forth_0equal
run_word equal = Arith.forth_equal
run_word not_equal = Arith.forth_not_equal
run_word less = Arith.forth_less_than
run_word greater = Arith.forth_greater_than

-- A comparison answers with all 32 bits set, or with none.
abbrev pub answer : Bool → ℕ
answer b = if b then 2 ^ 32 - 1 else 0

-- The signed order of two words is the order of their distances from the least signed number.
abbrev pub from_least : ℕ → ℕ
from_least a = (a + 2 ^ 31) % 2 ^ 32

-- The quotient by `2 ^ k`, rounded down, of a signed number whose sign bit is `top`, in 32 bits.
abbrev pub quotient : ℕ → ℕ → ℕ → ℕ
quotient top a k = if ltb a top then a / 2 ^ k else 2 ^ 32 - 1 - (2 * top - 1 - a) / 2 ^ k

-- A number below 256 is a signed byte, another one below 65536 a signed 16-bit word, if they are
-- shifted by less than 32 places; from there on the sign is that of the 32-bit word.
abbrev pub shifted : ℕ → ℕ → ℕ
shifted a k =
    if leb 32 k
    then answer (leb (2 ^ 31) a)
    else quotient (if ltb a 256 then 128 else if ltb a 65536 then 2 ^ 15 else 2 ^ 31) a k

-- What each of them means for the list of items.
unfoldable pub meaning : ArithWord → Stacks → Stacks
meaning plus = apply_binary λ a b. (a + b) % 2 ^ 32
meaning minus = apply_binary λ a b. (a + 2 ^ 32 - b) % 2 ^ 32
meaning times = apply_binary λ a b. a * b % 2 ^ 32
meaning and = apply_binary bit_and
meaning or = apply_binary bit_or
meaning xor = apply_binary bit_xor
meaning invert = apply_unary λ a. 2 ^ 32 - 1 - a
meaning lshift = apply_binary λ a k. if ltb k 32 then a * 2 ^ k % 2 ^ 32 else 0
meaning rshift = apply_binary λ a k. a / 2 ^ k
meaning arshift = apply_binary shifted
meaning zero_equal = apply_unary λ a. answer (a == 0)
meaning equal = apply_binary λ a b. answer (a == b)
meaning not_equal = apply_binary λ a b. answer (ltb a b || ltb b a)
meaning less = apply_binary λ a b. answer (ltb (from_least a) (from_least b))
meaning greater = apply_binary λ a b. answer (ltb (from_least b) (from_least a))

-- The items are 32-bit words.
abbrev pub AreWords : List ℕ → Type 0
AreWords [] = Unit {0}
AreWords (a ∷ xs) = (a < 2 ^ 32) × AreWords xs

-- Two functions that agree on 32-bit words do the same to a stack of them.
unary_agrees :
    (f g : ℕ → ℕ)
    → ((a : ℕ) → a < 2 ^ 32 → f a ≡ g a)
    → (s : Stacks) → AreWords s.items
    → apply_unary f s ≡ apply_unary g s
unfolding apply_unary
unary_agrees f g same s h = ap (λ t. if s.aborted then s else t) (on_items s.items h)
  where
    on_items : (xs : List ℕ) → AreWords xs → unary_items f xs s ≡ unary_items g xs s
    on_items [] k = refl
    on_items (a ∷ xs) (lt, k) = rw (same a lt) refl

binary_agrees :
    (f g : ℕ → ℕ → ℕ)
    → ((a b : ℕ) → a < 2 ^ 32 → b < 2 ^ 32 → f a b ≡ g a b)
    → (s : Stacks) → AreWords s.items
    → apply_binary f s ≡ apply_binary g s
unfolding apply_binary
binary_agrees f g same s h = ap (λ t. if s.aborted then s else t) (on_items s.items h)
  where
    on_items : (xs : List ℕ) → AreWords xs → binary_items f xs s ≡ binary_items g xs s
    on_items [] k = refl
    on_items (b ∷ []) k = refl
    on_items (b ∷ a ∷ xs) (lb, (la, k)) = rw (same a b la lb) refl

less_than-from_least :
    (a b : ℕ)
    → a < 2 ^ 32
    → b < 2 ^ 32
    → Arith.less_than a b ≡ answer (ltb (from_least a) (from_least b))
less_than-from_least a b h k = ground arith

not_equal-order : (a b : ℕ) → Arith.flag (not (a == b)) ≡ answer (ltb a b || ltb b a)
not_equal-order a b = ground arith

lshift-power : (a k : ℕ) → Arith.lshift a k ≡ (if ltb k 32 then a * 2 ^ k % 2 ^ 32 else 0)
unfolding Arith.lshift
lshift-power a k = ground arith

rshift-power : (a k : ℕ) → a < 2 ^ 32 → Arith.rshift a k ≡ a / 2 ^ k
unfolding Arith.rshift
rshift-power a k h = elim (Bool-cases (leb 32 k)) [
  | inl far ↦
      let le : 32 ≤ k = ground arith in
      let two : 0 < 2 = omega arith in
      let far_power : 2 ^ 32 ≤ 2 ^ k = pow-le-pow_right two le in
      let zero : a / 2 ^ k ≡ 0 = div-eq_of_lt (omega arith) in rw (Arith.rshift, far, zero)
  | inr near ↦ rw (Arith.rshift, near)
]

arshift-shifted : (a k : ℕ) → a < 2 ^ 32 → Arith.arshift a k ≡ shifted a k
unfolding Arith.arshift Arith.signed_val
arshift-shifted a k h = ground arith

-- Each arithmetic word, run in a context whose indices are in range and whose items are 32-bit words,
-- replaces its operands on the stack by the result that `meaning` names for it, aborts on too few
-- operands, and does nothing after an abort; nothing but the context changes, and the indices stay in
-- range.
pub run_word-Yields :
    (w : ArithWord) (m : Machine) (v : Vm)
    → m.current_forth_vm ≡ some v
    → IsValid v
    → AreWords (view v).items
    → Yields (run_word w) m (meaning w (view v))
unfolding run_word meaning Arith.forth_add Arith.forth_sub Arith.forth_mul Arith.forth_primitive_and
    Arith.forth_primitive_or Arith.forth_primitive_xor Arith.forth_primitive_invert
    Arith.forth_primitive_lshift Arith.forth_primitive_rshift Arith.forth_primitive_arshift
    Arith.forth_0equal Arith.forth_equal Arith.forth_not_equal Arith.forth_less_than
    Arith.forth_greater_than
run_word-Yields w m v e h k = by_word w
  where
    as_binary :
        (act : Action (Unit {0})) (f g : ℕ → ℕ → ℕ)
        → ((a b : ℕ) → a < 2 ^ 32 → b < 2 ^ 32 → f a b ≡ g a b)
        → Yields act m (apply_binary f (view v))
        → Yields act m (apply_binary g (view v))
    as_binary act f g same y = subst (Yields act m) (binary_agrees f g same (view v) k) y

    by_word : (w : ArithWord) → Yields (run_word w) m (meaning w (view v))
    by_word plus = binary-Yields m e h Arith.add32
    by_word minus = binary-Yields m e h Arith.sub32
    by_word times = binary-Yields m e h Arith.mul32
    by_word and = guarded_binary-Yields m e h bit_and
    by_word or = guarded_binary-Yields m e h bit_or
    by_word xor = guarded_binary-Yields m e h bit_xor
    by_word invert = guarded_unary-Yields m e h Arith.not32
    by_word lshift =
        as_binary _ _ _ (λ a b la lb. lshift-power a b) (guarded_binary-Yields m e h Arith.lshift)
    by_word rshift =
        as_binary _ _ _ (λ a b la lb. rshift-power a b la)
          (guarded_binary-Yields m e h Arith.rshift)
    by_word arshift =
        as_binary _ _ _ (λ a b la lb. arshift-shifted a b la)
          (guarded_binary-Yields m e h Arith.arshift)
    by_word zero_equal = unary-Yields m e h λ a. Arith.flag (a == 0)
    by_word equal = binary-Yields m e h λ a b. Arith.flag (a == b)
    by_word not_equal =
        as_binary _ _ _ (λ a b la lb. not_equal-order a b)
          (binary-Yields m e h λ a b. Arith.flag (not (a == b)))
    by_word less =
        as_binary _ _ _ (λ a b la lb. less_than-from_least a b la lb)
          (binary-Yields m e h Arith.less_than)
    by_word greater =
        as_binary _ _ _ (λ a b la lb. less_than-from_least b a lb la)
          (binary-Yields m e h Arith.greater_than)
