-- ===== src/Vm/Stacks.antt =====
-- What a client sees of a context: two lists, the top first, and whether it has aborted. This is
-- the contract of the stack operations.
use u_forth.Prelude.{ℕ, Bool, true, false, List, [], ◌∷◌, length, leb, if◌then◌else◌}
use u_forth.Vm.{stack_cells}

pub record Stacks : Type 0 where
  pub items : List ℕ
  pub returns : List ℕ
  pub aborted : Bool

abbrev pub aborted_stacks : Stacks
aborted_stacks = record { items = []; returns = []; aborted = true }

pub data Op : Type 0 where
  push : ℕ → Op
  drop dup swap over to_r from_r : Op

-- An item is added if the stack has room.
abbrev pub push_item : ℕ → Stacks → Stacks
push_item x s =
    if leb stack_cells (length s.items) then aborted_stacks else record s { items = x ∷ s.items }

abbrev pub push_return : ℕ → Stacks → Stacks
push_return x s =
    if leb stack_cells (length s.returns)
    then aborted_stacks
    else record s { returns = x ∷ s.returns }

-- One operation on the items and the returns of a context that has not aborted.
unfoldable pub apply : Op → List ℕ → List ℕ → Stacks
apply (Op.push x) xs rs = push_item x (record { items = xs; returns = rs; aborted = false })
apply Op.drop (x ∷ xs) rs = record { items = xs; returns = rs; aborted = false }
apply Op.dup (x ∷ xs) rs = push_item x (record { items = x ∷ xs; returns = rs; aborted = false })
apply Op.swap (x ∷ y ∷ xs) rs = record { items = y ∷ x ∷ xs; returns = rs; aborted = false }
apply Op.over (x ∷ y ∷ xs) rs =
    push_item y (record { items = x ∷ y ∷ xs; returns = rs; aborted = false })
apply Op.to_r (x ∷ xs) rs = push_return x (record { items = xs; returns = rs; aborted = false })
apply Op.from_r xs (r ∷ rs) = push_item r (record { items = xs; returns = rs; aborted = false })
apply _ _ _ = aborted_stacks

-- A latched abort makes every operation idle.
unfoldable pub step : Op → Stacks → Stacks
unfolding apply
step op s = if s.aborted then s else apply op s.items s.returns

unfoldable pub run : List Op → Stacks → Stacks
run [] s = s
run (op ∷ ops) s = run ops (step op s)
