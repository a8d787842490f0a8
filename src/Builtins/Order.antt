-- ===== src/Builtins/Order.antt =====
-- The order of `strcmp`, and tables in that order.
use u_forth.Prelude.{
  ℕ, zero, suc, ◌<◌, ◌≡◌, refl, true, Option, none, some, List, [], ◌∷◌, arith, ap, ◌⊎◌, inl, inr,
  false≢true,
}
use u_forth.Builtins.{Builtin, Sign, strcmp, nth, is_sorted}

pub strcmp-same : (s : List ℕ) → strcmp s s ≡ Sign.same
unfolding strcmp
strcmp-same [] = refl
strcmp-same (c ∷ s) = ground (arith, strcmp-same s)

pub eq_of_same : (s t : List ℕ) → strcmp s t ≡ Sign.same → s ≡ t
unfolding strcmp
eq_of_same [] [] h = refl
eq_of_same [] (d ∷ t) h = cc
eq_of_same (c ∷ s) [] h = cc
eq_of_same (c ∷ s) (d ∷ t) h = ground (arith, eq_of_same s t)

pub below_of_above : (s t : List ℕ) → strcmp s t ≡ Sign.above → strcmp t s ≡ Sign.below
unfolding strcmp
below_of_above [] [] h = cc
below_of_above [] (d ∷ t) h = cc
below_of_above (c ∷ s) [] h = refl
below_of_above (c ∷ s) (d ∷ t) h = ground (arith, below_of_above s t)

pub above_of_below : (s t : List ℕ) → strcmp s t ≡ Sign.below → strcmp t s ≡ Sign.above
unfolding strcmp
above_of_below [] [] h = cc
above_of_below [] (d ∷ t) h = refl
above_of_below (c ∷ s) [] h = cc
above_of_below (c ∷ s) (d ∷ t) h = ground (arith, above_of_below s t)

pub below_trans :
    (s t r : List ℕ) → strcmp s t ≡ Sign.below → strcmp t r ≡ Sign.below → strcmp s r ≡ Sign.below
unfolding strcmp
below_trans s [] r h k = by_first s r h k
  where
    by_first :
        (s r : List ℕ)
        → strcmp s [] ≡ Sign.below
        → strcmp [] r ≡ Sign.below
        → strcmp s r ≡ Sign.below
    by_first [] r h k = k
    by_first (c ∷ s) r h k = cc
below_trans [] (d ∷ t) [] h k = cc
below_trans [] (d ∷ t) (e ∷ r) h k = refl
below_trans (c ∷ s) (d ∷ t) [] h k = cc
below_trans (c ∷ s) (d ∷ t) (e ∷ r) h k = ground (arith, below_trans s t r)

-- An entry comes before every later one.
abbrev pub IsOrdered : List Builtin → Type 0
IsOrdered table =
    (i j : ℕ) (w x : Builtin)
    → i < j
    → nth table i ≡ some w
    → nth table j ≡ some x
    → strcmp w.name x.name ≡ Sign.below

pub Sign-cases : (g : Sign) → (g ≡ Sign.below) ⊎ (g ≡ Sign.same) ⊎ (g ≡ Sign.above)
Sign-cases Sign.below = inl refl
Sign-cases Sign.same = inr (inl refl)
Sign-cases Sign.above = inr (inr refl)

is_sorted-cons :
    (w x : Builtin) (table : List Builtin)
    → is_sorted (w ∷ x ∷ table) ≡ true
    → (strcmp w.name x.name ≡ Sign.below) × (is_sorted (x ∷ table) ≡ true)
unfolding is_sorted
is_sorted-cons w x table h = elim (Sign-cases (strcmp w.name x.name)) [
  | inl e ↦ (e, (rw (is_sorted, e) at h))
  | inr (inl e) ↦ absurd (false≢true (rw (is_sorted, e) at h))
  | inr (inr e) ↦ absurd (false≢true (rw (is_sorted, e) at h))
]

pub some_name : {w x : Builtin} → some w ≡ some x → w.name ≡ x.name
some_name {w} {x} e = ap name_or e
  where
    name_or : Option Builtin → List ℕ
    name_or none = []
    name_or (some y) = y.name

first_below :
    (w : Builtin) (table : List Builtin) (j : ℕ) (x : Builtin)
    → is_sorted (w ∷ table) ≡ true
    → nth table j ≡ some x
    → strcmp w.name x.name ≡ Sign.below
unfolding nth
first_below w [] j x h e = cc
first_below w (y ∷ table) zero x h e = rw (← some_name e) (is_sorted-cons w y table h).0
first_below w (y ∷ table) (suc j) x h e =
    let (first, rest) = is_sorted-cons w y table h in
    below_trans w.name y.name x.name first (first_below y table j x rest e)

is_sorted-nil : is_sorted [] ≡ true
unfolding is_sorted
is_sorted-nil = refl

-- A table that passes the test of the source is in order.
pub is_sorted-IsOrdered : (table : List Builtin) → is_sorted table ≡ true → IsOrdered table
unfolding nth
is_sorted-IsOrdered [] h i j w x lt e k = cc
is_sorted-IsOrdered (y ∷ table) h zero zero w x lt e k = absurd (omega arith)
is_sorted-IsOrdered (y ∷ table) h zero (suc j) w x lt e k =
    rw (← some_name e) (first_below y table j x h k)
is_sorted-IsOrdered (y ∷ table) h (suc i) zero w x lt e k = absurd (omega arith)
is_sorted-IsOrdered (y ∷ table) h (suc i) (suc j) w x lt e k =
    is_sorted-IsOrdered table (is_sorted-tail y table h) i j w x (omega arith) e k
  where
    is_sorted-tail :
        (y : Builtin) (table : List Builtin) → is_sorted (y ∷ table) ≡ true → is_sorted table ≡ true
    is_sorted-tail y [] h = is_sorted-nil
    is_sorted-tail y (x ∷ table) h = (is_sorted-cons y x table h).1
