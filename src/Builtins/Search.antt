-- ===== src/Builtins/Search.antt =====
-- The halving search against a search from the front.
use u_forth.Prelude.{
  ℕ, zero, suc, ◌+◌, ◌/◌, ◌≤◌, ◌<◌, ◌≡◌, ◌≢◌, inl, inr, refl, sym, ◌∙◌, Bool-cases, Option-cases,
  true, ltb, ltb→lt, Option, none, some, List, [], ◌∷◌, length, arith,
}
use u_forth.Builtins.{
  Builtin, Sign, strcmp, compare_builtin_nodes, nth, bsearch, find_builtin, is_sorted,
}
use u_forth.Builtins.Order.{
  IsOrdered, is_sorted-IsOrdered, strcmp-same, eq_of_same, below_of_above, above_of_below,
  below_trans, Sign-cases, some_name,
}

-- The first entry of the name.
unfoldable lookup : List ℕ → List Builtin → Option Builtin
lookup key [] = none
lookup key (w ∷ table) = elim (strcmp key w.name) [ Sign.same ↦ some w | _ ↦ lookup key table ]

-- What a search may return: an entry of the name, or nothing where there is none.
abbrev Finds : List ℕ → List Builtin → Option Builtin → Type 0
Finds key table none = (i : ℕ) (w : Builtin) → nth table i ≡ some w → strcmp key w.name ≢ Sign.same
Finds key table (some w) = (i : ℕ) × (nth table i ≡ some w) × (strcmp key w.name ≡ Sign.same)

nth-lt : (table : List Builtin) (i : ℕ) → i < length table → (w : Builtin) × (nth table i ≡ some w)
unfolding nth
nth-lt [] i h = absurd (omega arith)
nth-lt (w ∷ table) zero h = (w, refl)
nth-lt (w ∷ table) (suc i) h = nth-lt table i (omega arith)

not_same_of_below : {s : Sign} → s ≡ Sign.below → s ≢ Sign.same
not_same_of_below e h = cc

not_same_of_above : {s : Sign} → s ≡ Sign.above → s ≢ Sign.same
not_same_of_above e h = cc

module _ (key : List ℕ) where
  Finds-cons :
      (y : Builtin) (table : List Builtin) (r : Option Builtin)
      → strcmp key y.name ≢ Sign.same
      → Finds key table r
      → Finds key (y ∷ table) r
  unfolding nth
  Finds-cons y table none other h = with_first
    where
      with_first :
          (i : ℕ) (w : Builtin) → nth (y ∷ table) i ≡ some w → strcmp key w.name ≢ Sign.same
      with_first zero w e p = other (rw (some_name e) p)
      with_first (suc i) w e p = h i w e p
  Finds-cons y table (some w) other (i, e, p) = (suc i, e, p)

  lookup-Finds : (table : List Builtin) → Finds key table (lookup key table)
  unfolding lookup nth
  lookup-Finds [] = λ i w e p. not_none e
    where
      not_none : {w : Builtin} → none ≡ some w → ⊥
      not_none e = cc
  lookup-Finds (y ∷ table) = elim (Sign-cases (strcmp key y.name)) [
    | inl e ↦ rw (lookup, e) (Finds-cons y table _ (not_same_of_below e) (lookup-Finds table))
    | inr (inl e) ↦ rw (lookup, e) (0, refl, e)
    | inr (inr e) ↦ rw (lookup, e) (Finds-cons y table _ (not_same_of_above e) (lookup-Finds table))
  ]

module _ (key : List ℕ) (table : List Builtin) (ordered : IsOrdered table) where
  same_entry :
      (i j : ℕ) (w x : Builtin)
      → nth table i ≡ some w
      → strcmp key w.name ≡ Sign.same
      → nth table j ≡ some x
      → strcmp key x.name ≡ Sign.same
      → i < j
      → ⊥
  same_entry i j w x e p k q lt =
      let first : key ≡ w.name = eq_of_same key w.name p in
      let second : key ≡ x.name = eq_of_same key x.name q in
      not_same_of_below (ordered i j w x lt e k) (rw (← first, ← second) (strcmp-same key))

  Finds-unique : (r r' : Option Builtin) → Finds key table r → Finds key table r' → r ≡ r'
  Finds-unique none none h k = refl
  Finds-unique none (some x) h (j, e, q) = absurd (h j x e q)
  Finds-unique (some w) none (i, e, p) k = absurd (k i w e p)
  Finds-unique (some w) (some x) (i, e, p) (j, k, q) = elim (Bool-cases (ltb i j)) [
    | inl lt ↦ absurd (same_entry i j w x e p k q (ltb→lt i j lt))
    | inr ge ↦ elim (Bool-cases (ltb j i)) [
      | inl gt ↦ absurd (same_entry j i x w k q e p (ltb→lt j i gt))
      | inr le ↦ (let eq : i ≡ j = ground arith in sym e ∙ (rw eq k))
    ]
  ]

  -- An empty range leaves no entry of the name.
  none_left :
      (l u : ℕ)
      → u ≤ l
      → ((i : ℕ) (w : Builtin) → i < l → nth table i ≡ some w → strcmp key w.name ≡ Sign.above)
      → ((i : ℕ) (w : Builtin) → u ≤ i → nth table i ≡ some w → strcmp key w.name ≡ Sign.below)
      → Finds key table none
  none_left l u empty low high = λ i w e p. elim (Bool-cases (ltb i l)) [
    | inl lt ↦ not_same_of_above (low i w (ltb→lt i l lt) e) p
    | inr ge ↦ not_same_of_below (high i w (ground arith) e) p
  ]

  module _ (i : ℕ) (w : Builtin) (e : nth table i ≡ some w) where
    name_at : (j : ℕ) (x : Builtin) → i ≡ j → nth table j ≡ some x → x.name ≡ w.name
    name_at j x at k = let e' : nth table j ≡ some w = rw (← at) e in some_name (sym k ∙ e')

    all_below_key :
        strcmp key w.name ≡ Sign.above
        → (j : ℕ) (x : Builtin) → j < i + 1
        → nth table j ≡ some x
        → strcmp key x.name ≡ Sign.above
    all_below_key p j x lt k = elim (Bool-cases (ltb j i)) [
      | inl before ↦ above_of_below x.name key (
          below_trans x.name w.name key (ordered j i x w (ltb→lt j i before) k e)
            (below_of_above key w.name p))
      | inr ge ↦ (let at : i ≡ j = ground arith in rw (name_at j x at k) p)
    ]

    all_above_key :
        strcmp key w.name ≡ Sign.below
        → (j : ℕ) (x : Builtin) → i ≤ j
        → nth table j ≡ some x
        → strcmp key x.name ≡ Sign.below
    all_above_key p j x le k = elim (Bool-cases (ltb i j)) [
      | inl after ↦ below_trans key w.name x.name p (ordered i j w x (ltb→lt i j after) e k)
      | inr ge ↦ (let at : i ≡ j = ground arith in rw (name_at j x at k) p)
    ]

  bsearch-Finds :
      (fuel l u : ℕ)
      → u ≤ length table
      → u ≤ l + fuel
      → ((i : ℕ) (w : Builtin) → i < l → nth table i ≡ some w → strcmp key w.name ≡ Sign.above)
      → ((i : ℕ) (w : Builtin) → u ≤ i → nth table i ≡ some w → strcmp key w.name ≡ Sign.below)
      → Finds key table (bsearch fuel key table l u)
  unfolding bsearch compare_builtin_nodes
  bsearch-Finds zero l u inside enough low high = none_left l u (omega arith) low high
  bsearch-Finds (suc fuel) l u inside enough low high = elim (Bool-cases (ltb l u)) [
    | inr empty ↦ rw (bsearch, empty) (none_left l u (ground arith) low high)
    | inl lt ↦
        let more = ltb→lt l u lt in
        let (w, e) = nth-lt table ((l + u) / 2) (omega (arith, more)) in
        elim (Sign-cases (strcmp key w.name)) [
          | inl p ↦
              rw (bsearch, lt, e, p)
                (bsearch-Finds fuel l ((l + u) / 2) (omega (arith, more)) (omega (arith, more)) low
                  (all_above_key ((l + u) / 2) w e p))
          | inr (inl p) ↦ rw (bsearch, lt, e, p) ((l + u) / 2, e, p)
          | inr (inr p) ↦
              rw (bsearch, lt, e, p)
                (bsearch-Finds fuel ((l + u) / 2 + 1) u inside (omega (arith, more))
                  (all_below_key ((l + u) / 2) w e p) high)
        ]
  ]

past_end :
    (table : List Builtin) (i : ℕ) (w : Builtin) → length table ≤ i → nth table i ≡ some w → ⊥
unfolding nth
past_end [] i w h e = cc
past_end (y ∷ table) zero w h e = omega arith
past_end (y ∷ table) (suc i) w h e = past_end table i w (omega arith) e

-- On a table that passes the test of forth_dict_validate_sorting, the halving search returns for every
-- token what a search from the front does: the entry of that name, or nothing where there is none.
find_builtin-lookup :
    (table : List Builtin) (token : List ℕ)
    → is_sorted table ≡ true
    → find_builtin table token ≡ lookup token table
unfolding find_builtin
find_builtin-lookup table token h =
    let ordered = is_sorted-IsOrdered table h in
    Finds-unique token table ordered _ _
      (bsearch-Finds token table ordered (length table) 0 (length table) (omega arith) (omega arith)
        (λ i w lt e. absurd (omega arith)) (λ i w le e. absurd (past_end table i w le e)))
      (lookup-Finds token table)

none_lem : {w : Builtin} → none ≡ some w → ⊥
none_lem e = cc

module _ (key : List ℕ) (table : List Builtin) (w : Builtin) where
  bsearch-nth :
      (fuel l u : ℕ)
      → bsearch fuel key table l u ≡ some w
      → (i : ℕ) × (nth table i ≡ some w) × (w.name ≡ key)
  unfolding bsearch compare_builtin_nodes
  bsearch-nth zero l u h = absurd (cc)
  bsearch-nth (suc fuel) l u h = elim (Bool-cases (ltb l u)) [
    | inr empty ↦ absurd (none_lem (rw (bsearch, empty) at h))
    | inl lt ↦ elim (Option-cases (nth table ((l + u) / 2))) [
      | inl e ↦ absurd (none_lem (rw (bsearch, lt, e) at h))
      | inr (x, e) ↦ elim (Sign-cases (strcmp key x.name)) [
        | inl p ↦ bsearch-nth fuel l ((l + u) / 2) (rw (bsearch, lt, e, p) at h)
        | inr (inl p) ↦
            let found : some x ≡ some w = rw (bsearch, lt, e, p) at h in
            ((l + u) / 2, e ∙ found, sym (some_name found) ∙ sym (eq_of_same key x.name p))
        | inr (inr p) ↦ bsearch-nth fuel ((l + u) / 2 + 1) u (rw (bsearch, lt, e, p) at h)
      ]
    ]
  ]

-- What the search returns for a token is a row of the table, whose name is the token, whether the table
-- is in order or not.
pub find_builtin-named :
    (table : List Builtin) (token : List ℕ) (w : Builtin)
    → find_builtin table token ≡ some w
    → (i : ℕ) × (nth table i ≡ some w) × (w.name ≡ token)
unfolding find_builtin
find_builtin-named table token w h = bsearch-nth token table w (length table) 0 (length table) h
