-- ===== src/Builtins/Back.antt =====
-- From the token of a word back to the word, along the table.
use mathlib.Core.Option.{some-injective}
use u_forth.Prelude.{
  ℕ, zero, suc, ◌+◌, ◌≡◌, ◌≢◌, refl, sym, ◌∙◌, ap, subst, inl, inr, Bool, Bool-cases, true, false,
  ◌&&◌, ◌||◌, ◌==◌, &&-eq_true, if◌then◌else◌, Option, none, some, List, [], ◌∷◌, arith,
}
use u_forth.Machine.{Action}
use u_forth.Outside.{Outside}
use u_forth.Words.Arith.{forth_primitive_lshift}
use u_forth.Builtins.{Builtin, codes, nth}
use u_forth.Builtins.Table.{builtin_words}

-- The first row with a token, and its number.
abbrev pub find_xt : ℕ → List Builtin → Option Builtin
find_xt xt_id [] = none
find_xt xt_id (w ∷ ws) = if w.xt_id == xt_id then some w else find_xt xt_id ws

abbrev first_at : ℕ → List Builtin → ℕ
first_at xt_id [] = 0
first_at xt_id (w ∷ ws) = if w.xt_id == xt_id then 0 else suc (first_at xt_id ws)

find_xt-nth :
    (xt_id : ℕ) (table : List Builtin) → find_xt xt_id table ≡ nth table (first_at xt_id table)
unfolding nth
find_xt-nth xt_id [] = refl
find_xt-nth xt_id (w ∷ ws) = elim (Bool-cases (w.xt_id == xt_id)) [
  | inl e ↦ rw e refl
  | inr e ↦ rw e (find_xt-nth xt_id ws)
]

-- The rows of RSHIFT and TO.
abbrev is_exception : ℕ → Bool
is_exception i = i == 53 || i == 57

abbrev rows_lead_back : List Builtin → ℕ → List Builtin → Bool
rows_lead_back table i [] = true
rows_lead_back table i (w ∷ ws) =
    (first_at w.xt_id table == i || is_exception i) && rows_lead_back table (i + 1) ws

shift_index : (i k : ℕ) → i + 1 + k ≡ i + suc k
shift_index i k = omega arith

rows_lead_back-nth :
    (table ws : List Builtin) (i k : ℕ) (w : Builtin)
    → rows_lead_back table i ws ≡ true
    → nth ws k ≡ some w
    → (first_at w.xt_id table == i + k || is_exception (i + k)) ≡ true
unfolding nth
rows_lead_back-nth table [] i k w h e = absurd (cc)
rows_lead_back-nth table (x ∷ ws) i zero w h e =
    let same : x ≡ w = some-injective x w e in
    let this : (first_at x.xt_id table == i || is_exception i) ≡ true = (&&-eq_true _ _ h).0 in
    let first : (first_at x.xt_id table == i + 0 || is_exception (i + 0)) ≡ true =
      subst (λ j. (first_at x.xt_id table == j || is_exception j) ≡ true) (omega arith) this in
    subst (λ y. (first_at y.xt_id table == i + 0 || is_exception (i + 0)) ≡ true) same first
rows_lead_back-nth table (x ∷ ws) i (suc k) w h e =
    let rest = rows_lead_back-nth table ws (i + 1) k w (&&-eq_true _ _ h).1 e in
    let next : i + 1 + k ≡ i + suc k = shift_index i k in
    subst (λ j. (first_at w.xt_id table == j || is_exception j) ≡ true) next rest

exception_57 :
    (i f : ℕ)
    → (f == 0 + i || is_exception (0 + i)) ≡ true
    → (f == i) ≡ false
    → (i == 53) ≡ false
    → i ≡ 57
exception_57 i f ok differs r = ground (arith, ok)

module _ (interpret_line : List ℕ → Action (Unit {0})) (o : Outside) (heap_fuel : ℕ) where
  abbrev pub table : List Builtin
  table = builtin_words interpret_line o heap_fuel

  table_leads_back : rows_lead_back table 0 table ≡ true
  unfolding builtin_words
  table_leads_back = refl

  lead_back :
      (i : ℕ) (w : Builtin)
      → nth table i ≡ some w
      → (first_at w.xt_id table == i) ≡ true
      → (x : Builtin) × (find_xt w.xt_id table ≡ some x) × (x.handler ≡ w.handler)
  lead_back i w e same =
      let at : first_at w.xt_id table ≡ i = ground arith in
      (w, find_xt-nth w.xt_id table ∙ ap (nth table) at ∙ e, refl)

  -- The entries that are exceptions.
  to_handler :
      (w : Builtin)
      → nth table 57 ≡ some w
      → (x : Builtin) × (find_xt w.xt_id table ≡ some x) × (x.handler ≡ w.handler)
  unfolding builtin_words nth
  to_handler w e =
      subst (λ y. (x : Builtin) × (find_xt y.xt_id table ≡ some x) × (x.handler ≡ y.handler))
        (some-injective _ w e) (_, refl, refl)

  rshift_row :
      (w : Builtin)
      → nth table 53 ≡ some w
      → (w.name ≡ codes "RSHIFT")
        × ((x : Builtin) × (find_xt w.xt_id table ≡ some x) × (x.handler ≡ forth_primitive_lshift))
  unfolding builtin_words nth
  rshift_row w e =
      subst
        (λ y.
          (y.name ≡ codes "RSHIFT")
          × ((x : Builtin) × (find_xt y.xt_id table ≡ some x)
              × (x.handler ≡ forth_primitive_lshift)))
        (some-injective _ w e) (refl, (_, refl, refl))

  -- The token of every word of the table but RSHIFT leads back, along the table, to a row with the handler of
  -- that word. RSHIFT, the row 53, has the token of LSHIFT, which leads to the handler of LSHIFT.
  pub find_xt-handler :
      ((i : ℕ) (w : Builtin)
        → nth table i ≡ some w
        → w.name ≢ codes "RSHIFT"
        → (x : Builtin) × (find_xt w.xt_id table ≡ some x) × (x.handler ≡ w.handler))
      × ((w : Builtin)
          → nth table 53 ≡ some w
          → (w.name ≡ codes "RSHIFT")
            × ((x : Builtin) × (find_xt w.xt_id table ≡ some x)
                × (x.handler ≡ forth_primitive_lshift)))
  find_xt-handler = (all_rows, rshift_row)
    where
      all_rows :
          (i : ℕ) (w : Builtin)
          → nth table i ≡ some w
          → w.name ≢ codes "RSHIFT"
          → (x : Builtin) × (find_xt w.xt_id table ≡ some x) × (x.handler ≡ w.handler)
      all_rows i w e other = elim (Bool-cases (first_at w.xt_id table == i)) [
        | inl same ↦ lead_back i w e same
        | inr differs ↦
            let ok = rows_lead_back-nth table table 0 i w table_leads_back e in
            elim (Bool-cases (i == 53)) [
              | inl r ↦
                  let at : i ≡ 53 = ground arith in
                  absurd (other (rshift_row w (ap (nth table) (sym at) ∙ e)).0)
              | inr r ↦
                  let at : i ≡ 57 = exception_57 i (first_at w.xt_id table) ok differs r in
                  to_handler w (ap (nth table) (sym at) ∙ e)
            ]
      ]
