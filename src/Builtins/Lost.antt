-- ===== src/Builtins/Lost.antt =====
-- The table of the source, its test and its search together.
use u_forth.Prelude.{ℕ, ◌≡◌, refl, false, none, some, List, [], ◌∷◌}
use u_forth.Machine.{Machine, Action, forth_abort}
use u_forth.Outside.{Outside}
use u_forth.Builtins.{
  Builtin, strcmp, nth, bsearch, compare_builtin_nodes, find_builtin, is_sorted,
  forth_dict_validate_sorting,
}
use u_forth.Builtins.Table.{builtin_words}

-- The tokens of the entries that a search for their own name does not find.
abbrev lost_in : List Builtin → List Builtin → List ℕ
lost_in table [] = []
lost_in table (w ∷ ws) = elim (find_builtin table w.name) [
  | none ↦ w.xt_id ∷ lost_in table ws
  | some _ ↦ lost_in table ws
]

abbrev pub lost : List Builtin → List ℕ
lost table = lost_in table table

-- ." \ = > >R [CHAR] 0= C@ COUNT CONSTANT DUP IF INCLUDED INVERT F-CLOSE F-CREATE F-OPEN FAST-CELL FREE
-- VARIABLE UNTIL H. U. B. Q.
abbrev pub lost_tokens : List ℕ
lost_tokens =
    0 ∷ 56 ∷ 27 ∷ 30 ∷ 60 ∷ 58 ∷ 26 ∷ 49 ∷ 38 ∷ 63 ∷ 25 ∷ 50 ∷ 44 ∷ 18 ∷ 71 ∷ 68 ∷ 67 ∷ 32 ∷ 35 ∷ 62
    ∷ 54 ∷ 9 ∷ 8 ∷ 10 ∷ 11 ∷ []

module _ (interpret_line : List ℕ → Action (Unit {0})) (o : Outside) (heap_fuel : ℕ) where
  builtin_words_unsorted : is_sorted (builtin_words interpret_line o heap_fuel) ≡ false
  unfolding is_sorted strcmp builtin_words
  builtin_words_unsorted = refl

  -- The table of the source fails the test of its own order, which aborts the context if there is one
  -- and else does nothing; and the search finds 42 of its 67 names. The others are those of the tokens 0,
  -- 56, 27, 30, 60, 58, 26, 49, 38, 63, 25, 50, 44, 18, 71, 68, 67, 32, 35, 62, 54, 9, 8, 10 and 11.
  pub forth_dict_validate_sorting-lost :
      (m : Machine)
      → (forth_dict_validate_sorting (builtin_words interpret_line o heap_fuel) m ≡ forth_abort m)
        × (lost (builtin_words interpret_line o heap_fuel) ≡ lost_tokens)
  unfolding forth_dict_validate_sorting find_builtin bsearch compare_builtin_nodes nth strcmp
      builtin_words
  forth_dict_validate_sorting-lost m = (rw builtin_words_unsorted, refl)
