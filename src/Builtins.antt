-- ===== src/Builtins.antt =====
-- The table of built-in words of forth_dict.c, its search, and the test of its order. A name is the
-- list of its characters, up to the NUL byte. `bsearch` of the C library asks for a table in order and
-- leaves open what it does with another one; here it halves as the GNU C library does.
pub mod Tokens
pub mod Back
pub mod Order
pub mod Search
pub mod Table
pub mod Lost
use Prim.Native.Char.{code}
use Prim.Native.String.{String}
use u_forth.Prelude.{
  ℕ, zero, suc, ◌+◌, ◌-◌, ◌/◌, Bool, true, false, ltb, leb, ◌==◌, if◌then◌else◌, Option, none, some,
  List, [], ◌∷◌, length,
}
use u_forth.Vm
use u_forth.Machine.{Action, Stop, pure, fail, on_vm, ◌>>=◌, ◌>>◌, if_vm, get_vm, forth_abort}

-- The code points of a text: its bytes, if it is ASCII.
abbrev pub codes : String → List ℕ
codes String.[] = []
codes (String.◌∷◌ c s) = code c ∷ codes s

-- forth_word_builtin_t
pub record Builtin : Type 0 where
  pub name : List ℕ
  pub handler : Action (Unit {0})
  pub xt_id : ℕ
  pub is_immediate : Bool

-- The sign of the result of `strcmp`.
pub data Sign : Type 0 where
  below same above : Sign

unfoldable pub strcmp : List ℕ → List ℕ → Sign
strcmp [] [] = Sign.same
strcmp [] (d ∷ t) = Sign.below
strcmp (c ∷ s) [] = Sign.above
strcmp (c ∷ s) (d ∷ t) = if ltb c d then Sign.below else if ltb d c then Sign.above else strcmp s t

unfoldable pub compare_builtin_nodes : List ℕ → Builtin → Sign
compare_builtin_nodes search_name word = strcmp search_name word.name

-- `base[i]`
unfoldable pub nth : List Builtin → ℕ → Option Builtin
nth [] i = none
nth (w ∷ ws) zero = some w
nth (w ∷ ws) (suc i) = nth ws i

-- `bsearch` between `l` and `u`: the range is halved each round, so that `u - l` rounds are enough.
unfoldable pub bsearch : ℕ → List ℕ → List Builtin → ℕ → ℕ → Option Builtin
bsearch zero key table l u = none
bsearch (suc fuel) key table l u = elim (ltb l u) [
  | false ↦ none
  | true ↦
      let idx = (l + u) / 2 in
      elim (nth table idx) [
        | none ↦ none
        | some w ↦ elim (compare_builtin_nodes key w) [
          | Sign.below ↦ bsearch fuel key table l idx
          | Sign.same ↦ some w
          | Sign.above ↦ bsearch fuel key table (idx + 1) u
        ]
      ]
]

unfoldable pub find_builtin : List Builtin → List ℕ → Option Builtin
find_builtin table token = bsearch (length table) token table 0 (length table)

-- The loop of `forth_dict_validate_sorting`: whether each name comes before the next one.
unfoldable pub is_sorted : List Builtin → Bool
is_sorted (w ∷ x ∷ ws) = elim (strcmp w.name x.name) [ Sign.below ↦ is_sorted (x ∷ ws) | _ ↦ false ]
is_sorted ws = true

unfoldable pub forth_dict_validate_sorting : List Builtin → Action (Unit {0})
forth_dict_validate_sorting table = if is_sorted table then pure tt else forth_abort

-- The stack words as functions on `current_forth_vm`.
unfoldable pub forth_drop : Action (Unit {0})
forth_drop = on_vm Vm.drop

unfoldable pub forth_dup : Action (Unit {0})
forth_dup = on_vm Vm.dup

unfoldable pub forth_swap : Action (Unit {0})
forth_swap = on_vm Vm.swap

unfoldable pub forth_over : Action (Unit {0})
forth_over = on_vm Vm.over

unfoldable pub forth_primitive_abort : Action (Unit {0})
forth_primitive_abort = forth_abort
