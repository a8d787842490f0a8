-- ===== src/Prelude/Tables.antt =====
-- Arrays as functions of an index, lists measured by native numbers, and checks over a range.
use Prim.Native.Nat.{ℕ, zero, suc, ◌<◌}
use mathlib.Core.Path.{◌≡◌}
use mathlib.Core.Bool.{Bool, true, ◌&&◌}
use mathlib.Core.List.{List, [], ◌∷◌}
use native.Mathlib.Omega.{arith}
use u_forth.Prelude.Tests.{◌==◌, if◌then◌else◌}

-- `a[i] = v` for an array that is a function of its index.
abbrev pub update : (ℕ → ℕ) → ℕ → ℕ → ℕ → ℕ
update f i v k = if k == i then v else f k

-- A test that holds of every number below a bound, by evaluation.
module _ (p : ℕ → Bool) where
  unfoldable pub all_below : ℕ → Bool
  all_below zero = true
  all_below (suc k) = all_below k && p k

  pub all_below_sound : {k i : ℕ} → all_below k ≡ true → i < k → p i ≡ true
  unfolding all_below
  all_below_sound {k = zero} e h = absurd (omega arith)
  all_below_sound {k = suc k} {i = i} e h = ground (arith, all_below_sound {k = k} {i = i})

module _ {ℓ} {A : Type ℓ} where
  abbrev pub length : List A → ℕ
  length [] = 0
  length (x ∷ xs) = suc (length xs)

  abbrev pub get_or : List A → ℕ → A → A
  get_or [] i d = d
  get_or (x ∷ xs) zero d = x
  get_or (x ∷ xs) (suc i) d = get_or xs i d

  abbrev pub drop : ℕ → List A → List A
  drop zero xs = xs
  drop (suc n) [] = []
  drop (suc n) (x ∷ xs) = drop n xs
