-- ===== src/Prelude/Sort.antt =====
-- `sorted(xs, key=...)` as insertion, which is stable: `le a b` is `key(a) <= key(b)`.
pub mod Laws
pub mod Batches
use mathlib.Core.List.{List, [], ◌∷◌}
use mathlib.Core.Bool.{Bool, true, false}
use Prim.Native.Nat.{ℕ, suc}
use jepa_btc_forecasting.Prelude.Tests.{if◌then◌else◌, leb}

module _ {A : Type 0} (le : A → A → Bool) where
  -- An element goes in front of those that follow it in the input and have an equal key.
  unfoldable pub insert : A → List A → List A
  insert x [] = x ∷ []
  insert x (y ∷ ys) = if le x y then x ∷ y ∷ ys else y ∷ insert x ys

  unfoldable pub sort : List A → List A
  sort [] = []
  sort (x ∷ xs) = insert x (sort xs)

-- `np.searchsorted(xs, v, side="right")` of a sorted array: how many come before the first above `v`.
unfoldable pub searchsorted : List ℕ → ℕ → ℕ
searchsorted [] v = 0
searchsorted (x ∷ xs) v = let rest = searchsorted xs v in if leb x v then suc rest else 0
