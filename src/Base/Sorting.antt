-- ===== src/Base/Sorting.antt =====
-- `ORDER BY`, as insertion sort by a test, and `LIMIT ... OFFSET ...`.
use Prim.Native.Nat.{ℕ, zero, suc}
use mathlib.Core.Bool.{Bool}
use mathlib.Core.Option.{Option, none, some}
use mathlib.Core.List.{List, [], ◌∷◌}
use service_api.Base.Tests.{if◌then◌else◌}
use service_api.Base.Int.{ℤ, pos}

module _ {ℓ} {A : Type ℓ} where
  unfoldable pub insert_by : (A → A → Bool) → A → List A → List A
  insert_by le x [] = x ∷ []
  insert_by le x (y ∷ ys) = let rest = insert_by le x ys in if le x y then x ∷ y ∷ ys else y ∷ rest

  unfoldable pub sort_by : (A → A → Bool) → List A → List A
  sort_by le [] = []
  sort_by le (x ∷ xs) = insert_by le x (sort_by le xs)

  abbrev pub take : ℕ → List A → List A
  take zero xs = []
  take (suc n) [] = []
  take (suc n) (x ∷ xs) = x ∷ take n xs

  abbrev pub drop : ℕ → List A → List A
  drop zero xs = xs
  drop (suc n) [] = []
  drop (suc n) (x ∷ xs) = drop n xs

  -- A negative limit or offset is an error of the statement.
  abbrev pub page_of : ℤ → ℤ → List A → Option (List A)
  page_of (pos limit) (pos offset) xs = some (take limit (drop offset xs))
  page_of _ _ xs = none
