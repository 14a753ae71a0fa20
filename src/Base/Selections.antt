-- ===== src/Base/Selections.antt =====
-- Laws of the rows that a test selects.
use mathlib.Core.Path.{◌≡◌, refl}
use mathlib.Core.Bool.{Bool, true, false}
use mathlib.Core.List.{List, [], ◌∷◌, ◌++◌}
use mathlib.Core.Logic.{inl, inr}
use service_api.Base.Tests.{Bool-cases}
use service_api.Base.Lists.{select_where, update_where}

module _ {ℓ} {A : Type ℓ} where
  -- An update that touches none of the selected rows.
  pub select_where-update_where_other :
      (p q : A → Bool) (f : A → A) (xs : List A)
      → ((y : A) → p y ≡ true → (q y ≡ false) × (q (f y) ≡ false))
      → select_where q (update_where p f xs) ≡ select_where q xs
  unfolding select_where update_where
  select_where-update_where_other p q f [] apart = refl
  select_where-update_where_other p q f (y ∷ xs) apart =
      let ih = select_where-update_where_other p q f xs apart in
      elim (Bool-cases (p y)) [
        | inl e ↦ rw (e, (apart y e).0, (apart y e).1) ih
        | inr e ↦ rw (e, ih) refl
      ]

  -- A new row that is not selected.
  pub select_where-snoc_other :
      (q : A → Bool) (xs : List A) (x : A)
      → q x ≡ false
      → select_where q (xs ++ x ∷ []) ≡ select_where q xs
  unfolding select_where
  select_where-snoc_other q [] x e = rw e refl
  select_where-snoc_other q (y ∷ xs) x e = rw (select_where-snoc_other q xs x e) refl
