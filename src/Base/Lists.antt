-- ===== src/Base/Lists.antt =====
-- Rows of a table: the list functions behind the WHERE clauses, and their laws.
use Prim.Native.Nat.{ℕ, suc, ◌+◌, ◌≤◌}
use mathlib.Core.Path.{◌≡◌, refl, ap}
use mathlib.Core.Bool.{Bool, true, false}
use mathlib.Core.Option.{Option, none, some}
use mathlib.Core.Logic.{◌⊎◌, inl, inr}
use mathlib.Core.List.{List, [], ◌∷◌, ◌++◌}
use native.Mathlib.Omega.{arith}
use service_api.Base.Tests.{if◌then◌else◌, Bool-cases}

module _ {ℓ} {A : Type ℓ} where
  abbrev pub length : List A → ℕ
  length [] = 0
  length (x ∷ xs) = suc (length xs)

  -- The first row that a test accepts.
  unfoldable pub find_where : (A → Bool) → List A → Option A
  find_where p [] = none
  find_where p (x ∷ xs) = if p x then some x else find_where p xs

  unfoldable pub count_where : (A → Bool) → List A → ℕ
  count_where p [] = 0
  count_where p (x ∷ xs) = (if p x then 1 else 0) + count_where p xs

  unfoldable pub update_where : (A → Bool) → (A → A) → List A → List A
  update_where p f [] = []
  update_where p f (x ∷ xs) = (if p x then f x else x) ∷ update_where p f xs

  unfoldable pub select_where : (A → Bool) → List A → List A
  select_where p [] = []
  select_where p (x ∷ xs) = let rest = select_where p xs in if p x then x ∷ rest else rest

  abbrev pub All {κ} : (A → Type κ) → List A → Type κ
  All P [] = Unit
  All P (x ∷ xs) = P x × All P xs

  pub length-append : (xs ys : List A) → length (xs ++ ys) ≡ length xs + length ys
  length-append [] ys = omega arith
  length-append (x ∷ xs) ys = omega (arith, length-append xs ys)

  pub length-update_where :
      (p : A → Bool) (f : A → A) (xs : List A) → length (update_where p f xs) ≡ length xs
  unfolding update_where
  length-update_where p f [] = refl
  length-update_where p f (x ∷ xs) = ap suc (length-update_where p f xs)

  pub All-append {κ} : (P : A → Type κ) (xs ys : List A) → All P xs → All P ys → All P (xs ++ ys)
  All-append P [] ys h k = k
  All-append P (x ∷ xs) ys h k = (h.0, All-append P xs ys h.1 k)

  pub All-update_where :
      (P : A → Type 0) (p : A → Bool) (f : A → A) (xs : List A)
      → ((x : A) → p x ≡ true → P x → P (f x))
      → All P xs
      → All P (update_where p f xs)
  unfolding update_where
  All-update_where P p f [] keep h = tt
  All-update_where P p f (x ∷ xs) keep h = (
    elim (Bool-cases (p x)) [ inl e ↦ rw e (keep x e h.0) | inr e ↦ rw e h.0 ],
    All-update_where P p f xs keep h.1,
  )

  -- A row that is found passes the test.
  pub find_where_passes :
      (p : A → Bool) (xs : List A) {x : A} → find_where p xs ≡ some x → p x ≡ true
  unfolding find_where
  find_where_passes p [] h = cc
  find_where_passes p (y ∷ xs) {x} h = elim (Bool-cases (p y)) [
    | inl e ↦ let e' : y ≡ x = ground arith in rw (← e') e
    | inr e ↦ find_where_passes p xs (rw e at h)
  ]

  pub find_where-All :
      (P : A → Type 0) (p : A → Bool) (xs : List A) {x : A}
      → All P xs
      → find_where p xs ≡ some x
      → P x
  unfolding find_where
  find_where-All P p [] a h = cc
  find_where-All P p (y ∷ xs) {x} a h = elim (Bool-cases (p y)) [
    | inl e ↦ let e' : y ≡ x = ground arith in rw e' at a.0
    | inr e ↦ find_where-All P p xs a.1 (rw e at h)
  ]

  -- What an update makes of the row that it finds.
  pub find_where-update_where :
      (p : A → Bool) (f : A → A) (xs : List A) {x : A}
      → ((y : A) → p y ≡ true → p (f y) ≡ true)
      → find_where p xs ≡ some x
      → find_where p (update_where p f xs) ≡ some (f x)
  unfolding find_where update_where
  find_where-update_where p f [] keep h = cc
  find_where-update_where p f (y ∷ xs) keep h = elim (Bool-cases (p y)) [
    | inl e ↦ ground (arith, keep y e)
    | inr e ↦ rw (e, e) (find_where-update_where p f xs keep (rw e at h))
  ]

  -- Rows that another test finds are left as they are, where the update touches none of them.
  pub find_where-update_where_other :
      (p q : A → Bool) (f : A → A) (xs : List A)
      → ((y : A) → p y ≡ true → (q y ≡ false) × (q (f y) ≡ false))
      → find_where q (update_where p f xs) ≡ find_where q xs
  unfolding find_where update_where
  find_where-update_where_other p q f [] apart = refl
  find_where-update_where_other p q f (y ∷ xs) apart = elim (Bool-cases (p y)) [
    | inl e ↦ rw (e, (apart y e).1, (apart y e).0) (find_where-update_where_other p q f xs apart)
    | inr e ↦ rw (e, find_where-update_where_other p q f xs apart)
  ]

  pub count_where-append :
      (p : A → Bool) (xs ys : List A)
      → count_where p (xs ++ ys) ≡ count_where p xs + count_where p ys
  unfolding count_where
  count_where-append p [] ys = omega arith
  count_where-append p (x ∷ xs) ys = omega (arith, count_where-append p xs ys)

  -- An update after which no more rows pass a test than before.
  pub count_where-update_where_le :
      (p q : A → Bool) (f : A → A) (xs : List A)
      → ((y : A) → p y ≡ true → q (f y) ≡ true → q y ≡ true)
      → count_where q (update_where p f xs) ≤ count_where q xs
  unfolding count_where update_where
  count_where-update_where_le p q f [] keep = omega arith
  count_where-update_where_le p q f (x ∷ xs) keep =
      ground (arith, keep x, count_where-update_where_le p q f xs keep)

  -- Whatever rows an update touches, the row that another test finds is the old one or its new
  -- version, where the test does not read what the update writes.
  pub find_where-update_where_cases :
      (p q : A → Bool) (f : A → A) (xs : List A) {x : A}
      → ((y : A) → q (f y) ≡ q y)
      → find_where q xs ≡ some x
      → (find_where q (update_where p f xs) ≡ some x)
        ⊎ (find_where q (update_where p f xs) ≡ some (f x))
  unfolding find_where update_where
  find_where-update_where_cases p q f [] keep h = cc
  find_where-update_where_cases p q f (y ∷ xs) {x} keep h = elim (Bool-cases (q y)) [
    | inl e ↦ ground (arith, keep y)
    | inr e ↦
        let ih = find_where-update_where_cases p q f xs {x = x} keep (rw e at h) in
        ground (arith, keep y, ih)
  ]

  -- A row at the end is found if no row before it is.
  pub find_where-snoc :
      (p : A → Bool) (xs : List A) (x : A)
      → find_where p xs ≡ none
      → p x ≡ true
      → find_where p (xs ++ x ∷ []) ≡ some x
  unfolding find_where
  find_where-snoc p [] x h k = rw k
  find_where-snoc p (y ∷ xs) x h k = elim (Bool-cases (p y)) [
    | inl e ↦ ground arith
    | inr e ↦ rw e (find_where-snoc p xs x (rw e at h) k)
  ]

  -- A new row at the end hides none that is found.
  pub find_where-append_row :
      (p : A → Bool) (xs : List A) (y : A) {x : A}
      → find_where p xs ≡ some x
      → find_where p (xs ++ y ∷ []) ≡ some x
  unfolding find_where
  find_where-append_row p [] y h = cc
  find_where-append_row p (z ∷ xs) y {x} h = elim (Bool-cases (p z)) [
    | inl e ↦ ground arith
    | inr e ↦ rw e (find_where-append_row p xs y (rw e at h))
  ]

  -- A new row at the end that a test refuses changes nothing for that test.
  pub find_where-snoc_other :
      (p : A → Bool) (xs : List A) (x : A)
      → p x ≡ false
      → find_where p (xs ++ x ∷ []) ≡ find_where p xs
  unfolding find_where
  find_where-snoc_other p [] x k = rw k refl
  find_where-snoc_other p (y ∷ xs) x k = ground (arith, find_where-snoc_other p xs x k)

  -- What an update makes of the row that a test finds, where the test does not read what the
  -- update writes.
  pub find_where-update_where_exact :
      (p q : A → Bool) (f : A → A) (xs : List A) {x : A}
      → ((y : A) → q (f y) ≡ q y)
      → find_where q xs ≡ some x
      → find_where q (update_where p f xs) ≡ some (if p x then f x else x)
  unfolding find_where update_where
  find_where-update_where_exact p q f [] keep h = cc
  find_where-update_where_exact p q f (y ∷ xs) {x} keep h =
      ground (arith, keep y, find_where-update_where_exact p q f xs {x = x} keep)
