-- ===== src/Outlets/Quota.antt =====
-- The outlets that count towards the limit of a plan (internal/handler/owner/outlet_handler.go with
-- CheckOutletLimit of internal/service/billing_service.go).
use service_api.Base.{
  value_or, ◌≤◌, ◌<◌, Bool-cases, update_where, find_where_passes, sym, ℕ, suc, ◌≡◌, ◌∙◌, ◌⊎◌, inl,
  inr, ap, refl, arith, Bool, true, false, some, List, [], ◌∷◌, ◌++◌, pos, ◌≤ℤ◌, ◌<ℤ◌, count_where,
  count_where-append, find_where,
}
use service_api.Apperror.{Result, ok, err}
use service_api.Domain.Billing.{
  SubscriptionPlan, SubscriptionInfo, Outlet, CreateOutletRequest, UpdateOutletRequest,
}
use service_api.Store.{>>=-eq-ok, World, fails, rest}
use service_api.Billing.{active_outlet, get_subscription_info, check_outlet_limit}
use service_api.Billing.Limits.{outlets_of, plan_of}
use service_api.Outlets.Calls.{
  new_outlet, create_outlet, owner_create, outlet_id_is, get_outlet, merge_outlet, with_outlet,
  update_outlet,
}

-- The information that is answered is of the tables, which stay.
get_subscription_info_done :
    (tenant_id period_start : ℕ) (w : World) {i : SubscriptionInfo}
    → (get_subscription_info tenant_id period_start w).0 ≡ ok i
    → (plan_of tenant_id w.tables ≡ some i.plan)
      × (i.outlets_used ≡ pos (outlets_of tenant_id w.tables))
      × ((get_subscription_info tenant_id period_start w).1.tables ≡ w.tables)
unfolding get_subscription_info
get_subscription_info_done tenant_id period_start w {i} done =
    (ground arith, ground arith, ground arith)

-- The limit lets a call through only below the maximum, or where there is none.
check_outlet_limit_done :
    (tenant_id period_start : ℕ) (w : World)
    → (check_outlet_limit tenant_id period_start w).0 ≡ ok tt
    → ((p : SubscriptionPlan) × (plan_of tenant_id w.tables ≡ some p)
        × ((p.max_outlets ≤ℤ pos 0) ⊎ (pos (suc (outlets_of tenant_id w.tables)) ≤ℤ p.max_outlets)))
      × ((check_outlet_limit tenant_id period_start w).1.tables ≡ w.tables)
unfolding check_outlet_limit
check_outlet_limit_done tenant_id period_start w done =
    by_info (get_subscription_info tenant_id period_start w)
      (λ i. get_subscription_info_done tenant_id period_start w {i = i}) refl
  where
    by_info :
        (p : Result SubscriptionInfo × World)
        → ((i : SubscriptionInfo)
            → p.0 ≡ ok i
            → (plan_of tenant_id w.tables ≡ some i.plan)
              × (i.outlets_used ≡ pos (outlets_of tenant_id w.tables))
              × (p.1.tables ≡ w.tables))
        → get_subscription_info tenant_id period_start w ≡ p
        → ((p : SubscriptionPlan) × (plan_of tenant_id w.tables ≡ some p)
            × ((p.max_outlets ≤ℤ pos 0)
                ⊎ (pos (suc (outlets_of tenant_id w.tables)) ≤ℤ p.max_outlets)))
          × ((check_outlet_limit tenant_id period_start w).1.tables ≡ w.tables)
    by_info (err x, w') reads e = ground arith
    by_info (ok i, w') reads e =
        let (plan, used, same) = reads i refl in ((i.plan, plan, ground arith), ground arith)

create_outlet_done :
    (new_id created updated tenant_id : ℕ) (req : CreateOutletRequest) (w : World) {o : Outlet}
    → (create_outlet new_id created updated tenant_id req w).0 ≡ ok o
    → (create_outlet new_id created updated tenant_id req w).1.tables.outlets
      ≡ w.tables.outlets ++ new_outlet new_id created updated tenant_id req ∷ []
unfolding create_outlet
create_outlet_done new_id created updated tenant_id req w {o} done = ground arith

count_own :
    (tenant_id : ℕ) (o : Outlet)
    → active_outlet tenant_id o ≡ true
    → count_where (active_outlet tenant_id) (o ∷ []) ≡ 1
unfolding count_where
count_own tenant_id o own = ground arith

-- An owner who gets an outlet has one active outlet more, and no more than the plan that applies
-- allows, where it has a limit, whichever statements fail.
pub owner_create-within_limit :
    (period_start new_id created updated tenant_id : ℕ) (req : CreateOutletRequest) (w : World)
    {o : Outlet}
    → (owner_create period_start new_id created updated tenant_id req w).0 ≡ ok o
    → let after =
        outlets_of tenant_id
          (owner_create period_start new_id created updated tenant_id req w).1.tables in
      (p : SubscriptionPlan) × (plan_of tenant_id w.tables ≡ some p)
      × (after ≡ suc (outlets_of tenant_id w.tables))
      × ((p.max_outlets ≤ℤ pos 0) ⊎ (pos after ≤ℤ p.max_outlets))
unfolding owner_create
owner_create-within_limit period_start new_id created updated tenant_id req w {o} done =
    let (a, let_through, runs) =
      >>=-eq-ok (check_outlet_limit tenant_id period_start)
        (λ _. create_outlet new_id created updated tenant_id req) w {b = o} done in
    let w1 = (check_outlet_limit tenant_id period_start w).1 in
    let ((p, plan, room), same) = check_outlet_limit_done tenant_id period_start w let_through in
    let made : (create_outlet new_id created updated tenant_id req w1).0 ≡ ok o =
      ap (λ p. p.0) (sym runs) ∙ done in
    let x = new_outlet new_id created updated tenant_id req in
    let rows = create_outlet_done new_id created updated tenant_id req w1 {o = o} made in
    let outlets : (owner_create period_start new_id created updated tenant_id req
          w).1.tables.outlets
        ≡ w.tables.outlets ++ x ∷ [] =
      ap (λ p. p.1.tables.outlets) runs ∙ rows ∙ ap (λ t. t.outlets ++ x ∷ []) same in
    let own : active_outlet tenant_id x ≡ true = ground arith in
    let after : outlets_of tenant_id
          (owner_create period_start new_id created updated tenant_id req w).1.tables
        ≡ suc (outlets_of tenant_id w.tables) =
      ap (count_where (active_outlet tenant_id)) outlets
      ∙ count_where-append (active_outlet tenant_id) w.tables.outlets (x ∷ [])
      ∙ (rw (count_own tenant_id x own) (omega arith)) in
    (p, plan, after, rw after room)

module _ {A : Type 0} where
  -- An update that loses none of the rows that count: the number of them does not fall,
  count_where-update_where_ge :
      (p q : A → Bool) (f : A → A) (xs : List A)
      → ((y : A) → p y ≡ true → q y ≡ true → q (f y) ≡ true)
      → count_where q xs ≤ count_where q (update_where p f xs)
  unfolding count_where update_where
  count_where-update_where_ge p q f [] keep = omega arith
  count_where-update_where_ge p q f (x ∷ xs) keep =
      ground (arith, keep x, count_where-update_where_ge p q f xs keep)

  -- and it grows where a row comes to count.
  count_where-update_where_gt :
      (p q : A → Bool) (f : A → A) (xs : List A) {x : A}
      → ((y : A) → p y ≡ true → q y ≡ true → q (f y) ≡ true)
      → find_where p xs ≡ some x
      → q x ≡ false
      → q (f x) ≡ true
      → count_where q xs < count_where q (update_where p f xs)
  unfolding count_where update_where find_where
  count_where-update_where_gt p q f [] keep h out into = cc
  count_where-update_where_gt p q f (y ∷ xs) {x} keep h out into = elim (Bool-cases (p y)) [
    | inl e ↦
        let same : y ≡ x = ground arith in
        let out' : q y ≡ false = rw same out in
        let into' : q (f y) ≡ true = rw same into in
        ground (arith, count_where-update_where_ge p q f xs keep)
    | inr e ↦ ground (arith, count_where-update_where_gt p q f xs {x = x} keep (rw e at h) out into)
  ]

-- An update that opens a closed outlet adds to the active outlets of its tenant.
update_outlet_reopens :
    (now id : ℕ) (req : UpdateOutletRequest) (w : World) {o r : Outlet}
    → (update_outlet now id req w).0 ≡ ok r
    → req.is_active ≡ some true
    → find_where (outlet_id_is id) w.tables.outlets ≡ some o
    → o.is_active ≡ false
    → outlets_of o.tenant_id w.tables < outlets_of o.tenant_id (update_outlet now id req w).1.tables
unfolding update_outlet get_outlet
update_outlet_reopens now id req w {o} {r} done reopen found closed =
    let is = find_where_passes (outlet_id_is id) w.tables.outlets {x = o} found in
    let same : o.id ≡ id = ground arith in
    let f = with_outlet (merge_outlet now req o) in
    let opens : (merge_outlet now req o).is_active ≡ true =
      ap (λ b. value_or b o.is_active) reopen in
    let rows : (update_outlet now id req w).1.tables.outlets
        ≡ update_where (outlet_id_is id) f w.tables.outlets =
      ground arith in
    let q = active_outlet o.tenant_id in
    rw (ap (count_where q) rows) (
      count_where-update_where_gt (outlet_id_is id) q f w.tables.outlets {x = o}
        (λ y p counts. ground (arith, opens)) found (ground arith) (ground (arith, opens)))

-- Where the statements run, Update opens a closed outlet of a tenant whose plan is used up: it
-- succeeds, and the tenant has more active outlets than the plan that applies allows.
pub update_outlet-past_limit :
    (now id : ℕ) (req : UpdateOutletRequest) (w : World) {o : Outlet} {p : SubscriptionPlan}
    → w.script ≡ []
    → req.is_active ≡ some true
    → find_where (outlet_id_is id) w.tables.outlets ≡ some o
    → o.is_active ≡ false
    → plan_of o.tenant_id w.tables ≡ some p
    → p.max_outlets ≡ pos (outlets_of o.tenant_id w.tables)
    → let (r, w') = update_outlet now id req w in
      (r ≡ ok (merge_outlet now req o))
      × (plan_of o.tenant_id w'.tables ≡ some p)
      × (p.max_outlets <ℤ pos (outlets_of o.tenant_id w'.tables))
unfolding update_outlet get_outlet fails rest
update_outlet-past_limit now id req w {o} {p} quiet reopen found closed plan full =
    let done : (update_outlet now id req w).0 ≡ ok (merge_outlet now req o) = ground arith in
    let more =
      update_outlet_reopens now id req w {o = o} {r = merge_outlet now req o} done reopen found
        closed in
    (done, ground arith, rw full (omega (arith, more)))
