-- ===== src/Billing/Limits.antt =====
-- What the limits of a plan let through, and what counts towards them
-- (internal/service/billing_service.go).
use service_api.Base.{
  ℕ, suc, ◌≡◌, ◌≢◌, ◌↔◌, ◌⊎◌, inl, inr, refl, true, false, Option, none, some, [], ◌∷◌, ◌++◌, ℤ,
  pos, ◌+ℤ◌, ◌≤ℤ◌, ◌<ℤ◌, arith, find_where, count_where, find_where-update_where, find_where-snoc,
  find_where-update_where_other, find_where-snoc_other, Option-cases, +ℤ_parts, eq_of_parts,
}
use service_api.Apperror.{AppError, ok, err, new_app_error}
use service_api.Domain.Billing.{SubscriptionPlan, TenantSubscription, TenantUsage}
use service_api.Store.{World, Tables, fails, rest}
use service_api.Billing.Usage.{
  of_tenant, of_period, active_outlet, find_plan, transactions_used, within_limits, new_info,
  get_subscription_info, new_usage, add_usage, increment_usage, check_transaction_limit,
  check_outlet_limit, is_free, assign_free_plan,
}

-- The transactions and the outlets that count, as the tables hold them.
abbrev pub used : ℕ → ℕ → Tables → ℤ
used tenant_id period_start t =
    transactions_used (find_where (of_period tenant_id period_start) t.usages)

abbrev pub outlets_of : ℕ → Tables → ℕ
outlets_of tenant_id t = count_where (active_outlet tenant_id) t.outlets

-- The plan that applies: the subscription's, or the free one.
abbrev pub plan_of : ℕ → Tables → Option SubscriptionPlan
plan_of tenant_id t = find_plan (find_where (of_tenant tenant_id) t.subscriptions) t

-- A plan that allows these numbers: each limit is none, or is kept.
abbrev pub Allows : SubscriptionPlan → ℤ → ℕ → Type 0
Allows p n outlets =
    ((p.max_transactions_per_month ≤ℤ pos 0) ⊎ (n <ℤ p.max_transactions_per_month))
    × ((p.max_outlets ≤ℤ pos 0) ⊎ (pos outlets ≤ℤ p.max_outlets))

-- The information is read off the tables, where the queries run.
get_subscription_info_reads :
    (tenant_id period_start : ℕ) (w : World) {p : SubscriptionPlan}
    → plan_of tenant_id w.tables ≡ some p
    → w.script ≡ []
    → let (r, w') = get_subscription_info tenant_id period_start w in
      (w'.tables ≡ w.tables)
      × (r
          ≡ ok (
              new_info p
                (find_where (of_tenant tenant_id) w.tables.subscriptions)
                (find_where (of_period tenant_id period_start) w.tables.usages)
                (outlets_of tenant_id w.tables)))
unfolding get_subscription_info fails rest
get_subscription_info_reads tenant_id period_start w {p} has runs = ground arith

abbrev pub too_many_transactions : AppError
too_many_transactions =
    new_app_error 402 "Batas transaksi bulanan tercapai. Upgrade paket untuk melanjutkan."

-- The test of the limits decides what the plan allows.
within_limits-Allows :
    (p : SubscriptionPlan) (n : ℤ) (outlets : ℕ)
    → (within_limits p n (pos outlets) ≡ true) ↔ Allows p n outlets
within_limits-Allows p n outlets = ground arith

-- Where no query fails, CheckTransactionLimit lets a call through exactly if the plan that applies
-- allows the month's transactions and the active outlets, and answers 402 exactly if it does not.
-- It changes no row.
check_transaction_limit_exact :
    (tenant_id period_start : ℕ) (w : World) {p : SubscriptionPlan}
    → plan_of tenant_id w.tables ≡ some p
    → w.script ≡ []
    → let (r, w') = check_transaction_limit tenant_id period_start w in
      let allows =
        Allows p (used tenant_id period_start w.tables) (outlets_of tenant_id w.tables) in
      (w'.tables ≡ w.tables)
      × (((r ≡ ok tt) × allows) ⊎ ((r ≡ err too_many_transactions) × ¬ allows))
unfolding check_transaction_limit
check_transaction_limit_exact tenant_id period_start w {p} has runs = ground (
  arith,
  get_subscription_info_reads tenant_id period_start w {p = p} has runs,
  within_limits-Allows p (used tenant_id period_start w.tables) (outlets_of tenant_id w.tables),
)

abbrev pub too_many_outlets : AppError
too_many_outlets = new_app_error 402 "Batas outlet tercapai. Upgrade paket untuk menambah outlet."

-- Where no query fails, CheckOutletLimit lets a call through exactly if the plan has no limit of
-- outlets or one more active outlet still keeps it, and answers 402 exactly if not. It changes no
-- row.
pub check_outlet_limit_exact :
    (tenant_id period_start : ℕ) (w : World) {p : SubscriptionPlan}
    → plan_of tenant_id w.tables ≡ some p
    → w.script ≡ []
    → let (r, w') = check_outlet_limit tenant_id period_start w in
      let room =
        (p.max_outlets ≤ℤ pos 0) ⊎ (pos (suc (outlets_of tenant_id w.tables)) ≤ℤ p.max_outlets) in
      (w'.tables ≡ w.tables) × (((r ≡ ok tt) × room) ⊎ ((r ≡ err too_many_outlets) × ¬ room))
unfolding check_outlet_limit
check_outlet_limit_exact tenant_id period_start w {p} has runs =
    ground (arith, get_subscription_info_reads tenant_id period_start w {p = p} has runs)

zero_add : (n : ℤ) → pos 0 +ℤ n ≡ n
zero_add n = ground (arith, +ℤ_parts (pos 0) n, eq_of_parts (pos 0 +ℤ n) n)

-- IncrementUsage, where it succeeds, adds the number to what the month has used, in a month with
-- a row and in one without, and leaves every other tenant's and month's usage as it was.
pub increment_usage_adds :
    (new_id now tenant_id start end : ℕ) (n : ℤ) (other other_start : ℕ) (w : World)
    → (increment_usage new_id now tenant_id start end n w).0 ≡ ok tt
    → (other ≢ tenant_id) ⊎ (other_start ≢ start)
    → let t = (increment_usage new_id now tenant_id start end n w).1.tables in
      (used tenant_id start t ≡ used tenant_id start w.tables +ℤ n)
      × (used other other_start t ≡ used other other_start w.tables)
unfolding increment_usage
increment_usage_adds new_id now tenant_id start end n other other_start w done apart =
    let row = new_usage new_id now tenant_id start end n in
    let rows = w.tables.usages in
    elim (Option-cases (find_where (of_period tenant_id start) rows)) [
      | inl absent ↦ ground (
        arith,
        find_where-snoc (of_period tenant_id start) rows row absent,
        find_where-snoc_other (of_period other other_start) rows row,
        zero_add n,
      )
      | inr (u, present) ↦ ground (
        arith,
        find_where-update_where (of_period tenant_id start) (add_usage now n) rows (λ y k. k)
            present,
        find_where-update_where_other (of_period tenant_id start) (of_period other other_start)
            (add_usage now n) rows (λ y k. other_row y k),
      )
    ]
  where
    other_row :
        (y : TenantUsage)
        → of_period tenant_id start y ≡ true
        → (of_period other other_start y ≡ false)
          × (of_period other other_start (add_usage now n y) ≡ false)
    other_row y k = ground arith

-- AssignFreePlan leaves a tenant with one subscription more only where it had none: a tenant that
-- has one keeps it, whatever its plan. Where it succeeds, the tenant has a subscription; and where
-- it had none, the plan of that is a free one that is active.
pub assign_free_plan_once :
    (new_id now period_end tenant_id : ℕ) (w : World)
    → (assign_free_plan new_id now period_end tenant_id w).0 ≡ ok tt
    → let t = (assign_free_plan new_id now period_end tenant_id w).1.tables in
      (s : TenantSubscription) × (find_where (of_tenant tenant_id) t.subscriptions ≡ some s)
      × ((t ≡ w.tables)
          ⊎ ((find_where (of_tenant tenant_id) w.tables.subscriptions ≡ none)
              × ((p : SubscriptionPlan) × (find_where is_free w.tables.plans ≡ some p)
                  × (s.plan_id ≡ p.id))
              × (t.subscriptions ≡ w.tables.subscriptions ++ s ∷ [])))
unfolding assign_free_plan
assign_free_plan_once new_id now period_end tenant_id w done =
    elim (Option-cases (find_where (of_tenant tenant_id) w.tables.subscriptions)) [
      | inr (s, has) ↦ (s, ground arith, ground arith)
      | inl new ↦ elim (Option-cases (find_where is_free w.tables.plans)) [
        | inl missing ↦ ground arith
        | inr (p, free) ↦
            let s : TenantSubscription = record {
              id = new_id;
              tenant_id = tenant_id;
              plan_id = p.id;
              current_period_start = now;
              current_period_end = period_end;
            } in
            (
              s,
              ground (arith, find_where-snoc (of_tenant tenant_id) w.tables.subscriptions s new),
              inr (new, (p, free, refl), ground arith),
            )
      ]
    ]
