-- ===== src/Billing/Usage.antt =====
-- `GetSubscriptionInfo`, `IncrementUsage`, `CheckTransactionLimit`, `CheckOutletLimit` and
-- `AssignFreePlan` of internal/service/billing_service.go. The month that the clock is in, its first
-- day and its last, is an argument.
use service_api.Base.{
  ℕ, Bool, true, false, ◌&&◌, not, Option, none, some, [], ◌∷◌, ◌++◌, ◌==◌, ℤ, pos, ◌+ℤ◌, String,
  str_eq, ltb_ℤ, leb_ℤ, fits_int4, find_where, update_where, count_where,
}
use service_api.Apperror.{internal, new_app_error}
use service_api.Domain.Billing.{
  SubscriptionPlan, TenantSubscription, TenantUsage, Outlet, SubscriptionInfo,
}
use service_api.Store.{
  Tables, Db, attempt, select, query_row, pure, raise, or_raise, branch, exec, ◌>>=◌,
}

abbrev pub of_tenant : ℕ → TenantSubscription → Bool
of_tenant tenant_id s = s.tenant_id == tenant_id

-- The key of a usage row: its tenant and its month.
abbrev pub of_period : ℕ → ℕ → TenantUsage → Bool
of_period tenant_id period_start u = u.tenant_id == tenant_id && u.period_start == period_start

abbrev pub active_outlet : ℕ → Outlet → Bool
active_outlet tenant_id o = o.tenant_id == tenant_id && o.is_active

abbrev pub with_slug : String → SubscriptionPlan → Bool
with_slug slug p = str_eq p.slug slug

-- The row of the subscription's plan, or the one with the slug `free`.
abbrev pub find_plan : Option TenantSubscription → Tables → Option SubscriptionPlan
find_plan none t = find_where (with_slug "free") t.plans
find_plan (some sub) t = find_where (λ p. p.id == sub.plan_id) t.plans

abbrev pub transactions_used : Option TenantUsage → ℤ
transactions_used none = pos 0
transactions_used (some u) = u.transaction_count

-- `withinLimits`: a limit of 0 or less is none.
abbrev pub within_limits : SubscriptionPlan → ℤ → ℤ → Bool
within_limits p used outlets =
    not (ltb_ℤ (pos 0) p.max_transactions_per_month && leb_ℤ p.max_transactions_per_month used)
    && not (ltb_ℤ (pos 0) p.max_outlets && ltb_ℤ p.max_outlets outlets)

abbrev pub new_info :
    SubscriptionPlan → Option TenantSubscription → Option TenantUsage → ℕ → SubscriptionInfo
new_info p sub usage outlets = record {
  plan = p;
  subscription = sub;
  usage = usage;
  is_within_limits = within_limits p (transactions_used usage) (pos outlets);
  transaction_limit = p.max_transactions_per_month;
  transactions_used = transactions_used usage;
  outlet_limit = p.max_outlets;
  outlets_used = pos outlets;
}

-- `GetSubscriptionInfo`
unfoldable pub get_subscription_info : ℕ → ℕ → Db SubscriptionInfo
get_subscription_info tenant_id period_start = do
  sub ←
      select (λ t. find_where (of_tenant tenant_id) t.subscriptions)
        (internal "failed to get subscription")
  p ← query_row (find_plan sub) (internal "failed to get plan") (internal "failed to get plan")
  usage ←
      select (λ t. find_where (of_period tenant_id period_start) t.usages)
        (internal "failed to get usage")
  outlets ←
      select (λ t. count_where (active_outlet tenant_id) t.outlets)
        (internal "failed to count outlets")
  pure (new_info p sub usage outlets)

abbrev pub new_usage : ℕ → ℕ → ℕ → ℕ → ℕ → ℤ → TenantUsage
new_usage id now tenant_id period_start period_end tx_count = record {
  id = id;
  tenant_id = tenant_id;
  period_start = period_start;
  period_end = period_end;
  transaction_count = tx_count;
  outlet_count = pos 0;
  updated_at = now;
}

abbrev pub add_usage : ℕ → ℤ → TenantUsage → TenantUsage
add_usage now tx_count u = record u {
  transaction_count = u.transaction_count +ℤ tx_count;
  updated_at = now;
}

-- The upsert: a new row, or the sum in the row that is there; neither where it does not fit the
-- column, an `INTEGER`.
abbrev pub upsert_usage : TenantUsage → Tables → Option (Unit {0} × Tables)
upsert_usage u t = elim (find_where (of_period u.tenant_id u.period_start) t.usages) [
  | none ↦ elim (fits_int4 u.transaction_count) [
    | true ↦ some (tt, record t { usages = t.usages ++ u ∷ [] })
    | false ↦ none
  ]
  | some v ↦
      elim (fits_int4 u.transaction_count
        && fits_int4 (v.transaction_count +ℤ u.transaction_count)) [
          | true ↦ some (
            tt,
            record t {
              usages =
                  update_where (of_period u.tenant_id u.period_start)
                    (add_usage u.updated_at u.transaction_count) t.usages;
            },
          )
          | false ↦ none
        ]
]

-- `IncrementUsage`
unfoldable pub increment_usage : ℕ → ℕ → ℕ → ℕ → ℕ → ℤ → Db (Unit {0})
increment_usage new_id now tenant_id period_start period_end tx_count =
    attempt (upsert_usage (new_usage new_id now tenant_id period_start period_end tx_count))
    >>= or_raise (internal "failed to update usage")

-- `CheckTransactionLimit`
unfoldable pub check_transaction_limit : ℕ → ℕ → Db (Unit {0})
check_transaction_limit tenant_id period_start = do
  info ← get_subscription_info tenant_id period_start
  branch info.is_within_limits (pure tt) (
      raise
        (new_app_error 402 "Batas transaksi bulanan tercapai. Upgrade paket untuk melanjutkan."))

-- `CheckOutletLimit`
unfoldable pub check_outlet_limit : ℕ → ℕ → Db (Unit {0})
check_outlet_limit tenant_id period_start = do
  info ← get_subscription_info tenant_id period_start
  branch (ltb_ℤ (pos 0) info.plan.max_outlets && leb_ℤ info.plan.max_outlets info.outlets_used)
      (raise (new_app_error 402 "Batas outlet tercapai. Upgrade paket untuk menambah outlet."))
      (pure tt)

abbrev pub is_free : SubscriptionPlan → Bool
is_free p = with_slug "free" p && p.is_active

-- `INSERT INTO tenant_subscriptions ... ON CONFLICT (tenant_id) DO NOTHING`
abbrev pub subscribe_once : TenantSubscription → Tables → Tables
subscribe_once s t = elim (find_where (of_tenant s.tenant_id) t.subscriptions) [
  | none ↦ record t { subscriptions = t.subscriptions ++ s ∷ [] }
  | some _ ↦ t
]

-- `AssignFreePlan`. `period_end` is the day in a hundred years.
unfoldable pub assign_free_plan : ℕ → ℕ → ℕ → ℕ → Db (Unit {0})
assign_free_plan new_id now period_end tenant_id = do
  p ←
      query_row (λ t. find_where is_free t.plans) (internal "failed to find free plan")
        (internal "failed to find free plan")
  exec
      (subscribe_once (record {
        id = new_id;
        tenant_id = tenant_id;
        plan_id = p.id;
        current_period_start = now;
        current_period_end = period_end;
      }))
      (internal "failed to assign free plan")
