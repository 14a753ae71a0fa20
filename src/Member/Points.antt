-- ===== src/Member/Points.antt =====
-- `UpdateSpending`, `calculateTier`, `AwardReferralPoints`, `RedeemPoints` and `AwardPoints` of
-- internal/service/member_service.go.
use service_api.Base.{
  ℕ, ◌*◌, ◌/◌, ◌%◌, Bool, true, false, ◌&&◌, not, Option, none, some, ◌∷◌, [], ◌++◌, ◌==◌,
  if◌then◌else◌, ℤ, pos, negsuc, ◌+ℤ◌, ◌-ℤ◌, ltb_ℤ, leb_ℤ, fits_int4, fits_int8, find_where,
  update_where,
}
use service_api.Apperror.{not_found, validation, internal}
use service_api.Domain.Members.{Tier, bronze, silver, gold, platinum, Member}
use service_api.Store.{
  Tables, Db, attempt, query_row, pure, raise, or_raise, branch, case_option, ◌>>=◌, ◌>>◌,
}

abbrev pub has_id : ℕ → Member → Bool
has_id id m = m.id == id

abbrev pub find_member : ℕ → Tables → Option Member
find_member id t = find_where (has_id id) t.members

-- `UPDATE members SET ... WHERE id = $n`
abbrev pub update_member : ℕ → (Member → Member) → Tables → Tables
update_member id f t = record t { members = update_where (has_id id) f t.members }

-- `calculateTier`
unfoldable pub calculate_tier : ℤ → Tier × ℤ
calculate_tier total_spending =
    if leb_ℤ (pos 5000000) total_spending
    then (platinum, pos 15)
    else if leb_ℤ (pos 2000000) total_spending
    then (gold, pos 10)
    else if leb_ℤ (pos 500000) total_spending
    then (silver, pos 5)
    else (bronze, pos 0)

unfoldable pub tier_eq : Tier → Tier → Bool
tier_eq bronze bronze = true
tier_eq silver silver = true
tier_eq gold gold = true
tier_eq platinum platinum = true
tier_eq _ _ = false

abbrev pub with_spending : ℤ → Member → Member
with_spending amount m = record m { total_spending = m.total_spending +ℤ amount }

abbrev pub with_tier : Tier → ℤ → Member → Member
with_tier tier discount m = record m { tier = tier; discount_percent = discount }

abbrev pub with_points : ℤ → Member → Member
with_points n m = record m { total_points = m.total_points +ℤ n }

abbrev pub without_points : ℤ → Member → Member
without_points n m = record m { total_points = m.total_points -ℤ n }

-- `UPDATE members SET total_spending = total_spending + $1 ... RETURNING`: a sum that is no BIGINT
-- is an error of the statement.
abbrev pub add_spending : ℕ → ℤ → Tables → Option (Option Member × Tables)
add_spending id amount t = elim (find_member id t) [
  | none ↦ some (none, t)
  | some m ↦
      if fits_int8 (m.total_spending +ℤ amount)
      then some (some (with_spending amount m), update_member id (with_spending amount) t)
      else none
]

-- `UPDATE members SET total_points = total_points + $1`: a sum that is no INT is an error.
abbrev pub add_points : ℕ → ℤ → Tables → Option (Unit {0} × Tables)
add_points id n t = elim (find_member id t) [
  | none ↦ some (tt, t)
  | some m ↦
      if fits_int4 n && fits_int4 (m.total_points +ℤ n)
      then some (tt, update_member id (with_points n) t)
      else none
]

-- `UpdateSpending`
unfoldable pub update_spending : ℕ → ℤ → Db Member
update_spending id amount = do
  row ← attempt (add_spending id amount) >>= or_raise (internal "failed to update member spending")
  m ← or_raise (internal "failed to update member spending") row
  let new_tier = (calculate_tier m.total_spending).0
  let new_discount = (calculate_tier m.total_spending).1
  branch (tier_eq new_tier m.tier) (pure m) (do
    attempt (λ t. some (tt, update_member id (with_tier new_tier new_discount) t))
        >>= or_raise (internal "failed to upgrade tier")
    pure (with_tier new_tier new_discount m))

-- What `AwardReferralPoints` reads of the member.
abbrev pub referrer : Member → Option ℕ
referrer m = if m.has_first_transaction then none else m.referred_by_member_id

abbrev pub mark_first : Member → Member
mark_first m = record m { has_first_transaction = true }

-- The two updates, once the member is known to be referred and at the first transaction.
unfoldable pub award_referrer : ℕ → ℕ → Db (Unit {0})
award_referrer id referred_by = do
  marked ← attempt (λ t. some (tt, update_member id mark_first t))
  case_option marked (pure tt) (λ _. attempt (add_points referred_by (pos 100)) >> pure tt)

-- `AwardReferralPoints`: it logs its failures and returns nothing.
unfoldable pub award_referral_points : ℕ → Db (Unit {0})
award_referral_points id = do
  row ← attempt (λ t. some (find_member id t, t))
  case_option row (pure tt) (λ found.
      case_option found (pure tt) (λ m. case_option (referrer m) (pure tt) (award_referrer id)))

abbrev pub points_per_thousand_idr : ℕ
points_per_thousand_idr = 100

-- The writes of `RedeemPoints`. The log's failure is not fatal.
unfoldable pub deduct_points : ℕ → ℕ → ℕ → ℤ → Db (ℤ × ℤ)
deduct_points tenant_id id n current = do
  let discount = pos (n / points_per_thousand_idr * 1000)
  attempt (λ t. some (tt, update_member id (without_points (pos n)) t))
      >>= or_raise (internal "failed to deduct points")
  logged ← attempt (λ t. some (
    tt,
    record t {
      point_redemptions =
          t.point_redemptions
          ++ record {
            tenant_id = tenant_id;
            member_id = id;
            points_redeemed = pos n;
            discount_amount = discount;
          }
            ∷ [];
    },
  ))
  pure (discount, current -ℤ pos n)

-- The checks of `RedeemPoints`, on points that are positive: the points that the member holds.
unfoldable pub check_points : ℕ → ℕ → Db ℤ
check_points id n = do
  m ←
      query_row (find_member id) (not_found "member not found")
        (internal "failed to get member points")
  branch (ltb_ℤ m.total_points (pos n)) (raise (validation "insufficient points"))
      (pure m.total_points)

-- `RedeemPoints`: the discount and the points that are left.
unfoldable pub redeem_points : ℕ → ℕ → ℤ → Db (ℤ × ℤ)
redeem_points tenant_id id (negsuc _) = raise (validation "points must be positive")
redeem_points tenant_id id (pos n) =
    branch (n == 0) (raise (validation "points must be positive")) (
      branch (not (n % points_per_thousand_idr == 0))
        (raise (validation "points must be in multiples of 100"))
        (do current ← check_points id n; deduct_points tenant_id id n current))

-- Go's `transactionAmount / 1000` where it is positive, else 0.
abbrev pub points_earned : ℤ → ℕ
points_earned (pos amount) = amount / 1000
points_earned (negsuc _) = 0

-- `AwardPoints`
unfoldable pub award_points : ℕ → ℤ → Db ℤ
award_points id amount = branch (points_earned amount == 0) (pure (pos 0)) (do
  attempt (add_points id (pos (points_earned amount)))
      >>= or_raise (internal "failed to award points")
  pure (pos (points_earned amount)))
