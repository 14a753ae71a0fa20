-- ===== src/Member/Spending.antt =====
-- The tier follows the spending (internal/service/member_service.go, UpdateSpending).
use service_api.Base.{
  ℕ, ◌≤◌, ◌≡◌, ◌⊎◌, true, some, ℤ, ◌+ℤ◌, ◌≤ℤ◌, arith, update_where, find_where-update_where,
}
use service_api.Apperror.{ok}
use service_api.Domain.Members.{Tier, bronze, silver, gold, platinum, Member}
use service_api.Store.{World}
use service_api.Member.Points.{
  has_id, find_member, calculate_tier, tier_eq, with_spending, with_tier, update_spending,
}

-- The four tiers in their order.
abbrev pub rank : Tier → ℕ
rank bronze = 0
rank silver = 1
rank gold = 2
rank platinum = 3

-- More spending never means a lower tier, and never a lower discount.
pub calculate_tier_mono :
    (a b : ℤ)
    → a ≤ℤ b
    → (rank (calculate_tier a).0 ≤ rank (calculate_tier b).0)
      × ((calculate_tier a).1 ≤ℤ (calculate_tier b).1)
unfolding calculate_tier
calculate_tier_mono a b h = ground arith

pub tier_eq→≡ : (a b : Tier) → tier_eq a b ≡ true → a ≡ b
unfolding tier_eq
tier_eq→≡ a b h = ground arith

-- When UpdateSpending succeeds, the member's spending has grown by the amount, the tier that it
-- returns is the one of the new total, the discount goes with the tier wherever the tier has
-- changed and is the old one elsewhere, and the row in the table is the member that it returns.
update_spending_tier :
    (id : ℕ) (amount : ℤ) (w : World) {m r : Member}
    → find_member id w.tables ≡ some m
    → (update_spending id amount w).0 ≡ ok r
    → (r.total_spending ≡ m.total_spending +ℤ amount)
      × (r.tier ≡ (calculate_tier r.total_spending).0)
      × ((r.discount_percent ≡ (calculate_tier r.total_spending).1)
          ⊎ ((r.tier ≡ m.tier) × (r.discount_percent ≡ m.discount_percent)))
      × (find_member id (update_spending id amount w).1.tables ≡ some r)
unfolding update_spending
update_spending_tier id amount w {m} {r} found e =
    let m' = with_spending amount m in
    let tier = calculate_tier m'.total_spending in
    let found' =
      find_where-update_where (has_id id) (with_spending amount) w.tables.members (λ y h. h)
        found in
    ground (
      arith,
      found',
      find_where-update_where (has_id id) (with_tier tier.0 tier.1)
          (update_where (has_id id) (with_spending amount) w.tables.members) (λ y h. h) found',
      tier_eq→≡ tier.0 m.tier,
    )
