-- ===== src/Member/Loyalty.antt =====
-- Points are redeemed and awarded exactly (internal/service/member_service.go, RedeemPoints and
-- AwardPoints).
use service_api.Base.{
  ℕ, ◌+◌, ◌*◌, ◌/◌, ◌%◌, ◌≤◌, ◌<◌, ◌≡◌, ◌≢◌, refl, true, false, some, [], ℤ, pos, negsuc, pos_part,
  ◌+ℤ◌, ◌-ℤ◌, -ℤ_parts, ◌≤ℤ◌, ◌<ℤ◌, arith, find_where-update_where, find_where-update_where_other,
  update_where,
}
use service_api.Apperror.{AppError, ok, err}
use service_api.Domain.Members.{Member}
use service_api.Store.{World, fails, rest}
use service_api.Member.Points.{
  has_id, find_member, with_points, without_points, points_earned, check_points, deduct_points,
  redeem_points, award_points,
}

-- An update of one member leaves every other member as it was.
pub update_other :
    (i j : ℕ) (f : Member → Member)
    → ((y : Member) → (f y).id ≡ y.id)
    → i ≢ j
    → (y : Member) → has_id i y ≡ true
    → (has_id j y ≡ false) × (has_id j (f y) ≡ false)
update_other i j f keep ne y h = ground (arith, keep y)

-- A redemption that succeeds was of a positive multiple of 100 points that the member held; its
-- discount is ten times the points, exactly the points have been taken off the member's row, the
-- remaining points that are returned are those of the row, and no other member's row has changed.
pub redeem_points_exact :
    (tenant_id id j : ℕ) (points discount left : ℤ) (w : World) {m : Member}
    → find_member id w.tables ≡ some m
    → id ≢ j
    → (redeem_points tenant_id id points w).0 ≡ ok (discount, left)
    → (pos 0 <ℤ points)
      × (pos_part points % 100 ≡ 0)
      × (points ≤ℤ m.total_points)
      × (discount ≡ pos (10 * pos_part points))
      × (left ≡ m.total_points -ℤ points)
      × (find_member id (redeem_points tenant_id id points w).1.tables
          ≡ some (without_points points m))
      × (find_member j (redeem_points tenant_id id points w).1.tables ≡ find_member j w.tables)
unfolding redeem_points check_points deduct_points
redeem_points_exact tenant_id id j (negsuc n) discount left w found ne e = cc
redeem_points_exact tenant_id id j (pos n) discount left w {m} found ne e = ground (
  arith,
  find_where-update_where (has_id id) (without_points (pos n)) w.tables.members (λ y h. h) found,
  find_where-update_where_other (has_id id) (has_id j) (without_points (pos n)) w.tables.members
      (update_other id j (without_points (pos n)) (λ y. refl) ne),
)

-- A redemption that is refused has changed no row.
pub redeem_points_refused :
    (tenant_id id : ℕ) (points : ℤ) (w : World) {e : AppError}
    → (redeem_points tenant_id id points w).0 ≡ err e
    → (redeem_points tenant_id id points w).1.tables ≡ w.tables
unfolding redeem_points check_points deduct_points
redeem_points_refused tenant_id id (negsuc n) w h = refl
redeem_points_refused tenant_id id (pos n) w h = ground arith

-- An award that succeeds adds to the member's row exactly the points that it returns, which are
-- the whole thousands of a positive amount and 0 otherwise.
pub award_points_exact :
    (id : ℕ) (amount earned : ℤ) (w : World) {m : Member}
    → find_member id w.tables ≡ some m
    → (award_points id amount w).0 ≡ ok earned
    → (1000 * pos_part earned ≤ pos_part amount)
      × (pos_part amount < 1000 * pos_part earned + 1000)
      × (pos 0 ≤ℤ earned)
      × (find_member id (award_points id amount w).1.tables ≡ some (with_points earned m))
unfolding award_points ◌+ℤ◌
award_points_exact id amount earned w {m} found e = ground (
  arith,
  find_where-update_where (has_id id) (with_points (pos (points_earned amount))) w.tables.members
      (λ y h. h) found,
)

-- RedeemPoints reads the balance in one statement and takes the points off in another. Two calls
-- for the same member that both read before either writes, where the balance covers one of them and
-- not both, both succeed, and leave the member with a negative balance.
pub redeem_points_race :
    (tenant_id id n : ℕ) (w : World) {m : Member}
    → find_member id w.tables ≡ some m
    → w.script ≡ []
    → pos n ≤ℤ m.total_points
    → m.total_points <ℤ pos (n + n)
    → let (first, w1) = check_points id n w in
      let (second, w2) = check_points id n w1 in
      let (paid, w3) = deduct_points tenant_id id n m.total_points w2 in
      let (again, w4) = deduct_points tenant_id id n m.total_points w3 in
      (first ≡ ok m.total_points)
      × (second ≡ ok m.total_points)
      × (paid ≡ ok (pos (n / 100 * 1000), m.total_points -ℤ pos n))
      × (again ≡ paid)
      × (find_member id w4.tables ≡ some (without_points (pos n) (without_points (pos n) m)))
      × ((without_points (pos n) (without_points (pos n) m)).total_points <ℤ pos 0)
unfolding check_points deduct_points fails rest
redeem_points_race tenant_id id n w {m} found quiet enough short =
    let once =
      find_where-update_where (has_id id) (without_points (pos n)) w.tables.members (λ y h. h)
        found in
    ground (
      arith,
      once,
      find_where-update_where (has_id id) (without_points (pos n))
          (update_where (has_id id) (without_points (pos n)) w.tables.members) (λ y h. h) once,
      -ℤ_parts m.total_points (pos n),
      -ℤ_parts (m.total_points -ℤ pos n) (pos n),
    )
