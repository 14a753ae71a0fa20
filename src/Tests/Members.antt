-- ===== src/Tests/Members.antt =====
-- Members: their points, their tier, and the one who referred them.
use service_api.Base.{
  ◌*◌, ◌/◌, ◌%◌, ◌≡◌, ◌⊎◌, refl, arith, none, some, pos, ◌-ℤ◌, ◌≤ℤ◌, ◌<ℤ◌, find_where, update_where,
}
use service_api.Apperror.{ok}
use service_api.Domain.Orders.{received}
use service_api.Domain.Payments.{pending}
use service_api.Domain.Members.{silver, Member}
use service_api.Store.{World, fails, rest}
use service_api.Member.{
  find_member, with_spending, with_tier, without_points, redeem_points, check_points, deduct_points,
  award_referral_points,
}
use service_api.Member.Loyalty.{redeem_points_exact, redeem_points_race}
use service_api.Member.Referral.{award_again, award_referral_points_once}
use service_api.Tests.Data.{member, world}

abbrev start : World
start = world received pending

abbrev upgraded : Member
upgraded = with_tier silver (pos 5) (with_spending (pos 100000) (member 1 (pos 250) (some 2)))

redeem_points_exact_example :
    (pos 0 <ℤ pos 200)
    × (200 % 100 ≡ 0)
    × (pos 200 ≤ℤ pos 250)
    × (pos 2000 ≡ pos (10 * 200))
    × (pos 50 ≡ pos 250 -ℤ pos 200)
    × (find_member 1 (redeem_points 5 1 (pos 200) start).1.tables
        ≡ some (without_points (pos 200) (member 1 (pos 250) (some 2))))
    × (find_member 2 (redeem_points 5 1 (pos 200) start).1.tables ≡ some (member 2 (pos 0) none))
unfolding redeem_points check_points deduct_points find_where update_where ◌-ℤ◌ fails rest
redeem_points_exact_example =
    redeem_points_exact 5 1 2 (pos 200) (pos 2000) (pos 50) start {m = member 1 (pos 250) (some 2)}
      refl (omega arith) refl

redeem_points_race_example :
    let m = member 1 (pos 250) (some 2) in
    let (first, w1) = check_points 1 200 start in
    let (second, w2) = check_points 1 200 w1 in
    let (paid, w3) = deduct_points 5 1 200 (pos 250) w2 in
    let (again, w4) = deduct_points 5 1 200 (pos 250) w3 in
    (first ≡ ok (pos 250))
    × (second ≡ ok (pos 250))
    × (paid ≡ ok (pos (200 / 100 * 1000), pos 250 -ℤ pos 200))
    × (again ≡ paid)
    × (find_member 1 w4.tables ≡ some (without_points (pos 200) (without_points (pos 200) m)))
    × ((without_points (pos 200) (without_points (pos 200) m)).total_points <ℤ pos 0)
unfolding find_where
redeem_points_race_example =
    redeem_points_race 5 1 200 start {m = member 1 (pos 250) (some 2)} refl refl (omega arith)
      (omega arith)

award_referral_points_once_example :
    let w1 = (award_referral_points 1 start).1 in
    (w1.tables ≡ start.tables) ⊎ ((award_again 1 3 w1).tables ≡ w1.tables)
award_referral_points_once_example = award_referral_points_once 1 3 start
