-- ===== src/Tests/Shifts.antt =====
-- A shift with one cash payment, closed by its cashier and not by another.
use service_api.Base.{
  ◌≡◌, refl, arith, none, some, ℤ, pos, ◌+ℤ◌, ◌-ℤ◌, wrap64, find_where, count_where,
}
use service_api.Domain.Orders.{received}
use service_api.Domain.Payments.{pending}
use service_api.Domain.Shifts.{CloseShiftRequest, OpenShiftRequest, closed}
use service_api.Store.{World, fails, rest}
use service_api.Shift.{
  payment_type, is_cash, has_cash, cash_amount, sum_linked, query_sum, expected_cash, closed_shift,
  open_with_id, close_shift, open_shift,
}
use service_api.Shift.Closing.{ExpectedCash, close_shift_exact}
use service_api.Shift.OneOpen.{Reach, here, next, opened, OneOpenShift, Reach-OneOpenShift}
use service_api.Tests.Data.{plain, shift, world}

abbrev evening : World
evening = world received pending

abbrev closing : CloseShiftRequest
closing = record { closing_cash = pos 139000; notes = "" }

close_shift_exact_example :
    let r = closed_shift 200 (pos 40000) closing shift in
    (shift.cashier_id ≡ 9)
    × (r.status ≡ closed)
    × (r.closing_cash ≡ some (pos 139000))
    × ((a : ℤ) × (e : ℤ) × (d : ℤ) × ExpectedCash plain 3 evening.tables (rest evening.script) a
        × (e ≡ wrap64 (pos 100000 +ℤ a))
        × (r.expected_cash ≡ some e)
        × (r.cash_difference ≡ some d)
        × (wrap64 (e +ℤ d) ≡ pos 139000))
    × (find_where (open_with_id 3) (close_shift plain 200 3 9 closing evening).1.tables.shifts
        ≡ none)
unfolding close_shift expected_cash query_sum sum_linked cash_amount has_cash is_cash payment_type
    find_where ◌+ℤ◌ ◌-ℤ◌ wrap64 fails rest
close_shift_exact_example =
    close_shift_exact plain 200 3 9 closing evening {s = shift} refl
      {r = closed_shift 200 (pos 40000) closing shift} (omega arith, omega arith) refl

abbrev opening : OpenShiftRequest
opening = record { outlet_id = "u1"; opening_cash = pos 50000 }

abbrev next_day : World
next_day = (open_shift plain 12 300 5 9 opening evening).1

opened_again : Reach plain evening next_day
opened_again = next here (opened 12 300 5 9 opening evening)

one_open : OneOpenShift evening
unfolding count_where
one_open cashier = ground arith

Reach-OneOpenShift_example : OneOpenShift next_day
Reach-OneOpenShift_example =
    Reach-OneOpenShift plain {u = evening} {v = next_day} opened_again one_open
