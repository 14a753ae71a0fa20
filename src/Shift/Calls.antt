-- ===== src/Shift/Calls.antt =====
-- `OpenShift`, `CloseShift` and `GetCurrentShift` of internal/service/shift_service.go. The unique
-- index of migrations/00018 admits one open shift of a cashier.
use service_api.Base.{
  ℕ, Bool, true, false, ◌&&◌, Option, none, some, [], ◌∷◌, ◌++◌, ◌==◌, ℤ, pos, ◌+ℤ◌, ◌-ℤ◌, wrap64,
  find_where, update_where, count_where,
}
use service_api.Apperror.{not_found, forbidden, conflict, validation, internal}
use service_api.Domain.Shifts.{
  ShiftStatus, opened, closed, Shift, OpenShiftRequest, CloseShiftRequest,
}
use service_api.External.{External}
use service_api.Store.{
  Tables, Db, attempt, select, query_row, pure, raise, or_raise, branch, case_option, ◌>>=◌, ◌>>◌,
}
use service_api.Inventory.{optional_text}
use service_api.Shift.Cash.{cash_amount, revenue_amount, query_sum}

abbrev pub is_open : ShiftStatus → Bool
is_open opened = true
is_open closed = false

abbrev pub has_id : ℕ → Shift → Bool
has_id id s = s.id == id

-- `WHERE cashier_id = $1 AND status = 'open'`
abbrev pub open_of : ℕ → Shift → Bool
open_of cashier_id s = s.cashier_id == cashier_id && is_open s.status

abbrev pub new_shift : ℕ → ℕ → ℕ → ℕ → ℕ → ℤ → Shift
new_shift id now tenant_id outlet_id cashier_id opening_cash = record {
  id = id;
  tenant_id = tenant_id;
  outlet_id = outlet_id;
  cashier_id = cashier_id;
  opening_cash = opening_cash;
  closing_cash = none;
  expected_cash = none;
  cash_difference = none;
  status = opened;
  opened_at = now;
  closed_at = none;
  notes = none;
  created_at = now;
}

-- `INSERT INTO shifts`: `false` is the duplicate that the index refuses.
abbrev pub insert_row : Shift → Tables → Option (Bool × Tables)
insert_row s t = elim (find_where (open_of s.cashier_id) t.shifts) [
  | none ↦ some (true, record t { shifts = t.shifts ++ s ∷ [] })
  | some _ ↦ some (false, t)
]

-- The INSERT of `OpenShift` and the reading of its error.
unfoldable pub insert_shift : Shift → Db Shift
insert_shift s = do
  inserted ← attempt (insert_row s) >>= or_raise (internal "failed to create shift")
  branch inserted (pure s) (raise (conflict "cashier already has an open shift"))

-- `OpenShift`
unfoldable pub open_shift : External → ℕ → ℕ → ℕ → ℕ → OpenShiftRequest → Db Shift
open_shift ext new_id now tenant_id cashier_id req =
    case_option (ext.parse_uuid req.outlet_id) (raise (validation "invalid outlet_id"))
      (λ outlet_id. do
        existing ←
            select (λ t. count_where (open_of cashier_id) t.shifts)
              (internal "failed to check existing shift")
        branch (existing == 0)
            (insert_shift (new_shift new_id now tenant_id outlet_id cashier_id req.opening_cash))
            (raise (conflict "cashier already has an open shift")))

abbrev pub or_zero : Option ℤ → ℤ
or_zero none = pos 0
or_zero (some n) = n

-- The expected cash of the transactions: the cash payments; where that query fails, all the
-- revenue; where both fail, 0.
unfoldable pub expected_cash : External → ℕ → Db ℤ
expected_cash ext shift_id = do
  cash ← attempt (query_sum (cash_amount ext) shift_id)
  case_option cash (do total ← attempt (query_sum revenue_amount shift_id); pure (or_zero total))
      pure

-- The UPDATE of `CloseShift`, on a row.
abbrev pub with_closing : ℕ → ℤ → ℤ → CloseShiftRequest → Shift → Shift
with_closing now expected difference req s = record s {
  closing_cash = some req.closing_cash;
  expected_cash = some expected;
  cash_difference = some difference;
  status = closed;
  closed_at = some now;
  notes = optional_text req.notes;
}

-- `expectedCashTotal` and `cashDifference`, in `int64`.
abbrev pub expected_total : Shift → ℤ → ℤ
expected_total s expected = wrap64 (s.opening_cash +ℤ expected)

abbrev pub cash_difference_of : Shift → ℤ → CloseShiftRequest → ℤ
cash_difference_of s expected req = wrap64 (req.closing_cash -ℤ expected_total s expected)

-- The row that `CloseShift` writes and returns.
abbrev pub closed_shift : ℕ → ℤ → CloseShiftRequest → Shift → Shift
closed_shift now expected req s =
    with_closing now (expected_total s expected) (cash_difference_of s expected req) req s

abbrev pub open_with_id : ℕ → Shift → Bool
open_with_id id s = s.id == id && is_open s.status

-- `CloseShift`
unfoldable pub close_shift : External → ℕ → ℕ → ℕ → CloseShiftRequest → Db Shift
close_shift ext now shift_id cashier_id req = do
  s ←
      query_row (λ t. find_where (open_with_id shift_id) t.shifts)
        (not_found "open shift not found") (internal "failed to get shift")
  branch (s.cashier_id == cashier_id)
      (do
        expected ← expected_cash ext shift_id
        attempt (λ t. some (
          tt,
          record t {
            shifts =
                update_where (has_id shift_id)
                  (with_closing now (expected_total s expected) (cash_difference_of s expected req)
                    req)
                  t.shifts;
          },
        ))
            >>= or_raise (internal "failed to close shift")
        pure (closed_shift now expected req s))
      (raise (forbidden "you can only close your own shift"))

-- `GetCurrentShift`: no open shift is no error.
unfoldable pub get_current_shift : ℕ → Db (Option Shift)
get_current_shift cashier_id =
    select (λ t. find_where (open_of cashier_id) t.shifts) (internal "failed to get current shift")

-- `Close` of internal/handler/pos/shift_handler.go, after its request is read: the cashier's own
-- open shift is the one that is closed.
unfoldable pub close_current : External → ℕ → ℕ → CloseShiftRequest → Db Shift
close_current ext now cashier_id req = do
  current ← get_current_shift cashier_id
  case_option current (raise (not_found "no open shift found"))
      (λ s. close_shift ext now s.id cashier_id req)
