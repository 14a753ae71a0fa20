-- ===== src/Domain/Shifts.antt =====
-- `Shift` (internal/domain/models.go) and the link table of its transactions.
use service_api.Base.{ℕ, Option, String}
use service_api.Base.{ℤ}

pub data ShiftStatus : Type 0 where
  opened closed : ShiftStatus

pub record Shift : Type 0 where
  pub id : ℕ
  pub tenant_id : ℕ
  pub outlet_id : ℕ
  pub cashier_id : ℕ
  pub opening_cash : ℤ
  pub closing_cash : Option ℤ
  pub expected_cash : Option ℤ
  pub cash_difference : Option ℤ
  pub status : ShiftStatus
  pub opened_at : ℕ
  pub closed_at : Option ℕ
  pub notes : Option String
  pub created_at : ℕ

pub record ShiftTransaction : Type 0 where
  pub shift_id : ℕ
  pub transaction_id : ℕ

pub record OpenShiftRequest : Type 0 where
  pub outlet_id : String
  pub opening_cash : ℤ

pub record CloseShiftRequest : Type 0 where
  pub closing_cash : ℤ
  pub notes : String
