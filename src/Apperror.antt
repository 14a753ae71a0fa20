-- ===== src/Apperror.antt =====
-- internal/pkg/apperror/errors.go: an error with its HTTP status. The wrapped cause, which is
-- logged and never sent, is left out.
use service_api.Base.{ℕ, String}

pub record AppError : Type 0 where
  pub code : ℕ
  pub message : String

abbrev pub new_app_error : ℕ → String → AppError
new_app_error code message = record { code = code; message = message }

abbrev pub not_found : String → AppError
not_found = new_app_error 404

abbrev pub unauthorized : String → AppError
unauthorized = new_app_error 401

abbrev pub forbidden : String → AppError
forbidden = new_app_error 403

abbrev pub conflict : String → AppError
conflict = new_app_error 409

abbrev pub validation : String → AppError
validation = new_app_error 422

abbrev pub internal : String → AppError
internal = new_app_error 500

-- What a service call returns: Go's pair of a value and an `error`.
pub data Result (A : Type 0) : Type 0 where
  ok : A → Result A
  err : AppError → Result A
