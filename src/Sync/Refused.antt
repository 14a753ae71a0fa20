-- ===== src/Sync/Refused.antt =====
-- The handler of an upload (internal/handler/pos/sync_handler.go, Upload).
use service_api.Base.{ℕ, ◌≡◌, refl, arith, Bool, [], ◌∷◌, List, String}
use service_api.Apperror.{AppError, err}
use service_api.External.{External}
use service_api.Store.{World}
use service_api.Billing.{check_transaction_limit, get_subscription_info}
use service_api.Sync.Upload.{Entry, Session, Month, handle_upload}
use service_api.Sync.Answers.{upload_totals}

check_transaction_limit_reads :
    (tenant_id period_start : ℕ) (w : World)
    → (check_transaction_limit tenant_id period_start w).1.tables ≡ w.tables
unfolding check_transaction_limit get_subscription_info
check_transaction_limit_reads tenant_id period_start w = ground arith

-- However statements fail, an upload that is answered with an error, for want of transactions or of
-- an outlet, over the limit of the plan, or where the limit cannot be read, has changed no row.
pub handle_upload_refused :
    (ext : External) (notes : ℕ → String) (injected : Bool) (m : Month) (s : Session)
    (tenant_id : ℕ) (es : List Entry) (w : World) {x : AppError}
    → (handle_upload ext notes injected m s tenant_id es w).0 ≡ err x
    → (handle_upload ext notes injected m s tenant_id es w).1.tables ≡ w.tables
unfolding handle_upload
handle_upload_refused ext notes injected m s tenant_id [] w refused = refl
handle_upload_refused ext notes injected m s tenant_id (e ∷ es) w refused =
    let w' = (check_transaction_limit tenant_id m.first_day w).1 in
    let outlet_id = e.upload.row.outlet_id in
    let (result, answered, received, skipped, stored) =
      upload_totals ext notes injected s tenant_id outlet_id (e ∷ es) w' in
    let reads = check_transaction_limit_reads tenant_id m.first_day w in ground arith
