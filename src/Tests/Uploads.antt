-- ===== src/Tests/Uploads.antt =====
-- Uploads: of a transaction that is stored already and of a new one, both for the same member.
use service_api.Base.{
  ◌<◌, ◌⊎◌, ℕ, ◌+◌, ◌≡◌, refl, arith, true, some, List, [], ◌∷◌, String, pos, find_where,
  count_where,
}
use service_api.Apperror.{ok, validation}
use service_api.Domain.Orders.{received}
use service_api.Domain.Payments.{pending}
use service_api.Domain.Transactions.{TxUpload}
use service_api.Domain.Sync.{SyncUploadResult}
use service_api.Store.{Tables, calm}
use service_api.Order.System.{OneOrderPerTransaction}
use service_api.Sync.{Entry, uploaded_row, Session, Month, upload, handle_upload}
use service_api.Sync.Totals.{upload-OneOrderPerTransaction}
use service_api.Sync.Answers.{upload_totals}
use service_api.Sync.Stored.{
  StoredAs, upsert_rows, upload_exact, upload_keeps_stored, upload_stores_new,
}
use service_api.Sync.Spending.{upload_spending}
use service_api.Sync.Spent.{Spent}
use service_api.Sync.Refused.{handle_upload_refused}
use service_api.Tests.Data.{plain, call, transaction, member, some_rows}
use service_api.Tests.Data.{upload as sale}

abbrev sale_to_member : ℕ → TxUpload
sale_to_member id = record (sale id) {
  row = record (transaction id (pos 40000)) { member_id = some 1 };
}

abbrev entries : List Entry
entries =
    record { call = call; upload = sale_to_member 1 }
    ∷ record { call = call; upload = sale_to_member 12 }
    ∷ []

abbrev rows : Tables
rows = some_rows received pending

abbrev session : Session
session = record { session_id = 20; started = 49; now = 51; completed = 52 }

abbrev notes : ℕ → String
notes n = "Auto-deduct"

abbrev month : Month
month = record { usage_id = 21; first_day = 1; last_day = 30 }

one_each : OneOrderPerTransaction (calm rows)
unfolding count_where
one_each tx = ground arith

upload_totals_example :
    let w' = (upload plain notes true session 5 1 entries (calm rows)).1 in
    (x : SyncUploadResult) × ((upload plain notes true session 5 1 entries (calm rows)).0 ≡ ok x)
    × (x.received ≡ 2)
    × (x.inserted + x.skipped ≡ x.received)
    × (((x.inserted ≡ x.received)
          × (w'.tables.transactions
              ≡ upsert_rows 51 5 1 (sale_to_member 1 ∷ sale_to_member 12 ∷ []) rows.transactions))
        ⊎ ((x.inserted < x.received) × (w'.tables.transactions ≡ rows.transactions)))
upload_totals_example = upload_totals plain notes true session 5 1 entries (calm rows)

upload-OneOrderPerTransaction_example :
    OneOrderPerTransaction (upload plain notes true session 5 1 entries (calm rows)).1
upload-OneOrderPerTransaction_example =
    upload-OneOrderPerTransaction plain notes true session 5 1 entries (calm rows) one_each

upload_exact_example :
    let (r, w') = upload plain notes true session 5 1 entries (calm rows) in
    (r ≡ ok (record { received = 2; inserted = 2; skipped = 0 }))
    × (w'.tables.transactions
        ≡ upsert_rows 51 5 1 (sale_to_member 1 ∷ sale_to_member 12 ∷ []) rows.transactions)
upload_exact_example = upload_exact plain notes true session 5 1 entries rows

upload_keeps_stored_example :
    StoredAs 1
      (transaction 1 (pos 40000))
      (upload plain notes true session 5 1 entries (calm rows)).1.tables
unfolding find_where
upload_keeps_stored_example =
    upload_keeps_stored plain notes true session 5 1 entries (calm rows) 1
      {x = transaction 1 (pos 40000)} refl

upload_stores_new_example :
    StoredAs 12
      (uploaded_row 51 5 1 (sale_to_member 12))
      (upload plain notes true session 5 1 entries (calm rows)).1.tables
unfolding find_where
upload_stores_new_example =
    upload_stores_new plain notes true session 5 1 entries rows 12 {u = sale_to_member 12} refl refl

upload_spending_example :
    Spent 1
      (400000 + 80000)
      (upload plain notes true session 5 1 entries (calm rows)).1.tables.members
unfolding find_where
upload_spending_example =
    upload_spending plain notes true session 5 1 entries rows 1 400000 (refl, (refl, tt))
      (omega arith) (member 1 (pos 250) (some 2), refl, refl)

handle_upload_refused_example :
    (handle_upload plain notes true month session 5 [] (calm rows)).1.tables ≡ rows
unfolding handle_upload
handle_upload_refused_example =
    handle_upload_refused plain notes true month session 5 [] (calm rows)
      {x = validation "transactions array is required"} refl
