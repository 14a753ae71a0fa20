-- ===== src/Sync/Upload.antt =====
-- `Upload` of internal/service/sync_service.go and of internal/handler/pos/sync_handler.go. The new
-- ids, tokens and readings of the clock of each transaction's order come with the transaction.
use service_api.Base.{
  ℕ, ◌-◌, Bool, true, false, ◌&&◌, Option, none, some, List, [], ◌∷◌, ◌++◌, ◌==◌, ltb, String, pos,
  find_where, update_where, select_where, length,
}
use service_api.Apperror.{validation, ok}
use service_api.Domain.Transactions.{Transaction, TxUpload}
use service_api.Domain.Shifts.{Shift, ShiftTransaction}
use service_api.Domain.Sync.{SyncSession, SyncUploadResult}
use service_api.External.{External}
use service_api.Store.{Tables, Db, attempt, pure, raise, branch, case_option, ◌>>=◌, ◌>>◌}
use service_api.Member.{update_spending, award_referral_points}
use service_api.Order.{Call, create_from_transaction}
use service_api.Shift.{is_open}
use service_api.Billing.{check_transaction_limit, increment_usage}
use service_api.Sync.Batch.{Statement, send_batch, successes}
use service_api.Sync.Stock.{auto_deduct}

-- A transaction with what its order is given from outside.
pub record Entry : Type 0 where
  pub call : Call
  pub upload : TxUpload

abbrev pub uploads : List Entry → List TxUpload
uploads [] = []
uploads (e ∷ es) = e.upload ∷ uploads es

abbrev pub has_tx_id : ℕ → Transaction → Bool
has_tx_id id x = x.id == id

-- The row of the INSERT: the tenant and the outlet are those of the session.
abbrev pub uploaded_row : ℕ → ℕ → ℕ → TxUpload → Transaction
uploaded_row now tenant_id outlet_id x = record (x.row) {
  tenant_id = tenant_id;
  outlet_id = outlet_id;
  synced_at = some now;
}

-- `DO UPDATE SET status = EXCLUDED.status, synced_at = EXCLUDED.synced_at`
abbrev pub resync : ℕ → TxUpload → Transaction → Transaction
resync now x old = record old { status = x.row.status; synced_at = some now }

-- `INSERT INTO transactions ... ON CONFLICT (id) DO UPDATE`
abbrev pub upsert_transaction : ℕ → ℕ → ℕ → TxUpload → Statement
upsert_transaction now tenant_id outlet_id x t =
    elim (find_where (has_tx_id x.row.id) t.transactions) [
      | none ↦ some (
        tt,
        record t { transactions = t.transactions ++ uploaded_row now tenant_id outlet_id x ∷ [] },
      )
      | some _ ↦ some (
        tt,
        record t { transactions = update_where (has_tx_id x.row.id) (resync now x) t.transactions },
      )
    ]

abbrev pub upsert_statements : ℕ → ℕ → ℕ → List TxUpload → List Statement
upsert_statements now tenant_id outlet_id [] = []
upsert_statements now tenant_id outlet_id (x ∷ xs) =
    upsert_transaction now tenant_id outlet_id x ∷ upsert_statements now tenant_id outlet_id xs

-- The open shifts of the outlet; a query that fails gives none.
abbrev pub open_shifts : ℕ → Tables → List Shift
open_shifts outlet_id t = select_where (λ s. s.outlet_id == outlet_id && is_open s.status) t.shifts

-- The map from cashiers to shifts, read at one cashier: the last row counts.
abbrev pub shift_of : ℕ → List Shift → Option ℕ
shift_of cashier_id [] = none
shift_of cashier_id (s ∷ ss) = elim (shift_of cashier_id ss) [
  | some id ↦ some id
  | none ↦ elim (s.cashier_id == cashier_id) [ true ↦ some s.id | false ↦ none ]
]

-- The shift of a transaction: the one that the till names, else the cashier's open one.
abbrev pub linked_shift : List Shift → TxUpload → Option ℕ
linked_shift shifts x = elim x.shift_id [
  | some id ↦ some id
  | none ↦ shift_of x.row.created_by shifts
]

abbrev pub is_link : ℕ → ℕ → ShiftTransaction → Bool
is_link shift_id tx_id l = l.shift_id == shift_id && l.transaction_id == tx_id

-- `INSERT INTO shift_transactions ... ON CONFLICT DO NOTHING`: both rows that it refers to exist.
abbrev pub insert_link : ℕ → ℕ → Statement
insert_link shift_id tx_id t = elim (find_where (λ s. s.id == shift_id) t.shifts) [
  | none ↦ none
  | some _ ↦ elim (find_where (has_tx_id tx_id) t.transactions) [
    | none ↦ none
    | some _ ↦ elim (find_where (is_link shift_id tx_id) t.shift_transactions) [
      | some _ ↦ some (tt, t)
      | none ↦ some (
        tt,
        record t {
          shift_transactions =
              t.shift_transactions ++ record { shift_id = shift_id; transaction_id = tx_id } ∷ [];
        },
      )
    ]
  ]
]

-- A transaction with no shift is passed over.
abbrev pub add_link : Option ℕ → ℕ → List Statement → List Statement
add_link none tx_id fs = fs
add_link (some shift_id) tx_id fs = insert_link shift_id tx_id ∷ fs

abbrev pub link_statements : List Shift → List TxUpload → List Statement
link_statements shifts [] = []
link_statements shifts (x ∷ xs) =
    add_link (linked_shift shifts x) x.row.id (link_statements shifts xs)

abbrev pub batch_of : List Statement → Db (List Bool)
batch_of fs w = let (reports, w') = send_batch fs w in (ok reports, w')

-- A call whose error is logged and passed over.
abbrev pub ignore : {A : Type 0} → Db A → Db (Unit {0})
ignore m w = let (r, w') = m w in (ok tt, w')

unfoldable pub create_orders : External → ℕ → List Entry → Db (Unit {0})
create_orders ext tenant_id [] = pure tt
create_orders ext tenant_id (e ∷ es) =
    ignore (create_from_transaction ext e.call tenant_id e.upload.row.created_by e.upload)
    >> create_orders ext tenant_id es

-- The spending and the referral of one transaction's member.
unfoldable pub credit_member : TxUpload → Db (Unit {0})
credit_member x =
    case_option x.row.member_id (pure tt)
      (λ m. ignore (update_spending m x.row.total_amount) >> award_referral_points m)

unfoldable pub credit_members : List TxUpload → Db (Unit {0})
credit_members [] = pure tt
credit_members (x ∷ xs) = credit_member x >> credit_members xs

abbrev pub record_session : SyncSession → Tables → Tables
record_session s t = record t {
  office = record (t.office) { sync_sessions = t.office.sync_sessions ++ s ∷ [] };
}

-- What one call is given from outside.
pub record Session : Type 0 where
  pub session_id : ℕ
  pub started : ℕ
  pub now : ℕ
  pub completed : ℕ

abbrev pub new_session : Session → ℕ → ℕ → ℕ → SyncSession
new_session s tenant_id outlet_id n = record {
  id = s.session_id;
  tenant_id = tenant_id;
  outlet_id = outlet_id;
  transaction_count = n;
  started_at = s.started;
  completed_at = s.completed;
}

abbrev pub new_result : ℕ → ℕ → SyncUploadResult
new_result received inserted = record {
  received = received;
  inserted = inserted;
  skipped = received - inserted;
}

-- The links: the open shifts are read once.
unfoldable pub link_shifts : ℕ → List TxUpload → Db (List Bool)
link_shifts outlet_id xs = do
  shifts ← attempt (λ t. some (open_shifts outlet_id t, t))
  case_option shifts (batch_of (link_statements [] xs)) (λ ss. batch_of (link_statements ss xs))

-- What follows the batch of the transactions.
unfoldable pub follow_up :
    External → (ℕ → String) → Bool → Session → ℕ → ℕ → List Entry → Db (Unit {0})
follow_up ext notes injected s tenant_id outlet_id es = do
  link_shifts outlet_id (uploads es)
  create_orders ext tenant_id es
  credit_members (uploads es)
  branch injected (auto_deduct ext notes tenant_id (uploads es)) (pure tt)
  attempt (λ t. some (tt, record_session (new_session s tenant_id outlet_id (length es)) t))
  pure tt

-- `Upload`. `injected` says whether an inventory service is set.
unfoldable pub upload :
    External → (ℕ → String) → Bool → Session → ℕ → ℕ → List Entry → Db SyncUploadResult
upload ext notes injected s tenant_id outlet_id es = do
  reports ← batch_of (upsert_statements s.now tenant_id outlet_id (uploads es))
  follow_up ext notes injected s tenant_id outlet_id es
  pure (new_result (length es) (successes reports))

-- The month of the clock, for the billing: the id of a new row, and the first and the last day.
pub record Month : Type 0 where
  pub usage_id : ℕ
  pub first_day : ℕ
  pub last_day : ℕ

-- The handler, once the request is decoded: the outlet of the first transaction is that of all.
unfoldable pub handle_upload :
    External → (ℕ → String) → Bool → Month → Session → ℕ → List Entry → Db SyncUploadResult
handle_upload ext notes injected m s tenant_id [] =
    raise (validation "transactions array is required")
handle_upload ext notes injected m s tenant_id (e ∷ es) =
    branch (e.upload.row.outlet_id == 0)
      (raise (validation "outlet_id is required in transactions"))
      (do
        check_transaction_limit tenant_id m.first_day
        result ← upload ext notes injected s tenant_id e.upload.row.outlet_id (e ∷ es)
        branch (ltb 0 result.inserted)
            (ignore (
              increment_usage m.usage_id s.completed tenant_id m.first_day m.last_day
                (pos result.inserted)))
            (pure tt)
        pure result)
