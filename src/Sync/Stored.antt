-- ===== src/Sync/Stored.antt =====
-- The rows of the uploaded transactions (internal/service/sync_service.go, Upload).
use service_api.Base.{
  ℕ, ◌≡◌, ◌∙◌, inl, inr, ap, refl, arith, Bool, true, false, none, some, List, [], ◌∷◌, ◌++◌,
  String, ◌==◌, All, Option-cases, Bool-cases, find_where, update_where,
  find_where-update_where_cases, find_where-append_row, find_where-update_where_other,
  find_where-snoc, find_where-snoc_other, length, suc,
}
use service_api.Apperror.{ok}
use service_api.Domain.Transactions.{Transaction, TxUpload}
use service_api.External.{External}
use service_api.Store.{World, Tables, calm, fails, rest}
use service_api.Sync.Batch.{run_batch, send_batch, successes}
use service_api.Sync.Upload.{
  Entry, uploads, has_tx_id, uploaded_row, resync, upsert_transaction, upsert_statements, Session,
  upload,
}
use service_api.Sync.Frame.{KeepsIf, send_batch_keeps_if}
use service_api.Sync.Totals.{follow_up_frame}

-- The transaction is stored as `x`, but for its status and the time of the last upload.
abbrev pub RowStoredAs : ℕ → Transaction → List Transaction → Type 0
RowStoredAs id x ts =
    (y : Transaction) × (find_where (has_tx_id id) ts ≡ some y)
    × (y ≡ record x { status = y.status; synced_at = y.synced_at })

abbrev pub StoredAs : ℕ → Transaction → Tables → Type 0
StoredAs id x t = RowStoredAs id x t.transactions

abbrev pub is_upload : ℕ → TxUpload → Bool
is_upload id u = u.row.id == id

-- What an upload means for the table: each transaction in turn is added, or replaces the status of
-- the stored one.
abbrev pub upsert_row : ℕ → ℕ → ℕ → TxUpload → List Transaction → List Transaction
upsert_row now tenant_id outlet_id x ts = elim (find_where (has_tx_id x.row.id) ts) [
  | none ↦ ts ++ uploaded_row now tenant_id outlet_id x ∷ []
  | some _ ↦ update_where (has_tx_id x.row.id) (resync now x) ts
]

abbrev pub upsert_rows : ℕ → ℕ → ℕ → List TxUpload → List Transaction → List Transaction
upsert_rows now tenant_id outlet_id [] ts = ts
upsert_rows now tenant_id outlet_id (x ∷ xs) ts =
    upsert_rows now tenant_id outlet_id xs (upsert_row now tenant_id outlet_id x ts)

pub upsert_transaction-eq :
    (now tenant_id outlet_id : ℕ) (x : TxUpload) (t : Tables)
    → upsert_transaction now tenant_id outlet_id x t
      ≡ some (tt, record t { transactions = upsert_row now tenant_id outlet_id x t.transactions })
upsert_transaction-eq now tenant_id outlet_id x t =
    elim (Option-cases (find_where (has_tx_id x.row.id) t.transactions)) [
      | inl new ↦ ground arith
      | inr (old, found) ↦ ground arith
    ]

upsert_row-StoredAs :
    (now tenant_id outlet_id : ℕ) (u : TxUpload) (id : ℕ) (x : Transaction) (ts : List Transaction)
    → RowStoredAs id x ts
    → RowStoredAs id x (upsert_row now tenant_id outlet_id u ts)
upsert_row-StoredAs now tenant_id outlet_id u id x ts (y, there, same) =
    elim (Option-cases (find_where (has_tx_id u.row.id) ts)) [
      | inl new ↦
          let there' =
            find_where-append_row (has_tx_id id) ts (uploaded_row now tenant_id outlet_id u)
              there in
          (y, ground arith, same)
      | inr (old, found) ↦
          elim (find_where-update_where_cases (has_tx_id u.row.id) (has_tx_id id) (resync now u) ts
            (λ z. refl) there) [
              | inl left ↦ (y, ground arith, same)
              | inr new ↦ (resync now u y, ground arith, ground arith)
            ]
    ]

upsert_transaction_keeps :
    (now tenant_id outlet_id : ℕ) (u : TxUpload) (id : ℕ) (x : Transaction)
    → KeepsIf (StoredAs id x) (upsert_transaction now tenant_id outlet_id u)
upsert_transaction_keeps now tenant_id outlet_id u id x t t' ran h =
    let (y, found, same) = upsert_row-StoredAs now tenant_id outlet_id u id x t.transactions h in
    let eq = upsert_transaction-eq now tenant_id outlet_id u t in (y, ground arith, same)

upserts_keep :
    (now tenant_id outlet_id : ℕ) (xs : List TxUpload) (id : ℕ) (x : Transaction)
    → All (KeepsIf (StoredAs id x)) (upsert_statements now tenant_id outlet_id xs)
upserts_keep now tenant_id outlet_id [] id x = tt
upserts_keep now tenant_id outlet_id (u ∷ us) id x = (
  upsert_transaction_keeps now tenant_id outlet_id u id x,
  upserts_keep now tenant_id outlet_id us id x,
)

-- Whatever statements fail, an upload changes no more of a transaction that is stored already than
-- its status and the time of its upload.
pub upload_keeps_stored :
    (ext : External) (notes : ℕ → String) (injected : Bool) (s : Session) (tenant_id outlet_id : ℕ)
    (es : List Entry) (w : World) (id : ℕ) {x : Transaction}
    → find_where (has_tx_id id) w.tables.transactions ≡ some x
    → StoredAs id x (upload ext notes injected s tenant_id outlet_id es w).1.tables
unfolding upload
upload_keeps_stored ext notes injected s tenant_id outlet_id es w id {x} there =
    let fs = upsert_statements s.now tenant_id outlet_id (uploads es) in
    let f = follow_up_frame ext notes injected s tenant_id outlet_id es (send_batch fs w).1 in
    let (y, found, same) =
      send_batch_keeps_if (StoredAs id x) fs w
        (upserts_keep s.now tenant_id outlet_id (uploads es) id x) (x, there, refl) in
    (y, ground arith, same)

run_upserts :
    (now tenant_id outlet_id : ℕ) (start : Tables) (xs : List TxUpload) (t : Tables)
    → let (reports, w') = run_batch start (upsert_statements now tenant_id outlet_id xs) (calm t) in
      (successes reports ≡ length xs)
      × (w'.tables.transactions ≡ upsert_rows now tenant_id outlet_id xs t.transactions)
unfolding run_batch fails rest
run_upserts now tenant_id outlet_id start [] t = (refl, refl)
run_upserts now tenant_id outlet_id start (x ∷ xs) t =
    let ran = upsert_transaction-eq now tenant_id outlet_id x t in
    let t' = record t { transactions = upsert_row now tenant_id outlet_id x t.transactions } in
    let ih = run_upserts now tenant_id outlet_id start xs t' in
    (rw (ran, run_batch) (ap suc ih.0), rw (ran, run_batch) ih.1)

pub length-uploads : (es : List Entry) → length (uploads es) ≡ length es
length-uploads [] = refl
length-uploads (e ∷ es) = ap suc (length-uploads es)

-- Where the statements run, an upload leaves the transactions that inserting or updating each one
-- in turn leaves, and counts all of them as inserted and none as skipped, those too that were
-- stored before.
pub upload_exact :
    (ext : External) (notes : ℕ → String) (injected : Bool) (s : Session) (tenant_id outlet_id : ℕ)
    (es : List Entry) (t : Tables)
    → let (r, w') = upload ext notes injected s tenant_id outlet_id es (calm t) in
      (r ≡ ok (record { received = length es; inserted = length es; skipped = 0 }))
      × (w'.tables.transactions ≡ upsert_rows s.now tenant_id outlet_id (uploads es) t.transactions)
unfolding upload send_batch
upload_exact ext notes injected s tenant_id outlet_id es t =
    let fs = upsert_statements s.now tenant_id outlet_id (uploads es) in
    let w = calm t in
    let (counted, stored) = run_upserts s.now tenant_id outlet_id t (uploads es) t in
    let f = follow_up_frame ext notes injected s tenant_id outlet_id es (send_batch fs w).1 in
    let all : successes (send_batch fs w).0 ≡ length es = counted ∙ length-uploads es in
    (ground arith, ground (arith, f, stored))

upsert_rows-StoredAs :
    (now tenant_id outlet_id : ℕ) (us : List TxUpload) (id : ℕ) (x : Transaction)
    (ts : List Transaction)
    → RowStoredAs id x ts
    → RowStoredAs id x (upsert_rows now tenant_id outlet_id us ts)
upsert_rows-StoredAs now tenant_id outlet_id [] id x ts h = h
upsert_rows-StoredAs now tenant_id outlet_id (u ∷ us) id x ts h =
    upsert_rows-StoredAs now tenant_id outlet_id us id x (upsert_row now tenant_id outlet_id u ts)
      (upsert_row-StoredAs now tenant_id outlet_id u id x ts h)

upsert_row_own :
    (now tenant_id outlet_id id : ℕ) (x : TxUpload) (ts : List Transaction)
    → find_where (has_tx_id id) ts ≡ none
    → (x.row.id == id) ≡ true
    → find_where (has_tx_id id) (upsert_row now tenant_id outlet_id x ts)
      ≡ some (uploaded_row now tenant_id outlet_id x)
upsert_row_own now tenant_id outlet_id id x ts new own =
    let row = uploaded_row now tenant_id outlet_id x in
    let same : x.row.id ≡ id = ground arith in
    let none_yet : find_where (has_tx_id x.row.id) ts ≡ none = rw same new in
    ground (arith, find_where-snoc (has_tx_id id) ts row new own)

upsert_row_other :
    (now tenant_id outlet_id id : ℕ) (x : TxUpload) (ts : List Transaction)
    → find_where (has_tx_id id) ts ≡ none
    → (x.row.id == id) ≡ false
    → find_where (has_tx_id id) (upsert_row now tenant_id outlet_id x ts) ≡ none
upsert_row_other now tenant_id outlet_id id x ts new other =
    let row = uploaded_row now tenant_id outlet_id x in
    elim (Option-cases (find_where (has_tx_id x.row.id) ts)) [
      | inl fresh ↦ ground (arith, find_where-snoc_other (has_tx_id id) ts row other)
      | inr (old, there) ↦
          let same =
            find_where-update_where_other (has_tx_id x.row.id) (has_tx_id id) (resync now x) ts
              (λ y h. ground arith) in
          ground arith
    ]

upsert_rows_new :
    (now tenant_id outlet_id id : ℕ) (xs : List TxUpload) (ts : List Transaction) {u : TxUpload}
    → find_where (has_tx_id id) ts ≡ none
    → find_where (is_upload id) xs ≡ some u
    → RowStoredAs id
        (uploaded_row now tenant_id outlet_id u)
        (upsert_rows now tenant_id outlet_id xs ts)
unfolding find_where
upsert_rows_new now tenant_id outlet_id id [] ts new first = cc
upsert_rows_new now tenant_id outlet_id id (x ∷ xs) ts {u} new first =
    elim (Bool-cases (x.row.id == id)) [
      | inl own ↦
          let same : x ≡ u = ground arith in
          let added = upsert_row_own now tenant_id outlet_id id x ts new own in
          rw (← same) (
            upsert_rows-StoredAs now tenant_id outlet_id xs id
              (uploaded_row now tenant_id outlet_id x) (upsert_row now tenant_id outlet_id x ts)
              (uploaded_row now tenant_id outlet_id x, added, refl))
      | inr other ↦
          upsert_rows_new now tenant_id outlet_id id xs (upsert_row now tenant_id outlet_id x ts)
            {u = u} (upsert_row_other now tenant_id outlet_id id x ts new other) (rw other at first)
    ]

-- Where the statements run, a transaction that was not stored is afterwards, as its first entry in
-- the request, under the tenant of the session and the outlet, but for the status and the time of
-- the upload, which a later entry with the same id may set.
pub upload_stores_new :
    (ext : External) (notes : ℕ → String) (injected : Bool) (s : Session) (tenant_id outlet_id : ℕ)
    (es : List Entry) (t : Tables) (id : ℕ) {u : TxUpload}
    → find_where (has_tx_id id) t.transactions ≡ none
    → find_where (is_upload id) (uploads es) ≡ some u
    → StoredAs id
        (uploaded_row s.now tenant_id outlet_id u)
        (upload ext notes injected s tenant_id outlet_id es (calm t)).1.tables
upload_stores_new ext notes injected s tenant_id outlet_id es t id {u} new first =
    let (y, found, same) =
      upsert_rows_new s.now tenant_id outlet_id id (uploads es) t.transactions {u = u} new first in
    let (answer, stored) = upload_exact ext notes injected s tenant_id outlet_id es t in
    (y, rw stored found, same)
