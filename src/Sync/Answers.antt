-- ===== src/Sync/Answers.antt =====
-- What an upload answers (internal/service/sync_service.go, Upload).
use service_api.Base.{
  ℕ, suc, ◌+◌, ◌<◌, ◌≡◌, ◌⊎◌, inl, inr, ap, refl, arith, Bool, List, [], ◌∷◌, String, Bool-cases,
  length, ◌∙◌,
}
use service_api.Apperror.{ok}
use service_api.Domain.Transactions.{TxUpload}
use service_api.Domain.Sync.{SyncUploadResult}
use service_api.External.{External}
use service_api.Store.{World, Tables, fails, rest}
use service_api.Sync.Batch.{Statement, all_fail, run_batch, send_batch, successes}
use service_api.Sync.Upload.{Entry, uploads, upsert_statements, Session, upload, new_result}
use service_api.Sync.Totals.{follow_up_frame}
use service_api.Sync.Stored.{upsert_row, upsert_rows, upsert_transaction-eq, length-uploads}

successes-all_fail : (fs : List Statement) → successes (all_fail fs) ≡ 0
successes-all_fail [] = refl
successes-all_fail (f ∷ fs) = successes-all_fail fs

-- The batch runs to its end, and each transaction is added or updated; or a statement fails, fewer
-- are reported as done, and the tables are those at the start.
run_upserts_cases :
    (now tenant_id outlet_id : ℕ) (start : Tables) (xs : List TxUpload) (w : World)
    → let (reports, w') = run_batch start (upsert_statements now tenant_id outlet_id xs) w in
      ((successes reports ≡ length xs)
        × (w'.tables.transactions ≡ upsert_rows now tenant_id outlet_id xs w.tables.transactions))
      ⊎ ((successes reports < length xs) × (w'.tables ≡ start))
unfolding run_batch
run_upserts_cases now tenant_id outlet_id start [] w = inl (refl, refl)
run_upserts_cases now tenant_id outlet_id start (x ∷ xs) w = elim (Bool-cases (fails w.script)) [
  | inl failed ↦
      let none_counted = successes-all_fail (upsert_statements now tenant_id outlet_id xs) in
      rw (failed, run_batch) (inr (omega (arith, none_counted), refl))
  | inr runs ↦
      let ran = upsert_transaction-eq now tenant_id outlet_id x w.tables in
      let t = record (w.tables) {
        transactions = upsert_row now tenant_id outlet_id x w.tables.transactions;
      } in
      let w1 : World = record { tables = t; script = rest w.script } in
      elim (run_upserts_cases now tenant_id outlet_id start xs w1) [
        | inl (counted, rows) ↦
            rw (runs, run_batch) (rw (ran, run_batch) (inl (ap suc counted, rows)))
        | inr (fewer, back) ↦
            rw (runs, run_batch) (rw (ran, run_batch) (inr (omega (arith, fewer), back)))
      ]
]

-- Whatever statements fail, an upload is answered with success. All transactions of the request count
-- as received. Either all of them also count as inserted, and each has been added or has updated the
-- stored one; or fewer count as inserted, the others as skipped, and none at all has been stored.
pub upload_totals :
    (ext : External) (notes : ℕ → String) (injected : Bool) (s : Session) (tenant_id outlet_id : ℕ)
    (es : List Entry) (w : World)
    → let w' = (upload ext notes injected s tenant_id outlet_id es w).1 in
      (x : SyncUploadResult) × ((upload ext notes injected s tenant_id outlet_id es w).0 ≡ ok x)
      × (x.received ≡ length es)
      × (x.inserted + x.skipped ≡ x.received)
      × (((x.inserted ≡ x.received)
            × (w'.tables.transactions
                ≡ upsert_rows s.now tenant_id outlet_id (uploads es) w.tables.transactions))
          ⊎ ((x.inserted < x.received) × (w'.tables.transactions ≡ w.tables.transactions)))
unfolding upload send_batch
upload_totals ext notes injected s tenant_id outlet_id es w =
    let fs = upsert_statements s.now tenant_id outlet_id (uploads es) in
    let (reports, w1) = send_batch fs w in
    let f = follow_up_frame ext notes injected s tenant_id outlet_id es w1 in
    let all = length-uploads es in
    let x = new_result (length es) (successes reports) in
    elim (run_upserts_cases s.now tenant_id outlet_id w.tables (uploads es) w) [
      | inl (counted, rows) ↦ (
        x,
        ground arith,
        refl,
        omega (arith, counted, all),
        inl (counted ∙ all, ground (arith, f, rows)),
      )
      | inr (fewer, back) ↦ (
        x,
        ground arith,
        refl,
        omega (arith, fewer, all),
        inr (omega (arith, fewer, all), ground (arith, f, ap (λ t. t.transactions) back)),
      )
    ]
