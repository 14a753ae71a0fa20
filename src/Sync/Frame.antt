-- ===== src/Sync/Frame.antt =====
-- What each part of an upload leaves alone (internal/service/sync_service.go). `g` reads some part
-- of the tables.
use service_api.Base.{
  ℕ, ◌≡◌, ◌∙◌, ◌⊎◌, inl, inr, refl, arith, Bool, Option, none, some, List, [], ◌∷◌, ◌++◌, All,
  Option-cases, Bool-cases, find_where, update_where,
}
use service_api.Apperror.{ok}
use service_api.Domain.Transactions.{TxUpload}
use service_api.Domain.Shifts.{Shift}
use service_api.Store.{World, Tables, fails, rest}
use service_api.Sync.Batch.{Statement, run_batch, send_batch}
use service_api.Sync.Upload.{
  has_tx_id, uploaded_row, resync, upsert_transaction, upsert_statements, open_shifts, linked_shift,
  insert_link, add_link, link_statements, link_shifts,
}

module _ {B : Type 0} (g : Tables → B) where
  -- A statement that keeps what `g` reads.
  abbrev pub Keeping : Statement → Type 0
  Keeping f = (t : Tables) → (f t ≡ none) ⊎ ((t' : Tables) × (f t ≡ some (tt, t')) × (g t' ≡ g t))

  run_batch_keeps :
      (start : Tables) (fs : List Statement) (w : World)
      → All Keeping fs
      → g w.tables ≡ g start
      → g (run_batch start fs w).1.tables ≡ g start
  unfolding run_batch
  run_batch_keeps start [] w h e = e
  run_batch_keeps start (f ∷ fs) w h e = elim (Bool-cases (fails w.script)) [
    | inl failed ↦ ground arith
    | inr runs ↦ elim (h.0 w.tables) [
      | inl refused ↦ ground arith
      | inr (t, ran, same) ↦
          rw (runs, ran, run_batch)
            (run_batch_keeps start fs (record { tables = t; script = rest w.script }) h.1
              (same ∙ e))
    ]
  ]

  -- So does a batch of such statements.
  pub send_batch_keeps :
      (fs : List Statement) (w : World) → All Keeping fs → g (send_batch fs w).1.tables ≡ g w.tables
  unfolding send_batch
  send_batch_keeps fs w h = run_batch_keeps w.tables fs w h refl

-- A batch keeps a property of the tables that each of its statements keeps where it runs.
abbrev pub KeepsIf : (Tables → Type 0) → Statement → Type 0
KeepsIf P f = (t t' : Tables) → f t ≡ some (tt, t') → P t → P t'

module _ (P : Tables → Type 0) where
  run_batch_keeps_if :
      (start : Tables) (fs : List Statement) (w : World)
      → All (KeepsIf P) fs
      → P start
      → P w.tables
      → P (run_batch start fs w).1.tables
  unfolding run_batch
  run_batch_keeps_if start [] w h p q = q
  run_batch_keeps_if start (f ∷ fs) w h p q = elim (Bool-cases (fails w.script)) [
    | inl failed ↦ rw (failed, run_batch) p
    | inr runs ↦ elim (Option-cases (f w.tables)) [
      | inl refused ↦ rw (runs, refused, run_batch) p
      | inr ((_, t), ran) ↦
          rw (runs, ran, run_batch)
            (run_batch_keeps_if start fs (record { tables = t; script = rest w.script }) h.1 p
              (h.0 w.tables t ran q))
    ]
  ]

  pub send_batch_keeps_if :
      (fs : List Statement) (w : World)
      → All (KeepsIf P) fs
      → P w.tables
      → P (send_batch fs w).1.tables
  unfolding send_batch
  send_batch_keeps_if fs w h p = run_batch_keeps_if w.tables fs w h p p

-- The upserts touch the transactions alone, and the links their own table.
abbrev pub but_transactions : Tables → Tables
but_transactions t = record t { transactions = [] }

abbrev pub but_links : Tables → Tables
but_links t = record t { shift_transactions = [] }

upserts-Keeping :
    (now tenant_id outlet_id : ℕ) (xs : List TxUpload)
    → All (Keeping but_transactions) (upsert_statements now tenant_id outlet_id xs)
upserts-Keeping now tenant_id outlet_id [] = tt
upserts-Keeping now tenant_id outlet_id (x ∷ xs) = (one, upserts-Keeping now tenant_id outlet_id xs)
  where
    one : Keeping but_transactions (upsert_transaction now tenant_id outlet_id x)
    one t = elim (Option-cases (find_where (has_tx_id x.row.id) t.transactions)) [
      | inl new ↦ inr (
        record t { transactions = t.transactions ++ uploaded_row now tenant_id outlet_id x ∷ [] },
        ground arith,
        refl,
      )
      | inr (old, there) ↦ inr (
        record t { transactions = update_where (has_tx_id x.row.id) (resync now x) t.transactions },
        ground arith,
        refl,
      )
    ]

link-Keeping : (shift_id tx_id : ℕ) → Keeping but_links (insert_link shift_id tx_id)
link-Keeping shift_id tx_id t = elim (Option-cases (insert_link shift_id tx_id t)) [
  | inl refused ↦ inl refused
  | inr ((_, t'), ran) ↦ inr (t', ran, ground arith)
]

add_link-Keeping :
    (o : Option ℕ) (tx_id : ℕ) (fs : List Statement)
    → All (Keeping but_links) fs
    → All (Keeping but_links) (add_link o tx_id fs)
add_link-Keeping none tx_id fs h = h
add_link-Keeping (some id) tx_id fs h = (link-Keeping id tx_id, h)

links-Keeping :
    (shifts : List Shift) (xs : List TxUpload) → All (Keeping but_links) (link_statements shifts xs)
links-Keeping shifts [] = tt
links-Keeping shifts (x ∷ xs) =
    add_link-Keeping (linked_shift shifts x) x.row.id (link_statements shifts xs)
      (links-Keeping shifts xs)

pub upserts_frame :
    (now tenant_id outlet_id : ℕ) (xs : List TxUpload) (w : World)
    → but_transactions (send_batch (upsert_statements now tenant_id outlet_id xs) w).1.tables
      ≡ but_transactions w.tables
upserts_frame now tenant_id outlet_id xs w =
    send_batch_keeps but_transactions (upsert_statements now tenant_id outlet_id xs) w
      (upserts-Keeping now tenant_id outlet_id xs)

-- Linking returns, and touches the links alone.
pub link_shifts_frame :
    (outlet_id : ℕ) (xs : List TxUpload) (w : World)
    → ((reports : List Bool) × ((link_shifts outlet_id xs w).0 ≡ ok reports))
      × (but_links (link_shifts outlet_id xs w).1.tables ≡ but_links w.tables)
unfolding link_shifts
link_shifts_frame outlet_id xs w =
    let w' = record w { script = rest w.script } in
    let with = λ (ss : List Shift).
      send_batch_keeps but_links (link_statements ss xs) w' (links-Keeping ss xs) in
    elim (Bool-cases (fails w.script)) [
      | inl failed ↦
          (((send_batch (link_statements [] xs) w').0, ground arith), ground (arith, with []))
      | inr runs ↦
          let ss = open_shifts outlet_id w.tables in
          (((send_batch (link_statements ss xs) w').0, ground arith), ground (arith, with ss))
    ]
