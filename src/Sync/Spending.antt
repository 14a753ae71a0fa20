-- ===== src/Sync/Spending.antt =====
-- The spending of members after an upload (internal/service/sync_service.go, Upload, and
-- internal/service/member_service.go, UpdateSpending).
use service_api.Base.{
  ℕ, ◌+◌, ◌<◌, ◌≡◌, ◌≢◌, ◌∙◌, inl, inr, ap, refl, arith, Bool, false, none, some, List, [], ◌∷◌,
  String, ◌==◌, All, ℤ, pos, pos_part, neg_part, two63, if◌then◌else◌, Option-cases, Bool-cases,
}
use service_api.Domain.Transactions.{TxUpload}
use service_api.External.{External}
use service_api.Store.{World, Tables, Db, calm, fails, rest, ◌>>◌}
use service_api.Member.{update_spending, award_referral_points, award_referrer}
use service_api.Sync.Spent.{
  Spent, award_referral_points-Spent, update_other-Spent, update_own-Spent,
}
use service_api.Domain.Shifts.{Shift}
use service_api.Order.{Call, create_from_transaction}
use service_api.Sync.Batch.{Statement, outcome, run_batch, send_batch}
use service_api.Sync.Frame.{upserts_frame, link_shifts_frame}
use service_api.Sync.Parts.{create_orders-Quiet, credit_member-Quiet}
use service_api.Sync.Totals.{follow_up_members, upload_tables}
use service_api.Sync.Upload.{
  link_shifts, link_statements, open_shifts, create_orders, upsert_statements, Entry, uploads,
  Session, upload, credit_member, credit_members,
}

-- Calls that leave an empty script empty.
abbrev StaysCalm : {A : Type 0} → Db A → Type 0
StaysCalm m = (w : World) → w.script ≡ [] → (m w).1.script ≡ []

update_spending-StaysCalm : (id : ℕ) (amount : ℤ) → StaysCalm (update_spending id amount)
unfolding update_spending fails rest
update_spending-StaysCalm id amount w h = ground arith

award_referral_points-StaysCalm : (id : ℕ) → StaysCalm (award_referral_points id)
unfolding award_referral_points award_referrer fails rest
award_referral_points-StaysCalm id w h = ground arith

credit_member-StaysCalm : (x : TxUpload) → StaysCalm (credit_member x)
unfolding credit_member
credit_member-StaysCalm x w h = elim (Option-cases x.row.member_id) [
  | inl free ↦ ground arith
  | inr (m, named) ↦
      let w' = (update_spending m x.row.total_amount w).1 in
      let h' = update_spending-StaysCalm m x.row.total_amount w h in
      ground (arith, award_referral_points-StaysCalm m w' h')
]

calm_eq : (w : World) → w.script ≡ [] → w ≡ calm w.tables
calm_eq w h = ap (λ s. record { tables = w.tables; script = s }) h

-- The transaction is no refund; what it adds to the spending of a member; and their sum.
abbrev pub IsSale : TxUpload → Type 0
IsSale x = neg_part x.row.total_amount ≡ 0

abbrev pub is_of : ℕ → TxUpload → Bool
is_of id x = elim x.row.member_id [ none ↦ false | some m ↦ m == id ]

abbrev pub spending_on : ℕ → TxUpload → ℕ
spending_on id x = if is_of id x then pos_part x.row.total_amount else 0

abbrev pub total_for : ℕ → List TxUpload → ℕ
total_for id [] = 0
total_for id (x ∷ xs) = spending_on id x + total_for id xs

credit_member_free :
    (x : TxUpload) (w : World)
    → x.row.member_id ≡ none
    → (credit_member x w).1.tables.members ≡ w.tables.members
unfolding credit_member
credit_member_free x w free = ground arith

add_zero : (k : ℕ) → k + 0 ≡ k
add_zero k = omega arith

credit_member_named :
    (x : TxUpload) (w : World) {m : ℕ}
    → x.row.member_id ≡ some m
    → (credit_member x w).1 ≡ (award_referral_points m (update_spending m x.row.total_amount w).1).1
unfolding credit_member
credit_member_named x w named = ground arith

update_spending-Spent :
    (id k m : ℕ) (x : TxUpload) (w : World)
    → w.script ≡ []
    → IsSale x
    → x.row.member_id ≡ some m
    → k + spending_on id x < two63
    → Spent id k w.tables.members
    → Spent id (k + spending_on id x) (update_spending m x.row.total_amount w).1.tables.members
update_spending-Spent id k m x w quiet sale named fits h =
    let n = pos_part x.row.total_amount in
    let amount : x.row.total_amount ≡ pos n = ground arith in
    elim (Bool-cases (m == id)) [
      | inl own ↦
          let same : m ≡ id = ground arith in
          let added : k + spending_on id x ≡ k + n = ground arith in
          let room : k + n < two63 = omega (arith, fits, added) in
          rw (added, amount, calm_eq w quiet, same) (update_own-Spent id k n w.tables room h)
      | inr other ↦
          let differ : m ≢ id = λ e. ground arith in
          let unmoved : k + spending_on id x ≡ k = ground arith in
          rw unmoved (update_other-Spent id k m x.row.total_amount w differ h)
    ]

credit_member-Spent :
    (id k : ℕ) (x : TxUpload) (w : World)
    → w.script ≡ []
    → IsSale x
    → k + spending_on id x < two63
    → Spent id k w.tables.members
    → Spent id (k + spending_on id x) (credit_member x w).1.tables.members
credit_member-Spent id k x w quiet sale fits h = elim (Option-cases x.row.member_id) [
  | inl free ↦
      let unmoved : k + spending_on id x ≡ k = ground arith in
      let same : (credit_member x w).1.tables.members ≡ w.tables.members =
        credit_member_free x w free in
      rw (same, unmoved) h
  | inr (m, named) ↦ rw (credit_member_named x w named) (
      award_referral_points-Spent id (k + spending_on id x) m
        (update_spending m x.row.total_amount w).1
        (update_spending-Spent id k m x w quiet sale named fits h))
]

credit_members-Spent :
    (id k : ℕ) (xs : List TxUpload) (w : World)
    → w.script ≡ []
    → All IsSale xs
    → k + total_for id xs < two63
    → Spent id k w.tables.members
    → Spent id (k + total_for id xs) (credit_members xs w).1.tables.members
unfolding credit_members
credit_members-Spent id k [] w quiet sales fits h = rw (add_zero k) h
credit_members-Spent id k (x ∷ xs) w quiet sales fits h =
    let now : k + spending_on id x < two63 = omega (arith, fits) in
    let w' = (credit_member x w).1 in
    let ih =
      credit_members-Spent id (k + spending_on id x) xs w' (credit_member-StaysCalm x w quiet)
        sales.1 (omega (arith, fits)) (credit_member-Spent id k x w quiet sales.0 now h) in
    let all : k + spending_on id x + total_for id xs ≡ k + (spending_on id x + total_for id xs) =
      omega arith in
    let goes_on : (credit_member x >> credit_members xs) w ≡ credit_members xs w' =
      ground (arith, credit_member-Quiet x w) in
    rw (goes_on, ← all) ih

run_batch-StaysCalm :
    (start : Tables) (fs : List Statement) (w : World)
    → w.script ≡ []
    → (run_batch start fs w).1.script ≡ []
unfolding run_batch fails rest
run_batch-StaysCalm start [] w h = h
run_batch-StaysCalm start (f ∷ fs) w h =
    elim (Option-cases (outcome (fails w.script) (f w.tables))) [
      | inl failed ↦ rw (failed, run_batch) (ap rest h)
      | inr (t, ran) ↦
          rw (ran, run_batch)
            (run_batch-StaysCalm start fs (record { tables = t; script = rest w.script })
              (ap rest h))
    ]

link_shifts-StaysCalm : (outlet_id : ℕ) (xs : List TxUpload) → StaysCalm (link_shifts outlet_id xs)
unfolding link_shifts send_batch rest
link_shifts-StaysCalm outlet_id xs w h =
    let t = w.tables in
    let w' = record w { script = rest w.script } in
    let linked =
      λ (ss : List Shift). run_batch-StaysCalm t (link_statements ss xs) w' (ap rest h) in
    ground (arith, linked [], linked (open_shifts outlet_id t))

create_from_transaction-StaysCalm :
    (ext : External) (c : Call) (tenant_id user_id : ℕ) (x : TxUpload)
    → StaysCalm (create_from_transaction ext c tenant_id user_id x)
unfolding create_from_transaction fails rest
create_from_transaction-StaysCalm ext c tenant_id user_id x w h = ground arith

create_orders-StaysCalm :
    (ext : External) (tenant_id : ℕ) (es : List Entry) → StaysCalm (create_orders ext tenant_id es)
unfolding create_orders
create_orders-StaysCalm ext tenant_id [] w h = h
create_orders-StaysCalm ext tenant_id (e ∷ es) w h =
    let user_id = e.upload.row.created_by in
    create_orders-StaysCalm ext tenant_id es
      (create_from_transaction ext e.call tenant_id user_id e.upload w).1
      (create_from_transaction-StaysCalm ext e.call tenant_id user_id e.upload w h)

-- Where the statements run, an upload of transactions with no negative total adds to the spending of
-- a member the totals of all transactions of the request that name the member, whether or not they
-- were stored, if the sum is a BIGINT.
pub upload_spending :
    (ext : External) (notes : ℕ → String) (injected : Bool) (s : Session) (tenant_id outlet_id : ℕ)
    (es : List Entry) (t : Tables) (id k : ℕ)
    → All IsSale (uploads es)
    → k + total_for id (uploads es) < two63
    → Spent id k t.members
    → Spent id
        (k + total_for id (uploads es))
        (upload ext notes injected s tenant_id outlet_id es (calm t)).1.tables.members
unfolding send_batch
upload_spending ext notes injected s tenant_id outlet_id es t id k sales fits h =
    let xs = uploads es in
    let fs = upsert_statements s.now tenant_id outlet_id xs in
    let w0 = (send_batch fs (calm t)).1 in
    let c0 : w0.script ≡ [] = run_batch-StaysCalm t fs (calm t) refl in
    let f0 = ap (λ t. t.members) (upserts_frame s.now tenant_id outlet_id xs (calm t)) in
    let w1 = (link_shifts outlet_id xs w0).1 in
    let c1 = link_shifts-StaysCalm outlet_id xs w0 c0 in
    let (l, f1) = link_shifts_frame outlet_id xs w0 in
    let w2 = (create_orders ext tenant_id es w1).1 in
    let c2 = create_orders-StaysCalm ext tenant_id es w1 c1 in
    let f2 = create_orders-Quiet ext tenant_id es w1 in
    let same : w2.tables.members ≡ t.members =
      ap (λ t. t.members) f2.1 ∙ ap (λ t. t.members) f1 ∙ f0 in
    rw
      (
        upload_tables ext notes injected s tenant_id outlet_id es (calm t),
        follow_up_members ext notes injected s tenant_id outlet_id es w0,
      )
      (credit_members-Spent id k xs w2 c2 sales fits (rw same h))
