-- ===== src/Shift/Cash.antt =====
-- The cash that a shift should hold: the two queries of `CloseShift`
-- (internal/service/shift_service.go).
use service_api.Base.{
  ℕ, Bool, true, false, ◌||◌, Option, none, some, List, [], ◌∷◌, ◌==◌, ℤ, pos, ◌+ℤ◌, String, str_eq,
  if◌then◌else◌, find_where, fits_int8,
}
use service_api.Domain.Transactions.{Transaction, TxPayment, TxStatus, completed}
use service_api.Domain.Shifts.{ShiftTransaction}
use service_api.External.{External}
use service_api.Store.{Tables}

-- `COALESCE(p->>'methodType', p->>'type', p->>'method')`
unfoldable pub payment_type : TxPayment → Option String
payment_type p = elim p.method_type [
  | some s ↦ some s
  | none ↦ elim p.type_name [ some s ↦ some s | none ↦ p.method ]
]

-- `LOWER(...) = 'cash'`, which is NULL for no type.
unfoldable pub is_cash : External → TxPayment → Bool
unfolding payment_type
is_cash ext p = elim (payment_type p) [ none ↦ false | some s ↦ str_eq (ext.lower s) "cash" ]

unfoldable pub has_cash : External → List TxPayment → Bool
unfolding is_cash
has_cash ext [] = false
has_cash ext (p ∷ ps) = is_cash ext p || has_cash ext ps

abbrev pub is_completed : TxStatus → Bool
is_completed completed = true
is_completed _ = false

-- What one linked transaction adds to the cash; `none` where its payments are no array, which
-- fails the whole query.
unfoldable pub cash_amount : External → Transaction → Option ℤ
unfolding has_cash
cash_amount ext x =
    if is_completed x.status
    then elim x.payments [
      | none ↦ none
      | some ps ↦ if has_cash ext ps then some x.total_amount else some (pos 0)
    ]
    else some (pos 0)

-- What one linked transaction adds to the revenue: the fallback's query.
abbrev pub revenue_amount : Transaction → Option ℤ
revenue_amount x = if is_completed x.status then some x.total_amount else some (pos 0)

abbrev add_amount : Option ℤ → Option ℤ → Option ℤ
add_amount none b = none
add_amount (some a) none = none
add_amount (some a) (some b) = some (a +ℤ b)

-- The transactions that are linked to the shift, each found by its id.
unfoldable pub sum_linked :
    (Transaction → Option ℤ) → ℕ → List Transaction → List ShiftTransaction → Option ℤ
sum_linked f shift_id txs [] = some (pos 0)
sum_linked f shift_id txs (l ∷ links) =
    let rest = sum_linked f shift_id txs links in
    if l.shift_id == shift_id
    then elim (find_where (λ x. x.id == l.transaction_id) txs) [
      | none ↦ rest
      | some x ↦ add_amount (f x) rest
    ]
    else rest

-- `Scan` into an `int64`: a sum that does not fit is an error.
unfoldable pub query_sum : (Transaction → Option ℤ) → ℕ → Tables → Option (ℤ × Tables)
unfolding sum_linked
query_sum f shift_id t = elim (sum_linked f shift_id t.transactions t.shift_transactions) [
  | none ↦ none
  | some n ↦ if fits_int8 n then some (n, t) else none
]
