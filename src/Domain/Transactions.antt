-- ===== src/Domain/Transactions.antt =====
-- `Transaction` (internal/domain/models.go). The JSON columns stand decoded: `items` is `none`
-- where `json.Unmarshal` refuses the text, and `payments` lists the elements of the array.
use service_api.Base.{ℕ, Option, List, String}
use service_api.Base.{ℤ}

-- An element of `items`, as the stock deduction reads it. A `float64` is its bit pattern.
pub record TxItem : Type 0 where
  pub service_id : String
  pub quantity : ℕ

-- An element of `payments`, with the keys that the shift queries read.
pub record TxPayment : Type 0 where
  pub method_type : Option String
  pub type_name : Option String
  pub method : Option String
  pub amount : Option ℤ

pub data TxStatus : Type 0 where
  completed : TxStatus
  other : String → TxStatus

pub record Transaction : Type 0 where
  pub id : ℕ
  pub tenant_id : ℕ
  pub outlet_id : ℕ
  pub member_id : Option ℕ
  pub items : Option (List TxItem)
  pub total_amount : ℤ
  pub payments : Option (List TxPayment)
  pub status : TxStatus
  pub created_by : ℕ
  pub created_at : ℕ
  pub synced_at : Option ℕ

-- What a POS client uploads: the row's columns and those that an order is made from.
pub record TxUpload : Type 0 where
  pub row : Transaction
  pub notes : Option String
  pub shift_id : Option ℕ
  pub customer_phone : Option String
  pub estimated_duration_hours : Option ℤ
  pub delivery_type : Option String
  pub delivery_address : Option String
  pub delivery_fee : Option ℤ
  pub scheduled_pickup_at : Option String
