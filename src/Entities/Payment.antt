-- ===== src/Entities/Payment.antt =====
-- The rows of src/models/_entities: the payment channels, orders, callbacks and refunds. A time is a number of
-- milliseconds, a UUID its text.
use rust_template.Base.{ℕ, String, Bool, Option}

pub record PaymentChannel : Type 0 where
  pub created_at : ℕ
  pub updated_at : ℕ
  pub id : ℕ
  pub name : String
  pub provider : String
  pub channel_code : String
  pub currency : String
  pub config : String
  pub secret_config : Option String
  pub notify_url : Option String
  pub return_url : Option String
  pub enabled : Bool
  pub sort_order : ℕ
  pub description : Option String
  pub tenant_id : Option ℕ
  pub created_by : Option ℕ
  pub updated_by : Option ℕ

pub record PaymentOrder : Type 0 where
  pub created_at : ℕ
  pub updated_at : ℕ
  pub id : ℕ
  pub order_no : String
  pub merchant_order_no : Option String
  pub subject : String
  pub body : Option String
  pub amount : String
  pub currency : String
  pub provider : String
  pub status : String
  pub paid_at : Option ℕ
  pub expired_at : Option ℕ
  pub client_ip : Option String
  pub payer_id : Option String
  pub trade_no : Option String
  pub metadata : Option String
  pub tenant_id : Option ℕ
  pub channel_id : Option ℕ
  pub created_by : Option ℕ

pub record PaymentCallback : Type 0 where
  pub created_at : ℕ
  pub updated_at : ℕ
  pub id : ℕ
  pub provider : String
  pub event_type : String
  pub trade_no : Option String
  pub payload : String
  pub signature : Option String
  pub verified : Bool
  pub processed : Bool
  pub error_message : Option String
  pub tenant_id : Option ℕ
  pub payment_order_id : Option ℕ

pub record PaymentRefund : Type 0 where
  pub created_at : ℕ
  pub updated_at : ℕ
  pub id : ℕ
  pub refund_no : String
  pub amount : String
  pub reason : Option String
  pub status : String
  pub provider_refund_no : Option String
  pub reviewed_at : Option ℕ
  pub metadata : Option String
  pub tenant_id : Option ℕ
  pub payment_order_id : ℕ
  pub requested_by : Option ℕ
  pub reviewed_by : Option ℕ
