-- ===== src/Payments/Params.antt =====
-- The request bodies of src/controllers/admin/payments.rs.
use rust_template.Base.{ℕ, String, Bool, Option}

pub record SavePaymentChannelParams : Type 0 where
  pub name : String
  pub provider : String
  pub channel_code : String
  pub currency : Option String
  pub config : String
  pub secret_config : Option String
  pub notify_url : Option String
  pub return_url : Option String
  pub enabled : Option Bool
  pub sort_order : Option ℕ
  pub description : Option String

pub record CreatePaymentOrderParams : Type 0 where
  pub channel_id : Option ℕ
  pub merchant_order_no : Option String
  pub subject : String
  pub body : Option String
  pub amount : String
  pub currency : Option String
  pub provider : Option String
  pub expired_at : Option String
  pub client_ip : Option String
  pub payer_id : Option String
  pub metadata : Option String

pub record MarkPaymentPaidParams : Type 0 where
  pub trade_no : Option String
  pub payer_id : Option String
  pub payload : Option String

pub record CreatePaymentRefundParams : Type 0 where
  pub amount : String
  pub reason : Option String
  pub metadata : Option String
