-- ===== src/Payments/Records/Events.antt =====
-- The records of callbacks and refunds that src/controllers/admin/payments.rs sends.
use rust_template.Base.{ℕ, String, Bool, Option, List}
use mathlib.Core.Option
use rust_template.Env.{Env}
use rust_template.Entities.Payment.{PaymentCallback, PaymentRefund}
use rust_template.Payments.Records.{PaymentOrderRecord, PaymentChannelSummary}

pub record PaymentCallbackRecord : Type 0 where
  pub id : ℕ
  pub tenant_id : Option ℕ
  pub payment_order_id : Option ℕ
  pub provider : String
  pub event_type : String
  pub trade_no : Option String
  pub payload : String
  pub signature : Option String
  pub verified : Bool
  pub processed : Bool
  pub error_message : Option String
  pub created_at : String
  pub updated_at : String

pub record PaymentRefundRecord : Type 0 where
  pub id : ℕ
  pub tenant_id : Option ℕ
  pub payment_order_id : ℕ
  pub refund_no : String
  pub amount : String
  pub reason : Option String
  pub status : String
  pub provider_refund_no : Option String
  pub requested_by : Option ℕ
  pub reviewed_by : Option ℕ
  pub reviewed_at : Option String
  pub metadata : Option String
  pub created_at : String
  pub updated_at : String

pub record PaymentOrderDetailRecord : Type 0 where
  pub order : PaymentOrderRecord
  pub channel : Option PaymentChannelSummary
  pub callbacks : List PaymentCallbackRecord
  pub refunds : List PaymentRefundRecord

pub record NewPaymentCallback : Type 0 where
  pub event_type : String
  pub trade_no : Option String
  pub payload : String
  pub verified : Bool
  pub processed : Bool
  pub error_message : Option String

module _ (env : Env) where
  unfoldable pub callback_record : PaymentCallback → PaymentCallbackRecord
  callback_record callback = record {
    id = callback.id;
    tenant_id = callback.tenant_id;
    payment_order_id = callback.payment_order_id;
    provider = callback.provider;
    event_type = callback.event_type;
    trade_no = callback.trade_no;
    payload = callback.payload;
    signature = callback.signature;
    verified = callback.verified;
    processed = callback.processed;
    error_message = callback.error_message;
    created_at = env.to_rfc3339 callback.created_at;
    updated_at = env.to_rfc3339 callback.updated_at;
  }

  unfoldable pub refund_record : PaymentRefund → PaymentRefundRecord
  refund_record refund = record {
    id = refund.id;
    tenant_id = refund.tenant_id;
    payment_order_id = refund.payment_order_id;
    refund_no = refund.refund_no;
    amount = refund.amount;
    reason = refund.reason;
    status = refund.status;
    provider_refund_no = refund.provider_refund_no;
    requested_by = refund.requested_by;
    reviewed_by = refund.reviewed_by;
    reviewed_at = Option.map env.to_rfc3339 refund.reviewed_at;
    metadata = refund.metadata;
    created_at = env.to_rfc3339 refund.created_at;
    updated_at = env.to_rfc3339 refund.updated_at;
  }
