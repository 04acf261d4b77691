-- ===== src/Payments/Records.antt =====
-- The records of channels and orders that src/controllers/admin/payments.rs sends, without the
-- secrets.
pub mod Events
use rust_template.Base.{ℕ, String, Bool, Option}
use mathlib.Core.Option
use rust_template.Env.{Env}
use rust_template.Entities.Payment.{PaymentChannel, PaymentOrder}

pub record PaymentChannelRecord : Type 0 where
  pub id : ℕ
  pub tenant_id : Option ℕ
  pub name : String
  pub provider : String
  pub channel_code : String
  pub currency : String
  pub config : String
  pub secret_config : Option String
  pub notify_url : Option String
  pub return_url : Option String
  pub enabled : Bool
  pub sort_order : ℕ
  pub description : Option String
  pub created_by : Option ℕ
  pub updated_by : Option ℕ
  pub created_at : String
  pub updated_at : String

pub record PaymentChannelSummary : Type 0 where
  pub id : ℕ
  pub name : String
  pub provider : String
  pub channel_code : String
  pub currency : String

pub record PaymentOrderRecord : Type 0 where
  pub id : ℕ
  pub tenant_id : Option ℕ
  pub channel_id : Option ℕ
  pub order_no : String
  pub merchant_order_no : Option String
  pub subject : String
  pub body : Option String
  pub amount : String
  pub currency : String
  pub provider : String
  pub status : String
  pub paid_at : Option String
  pub expired_at : Option String
  pub client_ip : Option String
  pub payer_id : Option String
  pub trade_no : Option String
  pub metadata : Option String
  pub created_by : Option ℕ
  pub created_at : String
  pub updated_at : String

abbrev pub secret_mask : String
secret_mask = "******"

unfoldable pub channel_summary : PaymentChannel → PaymentChannelSummary
channel_summary channel = record {
  id = channel.id;
  name = channel.name;
  provider = channel.provider;
  channel_code = channel.channel_code;
  currency = channel.currency;
}

module _ (env : Env) where
  unfoldable pub channel_record : PaymentChannel → PaymentChannelRecord
  channel_record channel = record {
    id = channel.id;
    tenant_id = channel.tenant_id;
    name = channel.name;
    provider = channel.provider;
    channel_code = channel.channel_code;
    currency = channel.currency;
    config = channel.config;
    secret_config = Option.map (λ _. secret_mask) channel.secret_config;
    notify_url = channel.notify_url;
    return_url = channel.return_url;
    enabled = channel.enabled;
    sort_order = channel.sort_order;
    description = channel.description;
    created_by = channel.created_by;
    updated_by = channel.updated_by;
    created_at = env.to_rfc3339 channel.created_at;
    updated_at = env.to_rfc3339 channel.updated_at;
  }

  unfoldable pub order_record : PaymentOrder → PaymentOrderRecord
  order_record order = record {
    id = order.id;
    tenant_id = order.tenant_id;
    channel_id = order.channel_id;
    order_no = order.order_no;
    merchant_order_no = order.merchant_order_no;
    subject = order.subject;
    body = order.body;
    amount = order.amount;
    currency = order.currency;
    provider = order.provider;
    status = order.status;
    paid_at = Option.map env.to_rfc3339 order.paid_at;
    expired_at = Option.map env.to_rfc3339 order.expired_at;
    client_ip = order.client_ip;
    payer_id = order.payer_id;
    trade_no = order.trade_no;
    metadata = order.metadata;
    created_by = order.created_by;
    created_at = env.to_rfc3339 order.created_at;
    updated_at = env.to_rfc3339 order.updated_at;
  }
