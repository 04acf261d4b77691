-- ===== src/Payments/Orders.antt =====
-- The handlers of payment orders in src/controllers/admin/payments.rs.
use mathlib.Core.Option
use Prim.Native.String.{◌++◌ as str_append}
use rust_template.Base.{
  ℕ, String, true, not, Option, none, some, List, [], ◌∷◌, map, leb, is_some, is_some_of, unwrap_or,
  if◌then◌else◌,
}
use rust_template.Base.Sort.{sort_by}
use rust_template.Base.Text.{trim, contains}
use rust_template.Api.{bad_request}
use rust_template.Db.Interface.{Database}
use rust_template.Db.Handler.{Handler, query, lift, pure, raise, ◌>>=◌, ◌>>◌}
use rust_template.Db.Rows.{row, select, insert, update}
use rust_template.Env.{Env}
use rust_template.Entities.Access.{User}
use rust_template.Entities.Payment.{PaymentChannel, PaymentOrder, PaymentCallback}
use rust_template.World.{
  World, on_payment_channels, on_payment_orders, on_payment_callbacks, on_payment_refunds,
}
use rust_template.Rbac.Authorize.{authorize}
use rust_template.Payments.Amount.{normalize_amount}
use rust_template.Payments.Params.{CreatePaymentOrderParams, MarkPaymentPaidParams}
use rust_template.Payments.Records.{
  PaymentOrderRecord, PaymentChannelSummary, order_record, channel_summary,
}
use rust_template.Payments.Records.Events.{
  PaymentCallbackRecord, PaymentRefundRecord, PaymentOrderDetailRecord, NewPaymentCallback,
  callback_record, refund_record,
}
use rust_template.Payments.Validate.{
  providers, trim_optional, currency_or_default, validate_order_params, validate_value, parse_time,
  next_no,
}
use rust_template.Payments.Visible.{find_visible_channel, find_visible_order}

module _ {db : Database} where
  unfoldable pub load_channel_for_order :
      User → Option ℕ → Handler (World db) (Option PaymentChannel)
  load_channel_for_order actor none = pure none
  load_channel_for_order actor (some channel_id) = do
    channel ← find_visible_channel actor channel_id
    if not channel.enabled
        then raise (bad_request "payment channel is disabled")
        else pure (some channel)

  load_summary : Option ℕ → Handler (World db) (Option PaymentChannelSummary)
  load_summary none = pure none
  load_summary (some channel_id) = do
    channel ← query (row on_payment_channels channel_id)
    pure (Option.map channel_summary channel)

module _ (env : Env) where
  -- the row that `create_order` inserts
  unfoldable pub new_order :
      User
      → CreatePaymentOrderParams
      → Option PaymentChannel
      → String
      → String
      → String
      → Option ℕ
      → ℕ
      → PaymentOrder
  new_order actor params channel provider currency amount expired_at id = record {
    created_at = env.now;
    updated_at = env.now;
    id = id;
    order_no = next_no env "PAY";
    merchant_order_no = trim_optional params.merchant_order_no;
    subject = trim params.subject;
    body = trim_optional params.body;
    amount = amount;
    currency = currency;
    provider = provider;
    status = "pending";
    paid_at = none;
    expired_at = expired_at;
    client_ip = trim_optional params.client_ip;
    payer_id = trim_optional params.payer_id;
    trade_no = none;
    metadata = trim_optional params.metadata;
    tenant_id = actor.tenant_id;
    channel_id = Option.map (λ c. c.id) channel;
    created_by = some actor.id;
  }

  -- the columns that `mark_order_paid` sets
  unfoldable pub paid_order : MarkPaymentPaidParams → String → PaymentOrder → PaymentOrder
  paid_order params trade_no order = record order {
    status = "paid";
    paid_at = some env.now;
    trade_no = some trade_no;
    payer_id = if is_some params.payer_id then trim_optional params.payer_id else order.payer_id;
  }

  -- `json!({"action":"mark_paid","operator_id":actor.id})`, printed with the keys in order
  paid_payload : ℕ → String
  paid_payload actor_id =
      str_append "{\"action\":\"mark_paid\",\"operator_id\":"
        (str_append (env.id_text actor_id) "}")

module _ {db : Database} (env : Env) where
  unfoldable pub load_callbacks : ℕ → Handler (World db) (List PaymentCallbackRecord)
  load_callbacks order_id = do
    callbacks ← query (select on_payment_callbacks (λ c. is_some_of c.payment_order_id order_id))
    pure (map (callback_record env) (sort_by (λ a b. leb a.id b.id) callbacks))

  unfoldable pub load_refunds : ℕ → Handler (World db) (List PaymentRefundRecord)
  load_refunds order_id = do
    refunds ← query (select on_payment_refunds (λ r. is_some_of (some r.payment_order_id) order_id))
    pure (map (refund_record env) (sort_by (λ a b. leb a.id b.id) refunds))

  unfoldable pub load_order_detail : PaymentOrder → Handler (World db) PaymentOrderDetailRecord
  unfolding load_summary
  load_order_detail order = do
    channel ← load_summary order.channel_id
    callbacks ← load_callbacks order.id
    refunds ← load_refunds order.id
    pure (record {
      order = order_record env order;
      channel = channel;
      callbacks = callbacks;
      refunds = refunds;
    })

  unfoldable pub create_callback_record :
      PaymentOrder → NewPaymentCallback → Handler (World db) PaymentCallback
  create_callback_record order callback = insert on_payment_callbacks λ id. record {
    created_at = env.now;
    updated_at = env.now;
    id = id;
    provider = order.provider;
    event_type = callback.event_type;
    trade_no = callback.trade_no;
    payload = callback.payload;
    signature = none;
    verified = callback.verified;
    processed = callback.processed;
    error_message = callback.error_message;
    tenant_id = order.tenant_id;
    payment_order_id = some order.id;
  }

module _ {db : Database} (env : Env) (pid : String) where
  unfoldable pub create_order : CreatePaymentOrderParams → Handler (World db) PaymentOrderRecord
  create_order params = do
    actor ← authorize env.parse_uuid pid "system:payment_order:create"
    lift (validate_order_params env params)
    channel ← load_channel_for_order actor params.channel_id
    let provider = unwrap_or (Option.map (λ c. c.provider) channel) (unwrap_or params.provider "")
    lift (validate_value provider providers "unsupported payment provider")
    let currency =
        unwrap_or (Option.map (λ c. c.currency) channel) (currency_or_default params.currency)
    amount ← lift (normalize_amount params.amount)
    expired_at ← lift (parse_time env params.expired_at)
    order ←
        insert on_payment_orders
          (new_order env actor params channel provider currency amount expired_at)
    pure (order_record env order)

  unfoldable pub get_order : ℕ → Handler (World db) PaymentOrderDetailRecord
  get_order id = do
    actor ← authorize env.parse_uuid pid "system:payment_order:list"
    order ← find_visible_order actor id
    load_order_detail env order

  unfoldable pub mark_order_paid : ℕ → MarkPaymentPaidParams → Handler (World db) PaymentOrderRecord
  unfolding paid_payload
  mark_order_paid id params = do
    actor ← authorize env.parse_uuid pid "system:payment_order:action"
    order ← find_visible_order actor id
    if not (contains ("pending" ∷ "paying" ∷ []) order.status)
        then raise (bad_request "payment order cannot be marked paid")
        else do
          let trade_no = unwrap_or (trim_optional params.trade_no) (next_no env "TRADE")
          updated ← update on_payment_orders order.id (paid_order env params trade_no)
          _ ← create_callback_record env updated (record {
            event_type = "manual_record";
            trade_no = some trade_no;
            payload = unwrap_or params.payload (paid_payload env actor.id);
            verified = true;
            processed = true;
            error_message = none;
          })
          pure (order_record env updated)

  unfoldable pub cancel_order : ℕ → Handler (World db) PaymentOrderRecord
  cancel_order id = do
    actor ← authorize env.parse_uuid pid "system:payment_order:action"
    order ← find_visible_order actor id
    if not (contains ("pending" ∷ "paying" ∷ []) order.status)
        then raise (bad_request "payment order cannot be cancelled")
        else do
          cancelled ← update on_payment_orders order.id (λ o. record o { status = "cancelled" })
          pure (order_record env cancelled)
