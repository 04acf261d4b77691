-- ===== src/Payments/Refunds.antt =====
-- The handlers of refunds and callbacks in src/controllers/admin/payments.rs.
use rust_template.Base.{ℕ, String, not, none, some, [], ◌∷◌, ltb, str_eq, if◌then◌else◌}
use rust_template.Base.Text.{contains}
use rust_template.Api.{ok_or, bad_request}
use rust_template.Db.Interface.{Database}
use rust_template.Db.Handler.{Handler, query, lift, pure, raise, ◌>>=◌, ◌>>◌}
use rust_template.Db.Rows.{row, insert, update}
use rust_template.Env.{Env}
use rust_template.Entities.Access.{User}
use rust_template.Entities.Payment.{PaymentOrder, PaymentRefund}
use rust_template.World.{World, on_payment_orders, on_payment_refunds}
use rust_template.Rbac.Authorize.{authorize}
use rust_template.Payments.Amount.{parse_amount, normalize_amount}
use rust_template.Payments.Params.{CreatePaymentRefundParams}
use rust_template.Payments.Records.Events.{
  PaymentCallbackRecord, PaymentRefundRecord, callback_record, refund_record,
}
use rust_template.Payments.Validate.{
  refund_statuses, trim_optional, validate_value, validate_json, check_given, next_no,
}
use rust_template.Payments.Visible.{find_visible_order, find_visible_callback, find_visible_refund}

module _ (env : Env) where
  -- the row that `create_refund` inserts
  unfoldable pub new_refund :
      User → PaymentOrder → CreatePaymentRefundParams → String → ℕ → PaymentRefund
  new_refund actor order params amount id = record {
    created_at = env.now;
    updated_at = env.now;
    id = id;
    refund_no = next_no env "REF";
    amount = amount;
    reason = trim_optional params.reason;
    status = "pending";
    provider_refund_no = none;
    reviewed_at = none;
    metadata = trim_optional params.metadata;
    tenant_id = order.tenant_id;
    payment_order_id = order.id;
    requested_by = some actor.id;
    reviewed_by = none;
  }

  -- the columns that a review sets
  unfoldable pub reviewed : User → String → PaymentRefund → PaymentRefund
  reviewed actor status refund = record refund {
    status = status;
    reviewed_by = some actor.id;
    reviewed_at = some env.now;
  }

module _ {db : Database} (env : Env) (pid : String) where
  unfoldable pub get_callback : ℕ → Handler (World db) PaymentCallbackRecord
  get_callback id = do
    actor ← authorize env.parse_uuid pid "system:payment_callback:list"
    callback ← find_visible_callback actor id
    pure (callback_record env callback)

  unfoldable pub create_refund :
      ℕ → CreatePaymentRefundParams → Handler (World db) PaymentRefundRecord
  create_refund id params = do
    actor ← authorize env.parse_uuid pid "system:payment_refund:create"
    order ← find_visible_order actor id
    if not (contains ("paid" ∷ "refunding" ∷ []) order.status)
        then raise (bad_request "payment order cannot be refunded")
        else do
          refund_amount ← lift (parse_amount params.amount)
          order_amount ← lift (parse_amount order.amount)
          if ltb order_amount refund_amount
              then raise (bad_request "refund amount exceeds payment amount")
              else do
                lift (check_given env params.metadata (validate_json env "metadata"))
                amount ← lift (normalize_amount params.amount)
                refund ← insert on_payment_refunds (new_refund env actor order params amount)
                _ ← update on_payment_orders order.id (λ o. record o { status = "refunding" })
                pure (refund_record env refund)

  unfoldable pub review_refund : ℕ → String → Handler (World db) PaymentRefundRecord
  review_refund id status = do
    lift (validate_value status refund_statuses "unsupported refund status")
    actor ← authorize env.parse_uuid pid "system:payment_refund:review"
    refund ← find_visible_refund actor id
    if not (str_eq refund.status "pending")
        then raise (bad_request "refund is not pending review")
        else do
          saved ← update on_payment_refunds refund.id (reviewed env actor status)
          pure (refund_record env saved)

  unfoldable pub approve_refund : ℕ → Handler (World db) PaymentRefundRecord
  approve_refund id = review_refund id "approved"

  unfoldable pub reject_refund : ℕ → Handler (World db) PaymentRefundRecord
  reject_refund id = review_refund id "rejected"

  unfoldable pub mark_refund_succeeded : ℕ → Handler (World db) PaymentRefundRecord
  mark_refund_succeeded id = do
    actor ← authorize env.parse_uuid pid "system:payment_refund:review"
    refund ← find_visible_refund actor id
    if not (contains ("approved" ∷ "processing" ∷ []) refund.status)
        then raise (bad_request "refund cannot be marked succeeded")
        else do
          saved ← update on_payment_refunds refund.id (reviewed env actor "succeeded")
          found ← query (row on_payment_orders saved.payment_order_id)
          order ← lift (ok_or found (bad_request "payment order not found"))
          _ ← update on_payment_orders order.id (λ o. record o { status = "refunded" })
          pure (refund_record env saved)
