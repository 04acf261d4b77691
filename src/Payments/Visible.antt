-- ===== src/Payments/Visible.antt =====
-- Who sees which channel, order, callback and refund: the conditions of the list queries and the
-- tests and lookups of the other handlers in src/controllers/admin/payments.rs.
pub mod Laws
use rust_template.Base.{
  ℕ, String, Bool, false, ◌||◌, Option, none, some, is_some_of, is_none, if◌then◌else◌,
}
use rust_template.Api.{Result, ok_or, bad_request, forbidden}
use rust_template.Db.Interface.{Database}
use rust_template.Db.Handler.{Handler, query, lift, pure, raise, ◌>>=◌}
use rust_template.Db.Rows.{row}
use rust_template.Entities.Access.{User}
use rust_template.Entities.Payment.{PaymentChannel, PaymentOrder, PaymentCallback, PaymentRefund}
use rust_template.World.{
  World, on_payment_channels, on_payment_orders, on_payment_callbacks, on_payment_refunds,
}
use rust_template.Rbac.Roles.{is_super_admin}

-- `Column::TenantId.eq(tenant_id)` is added for an actor with a tenant.
abbrev or_tenant : User → Option ℕ → Bool → Bool
or_tenant actor tenant_id other = elim actor.tenant_id [
  | none ↦ other
  | some t ↦ other || is_some_of tenant_id t
]

-- a condition by the tenant alone: no tenant matches rows without one
abbrev by_tenant : User → Option ℕ → Bool
by_tenant actor tenant_id = elim actor.tenant_id [
  | none ↦ is_none tenant_id
  | some t ↦ is_some_of tenant_id t
]

unfoldable pub channel_visible_condition : User → PaymentChannel → Bool
channel_visible_condition actor channel =
    or_tenant actor channel.tenant_id (is_none channel.tenant_id)

unfoldable pub order_visible_condition : User → PaymentOrder → Bool
order_visible_condition actor order =
    or_tenant actor order.tenant_id (is_some_of order.created_by actor.id)

unfoldable pub callback_visible_condition : User → PaymentCallback → Bool
callback_visible_condition actor callback = by_tenant actor callback.tenant_id

unfoldable pub refund_visible_condition : User → PaymentRefund → Bool
refund_visible_condition actor refund = by_tenant actor refund.tenant_id

unfoldable pub tenant_is_visible : User → Option ℕ → Bool
tenant_is_visible actor tenant_id = elim actor.tenant_id [
  | none ↦ false
  | some actor_tenant_id ↦ is_some_of tenant_id actor_tenant_id
]

unfoldable pub channel_is_visible : User → PaymentChannel → Bool
channel_is_visible actor channel =
    is_none channel.tenant_id
    || elim actor.tenant_id [ none ↦ false | some t ↦ is_some_of channel.tenant_id t ]

unfoldable pub order_is_visible : User → PaymentOrder → Bool
order_is_visible actor order =
    is_some_of order.created_by actor.id || tenant_is_visible actor order.tenant_id

module _ {db : Database} (actor : User) where
  unfoldable pub find_visible_channel : ℕ → Handler (World db) PaymentChannel
  find_visible_channel id = do
    found ← query (row on_payment_channels id)
    channel ← lift (ok_or found (bad_request "payment channel not found"))
    super ← is_super_admin actor.id
    if super || channel_is_visible actor channel
        then pure channel
        else raise (forbidden "payment channel is not visible")

  unfoldable pub find_visible_order : ℕ → Handler (World db) PaymentOrder
  find_visible_order id = do
    found ← query (row on_payment_orders id)
    order ← lift (ok_or found (bad_request "payment order not found"))
    super ← is_super_admin actor.id
    if super || order_is_visible actor order
        then pure order
        else raise (forbidden "payment order is not visible")

  unfoldable pub find_visible_callback : ℕ → Handler (World db) PaymentCallback
  find_visible_callback id = do
    found ← query (row on_payment_callbacks id)
    callback ← lift (ok_or found (bad_request "payment callback not found"))
    super ← is_super_admin actor.id
    if super || tenant_is_visible actor callback.tenant_id
        then pure callback
        else raise (forbidden "payment callback is not visible")

  unfoldable pub find_visible_refund : ℕ → Handler (World db) PaymentRefund
  find_visible_refund id = do
    found ← query (row on_payment_refunds id)
    refund ← lift (ok_or found (bad_request "payment refund not found"))
    super ← is_super_admin actor.id
    if super || tenant_is_visible actor refund.tenant_id
        then pure refund
        else raise (forbidden "payment refund is not visible")
