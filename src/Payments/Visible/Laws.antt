-- ===== src/Payments/Visible/Laws.antt =====
-- The list queries and the lookups agree on who sees a row.
use rust_template.Base.{
  ℕ, ◌≡◌, ◌≢◌, refl, ◌⊎◌, inl, inr, ◌↔◌, false, Option, none, some, is_some_of, is_none, arith,
}
use rust_template.Api.{bad_request, forbidden}
use rust_template.Db.Interface.{Database}
use rust_template.Db.Rules.{ReadsIf}
use rust_template.Db.Rows.{row}
use rust_template.Entities.Access.{User}
use rust_template.Entities.Payment.{PaymentChannel, PaymentOrder, PaymentCallback, PaymentRefund}
use rust_template.World.{World, on_payment_orders, on_payment_refunds, on_payment_channels}
use rust_template.Rbac.Visible.{CanSee, LookupFails, find_visible_lem}
use rust_template.Payments.Visible.{
  channel_visible_condition, order_visible_condition, callback_visible_condition,
  refund_visible_condition, tenant_is_visible, channel_is_visible, order_is_visible,
  find_visible_order, find_visible_refund, find_visible_channel,
}

-- The condition of the list of orders and of channels admits exactly the rows that the lookup of
-- one order or channel admits.
pub visible_condition-is_visible :
    (actor : User) (order : PaymentOrder) (channel : PaymentChannel)
    → (order_visible_condition actor order ≡ order_is_visible actor order)
      × (channel_visible_condition actor channel ≡ channel_is_visible actor channel)
unfolding order_visible_condition order_is_visible channel_visible_condition channel_is_visible
    tenant_is_visible
visible_condition-is_visible actor order channel = (ground arith, ground arith)

by_tenant_agree :
    (actor tenant_id : Option ℕ)
    → ((elim actor [ none ↦ is_none tenant_id | some t ↦ is_some_of tenant_id t ])
        ≡ (elim actor [ none ↦ false | some t ↦ is_some_of tenant_id t ]))
      ↔ ((actor ≢ none) ⊎ (tenant_id ≢ none))
by_tenant_agree none none =
    (λ e. absurd (cc (e)), λ d. elim d [ inl n ↦ absurd (n refl) | inr n ↦ absurd (n refl) ])
by_tenant_agree none (some t) = (λ e. inr (λ h. cc), λ d. refl)
by_tenant_agree (some a) t = (λ e. inl (λ h. cc), λ d. refl)

-- For callbacks and refunds the list and the lookup agree on a row exactly if the actor has a
-- tenant or the row has one: an actor without a tenant is listed the rows without a tenant, which
-- the lookup refuses.
pub list_lookup_agree :
    (actor : User) (callback : PaymentCallback) (refund : PaymentRefund)
    → ((callback_visible_condition actor callback ≡ tenant_is_visible actor callback.tenant_id)
        ↔ ((actor.tenant_id ≢ none) ⊎ (callback.tenant_id ≢ none)))
      × ((refund_visible_condition actor refund ≡ tenant_is_visible actor refund.tenant_id)
          ↔ ((actor.tenant_id ≢ none) ⊎ (refund.tenant_id ≢ none)))
unfolding callback_visible_condition refund_visible_condition tenant_is_visible
list_lookup_agree actor callback refund = (
  by_tenant_agree actor.tenant_id callback.tenant_id,
  by_tenant_agree actor.tenant_id refund.tenant_id,
)

module _ {db : Database} (w : World db) (actor : User) where
  -- `find_visible_order` returns the stored order with that id if the actor may see it. Otherwise
  -- it says that there is none, or that it is not visible, each exactly in that case, unless a
  -- query fails; it writes nothing.
  pub find_visible_order_lem :
      {F : Type 0} (id : ℕ)
      → ReadsIf F
          (find_visible_order actor id)
          w
          (λ o.
            (row on_payment_orders id w ≡ some o)
            × CanSee w on_payment_orders actor (order_is_visible actor) o)
          (LookupFails w on_payment_orders actor
            (order_is_visible actor)
            F
            (bad_request "payment order not found")
            (forbidden "payment order is not visible")
            id)
  unfolding find_visible_order
  find_visible_order_lem = find_visible_lem w on_payment_orders actor (order_is_visible actor) _ _

  -- `find_visible_refund` returns the stored refund with that id if the actor may see it. Otherwise
  -- it says that there is none, or that it is not visible, each exactly in that case, unless a
  -- query fails; it writes nothing.
  pub find_visible_refund_lem :
      {F : Type 0} (id : ℕ)
      → ReadsIf F
          (find_visible_refund actor id)
          w
          (λ r.
            (row on_payment_refunds id w ≡ some r)
            × CanSee w on_payment_refunds actor (λ x. tenant_is_visible actor x.tenant_id) r)
          (LookupFails w on_payment_refunds actor
            (λ x. tenant_is_visible actor x.tenant_id)
            F
            (bad_request "payment refund not found")
            (forbidden "payment refund is not visible")
            id)
  unfolding find_visible_refund
  find_visible_refund_lem =
      find_visible_lem w on_payment_refunds actor (λ x. tenant_is_visible actor x.tenant_id) _ _

  -- `find_visible_channel` returns the stored channel with that id if the actor may see it.
  -- Otherwise it says that there is none, or that it is not visible, each exactly in that case,
  -- unless a query fails; it writes nothing.
  pub find_visible_channel_lem :
      {F : Type 0} (id : ℕ)
      → ReadsIf F
          (find_visible_channel actor id)
          w
          (λ c.
            (row on_payment_channels id w ≡ some c)
            × CanSee w on_payment_channels actor (channel_is_visible actor) c)
          (LookupFails w on_payment_channels actor
            (channel_is_visible actor)
            F
            (bad_request "payment channel not found")
            (forbidden "payment channel is not visible")
            id)
  unfolding find_visible_channel
  find_visible_channel_lem =
      find_visible_lem w on_payment_channels actor (channel_is_visible actor) _ _
