-- ===== src/Examples/Access.antt =====
-- The theorems on access and visibility at the example tables.
use mathlib.Core.List.{Memᴰ}
use rust_template.Base.{ℕ, ◌≡◌, ◌≢◌, ◌⊎◌, ◌↔◌, true, none, some, [], ◌∷◌}
use rust_template.Api.{forbidden, bad_request}
use rust_template.Db.Rules.{ReadsIf}
use rust_template.Db.Rows.{row}
use rust_template.World.{on_payment_orders, on_payment_refunds, on_payment_channels}
use rust_template.Rbac.Ids.{unique_ids, IsIncreasing, unique_ids_lem}
use rust_template.Rbac.Roles.{
  model_error, load_user_roles, is_super_admin, user_has_permission, assert_permission,
}
use rust_template.Rbac.Grants.{IsSuperAdmin, Grants, AreRolesOf, load_user_roles_lem}
use rust_template.Rbac.Authorize.{authorize}
use rust_template.Rbac.Check.{
  CheckFails, IsNamed, is_super_admin_lem, user_has_permission_lem, assert_permission_lem,
  authorize_lem,
}
use rust_template.Rbac.Visible.{CanSee, LookupFails}
use rust_template.Payments.Visible.{
  channel_visible_condition, order_visible_condition, callback_visible_condition,
  refund_visible_condition, tenant_is_visible, channel_is_visible, order_is_visible,
  find_visible_order, find_visible_refund, find_visible_channel,
}
use rust_template.Payments.Visible.Laws.{
  visible_condition-is_visible, list_lookup_agree, find_visible_order_lem, find_visible_refund_lem,
  find_visible_channel_lem,
}
use rust_template.Examples.{
  env, clerk, guest, channel, paid, callback, refund, tables, tables-UniqueCodes,
}

user_has_permission_lem_example :
    ReadsIf ⊥
      (user_has_permission 2 "system:payment_order:list")
      tables
      (λ b. (b ≡ true) ↔ Grants tables 2 "system:payment_order:list")
      (CheckFails tables ⊥ "system:payment_order:list")
user_has_permission_lem_example =
    user_has_permission_lem tables 2 "system:payment_order:list" tables-UniqueCodes

assert_permission_lem_example :
    ReadsIf ⊥
      (assert_permission 3 "system:payment_order:list")
      tables
      (λ _. Grants tables 3 "system:payment_order:list")
      (λ e.
        CheckFails tables ⊥ "system:payment_order:list" e
        ⊎ ((e ≡ forbidden "permission denied") × (¬ Grants tables 3 "system:payment_order:list")))
assert_permission_lem_example =
    assert_permission_lem tables 3 "system:payment_order:list" tables-UniqueCodes

authorize_lem_example :
    ReadsIf ⊥
      (authorize env.parse_uuid "clerk" "system:payment_order:list")
      tables
      (λ user.
        IsNamed tables env.parse_uuid "clerk" user
        × Grants tables user.id "system:payment_order:list")
      (λ e. Unit)
authorize_lem_example =
    authorize_lem tables env.parse_uuid "clerk" "system:payment_order:list" tables-UniqueCodes

load_user_roles_lem_example :
    ReadsIf ⊥ (load_user_roles 2) tables (AreRolesOf tables 2) (λ e. ⊥ × (e ≡ model_error))
load_user_roles_lem_example = load_user_roles_lem tables 2

is_super_admin_lem_example :
    ReadsIf ⊥
      (is_super_admin 2)
      tables
      (λ b. (b ≡ true) ↔ IsSuperAdmin tables 2)
      (λ e. ⊥ × (e ≡ model_error))
is_super_admin_lem_example = is_super_admin_lem tables 2

find_visible_order_lem_example :
    ReadsIf ⊥
      (find_visible_order clerk 1)
      tables
      (λ o.
        (row on_payment_orders 1 tables ≡ some o)
        × CanSee tables on_payment_orders clerk (order_is_visible clerk) o)
      (LookupFails tables on_payment_orders clerk
        (order_is_visible clerk)
        ⊥
        (bad_request "payment order not found")
        (forbidden "payment order is not visible")
        1)
find_visible_order_lem_example = find_visible_order_lem tables clerk 1

find_visible_refund_lem_example :
    ReadsIf ⊥
      (find_visible_refund guest 1)
      tables
      (λ r.
        (row on_payment_refunds 1 tables ≡ some r)
        × CanSee tables on_payment_refunds guest (λ x. tenant_is_visible guest x.tenant_id) r)
      (LookupFails tables on_payment_refunds guest
        (λ x. tenant_is_visible guest x.tenant_id)
        ⊥
        (bad_request "payment refund not found")
        (forbidden "payment refund is not visible")
        1)
find_visible_refund_lem_example = find_visible_refund_lem tables guest 1

find_visible_channel_lem_example :
    ReadsIf ⊥
      (find_visible_channel guest 1)
      tables
      (λ c.
        (row on_payment_channels 1 tables ≡ some c)
        × CanSee tables on_payment_channels guest (channel_is_visible guest) c)
      (LookupFails tables on_payment_channels guest
        (channel_is_visible guest)
        ⊥
        (bad_request "payment channel not found")
        (forbidden "payment channel is not visible")
        1)
find_visible_channel_lem_example = find_visible_channel_lem tables guest 1

visible_condition-is_visible_example :
    (order_visible_condition clerk paid ≡ order_is_visible clerk paid)
    × (channel_visible_condition clerk channel ≡ channel_is_visible clerk channel)
visible_condition-is_visible_example = visible_condition-is_visible clerk paid channel

list_lookup_agree_example :
    ((callback_visible_condition guest callback ≡ tenant_is_visible guest callback.tenant_id)
      ↔ ((guest.tenant_id ≢ none) ⊎ (callback.tenant_id ≢ none)))
    × ((refund_visible_condition guest refund ≡ tenant_is_visible guest refund.tenant_id)
        ↔ ((guest.tenant_id ≢ none) ⊎ (refund.tenant_id ≢ none)))
list_lookup_agree_example = list_lookup_agree guest callback refund

unique_ids_lem_example :
    IsIncreasing (unique_ids (3 ∷ 1 ∷ 3 ∷ 2 ∷ []))
    × ((a : ℕ)
        → (Memᴰ a (unique_ids (3 ∷ 1 ∷ 3 ∷ 2 ∷ [])) → Memᴰ a (3 ∷ 1 ∷ 3 ∷ 2 ∷ []))
          × (Memᴰ a (3 ∷ 1 ∷ 3 ∷ 2 ∷ []) → Memᴰ a (unique_ids (3 ∷ 1 ∷ 3 ∷ 2 ∷ []))))
unique_ids_lem_example = unique_ids_lem (3 ∷ 1 ∷ 3 ∷ 2 ∷ [])
