-- ===== src/Examples/Payments.antt =====
-- The theorems on payments at the example tables.
use mathlib.Core.List.{Memᴰ}
use mathlib.Core.List.Memᴰ
use rust_template.Base.{none, ℕ, ◌≡◌, refl, ◌⊎◌, inl, inr, some, [], ◌∷◌, ◌==◌, arith}
use rust_template.Api.{ok, err, bad_request}
use rust_template.Db.Memory.{memory}
use rust_template.Db.Handler.{Ends, Runs, RunsIf, call, query, lift, ◌>>=◌}
use rust_template.Base.Sort.{sort_by, insert_by}
use rust_template.Rbac.Ids.{unique_ids}
use rust_template.Rbac.Roles.{
  assert_permission, user_has_permission, load_user_roles, is_super_admin, has_super_admin_role,
  enabled_roles, load,
}
use rust_template.Rbac.Authorize.{authorize, find_by_pid}
use rust_template.Payments.Visible.{find_visible_order, find_visible_refund}
use rust_template.Payments.Refunds.{reviewed, mark_refund_succeeded}
use rust_template.Payments.Params.{MarkPaymentPaidParams}
use rust_template.Payments.Moves.Paid.{Paid, PaidOrNot, mark_order_paid_lem}
use rust_template.Payments.Orders.{
  mark_order_paid, create_callback_record, paid_order, cancel_order,
}
use rust_template.Db.Rows.{
  insert, inserted, update, updated, row, find_one, select, all_rows, find_one-some,
}
use rust_template.Entities.Payment.{PaymentOrder, PaymentRefund}
use rust_template.World.{World, on_payment_orders, on_payment_refunds}
use rust_template.Payments.Amount.{
  parse_amount, normalize_amount, parts, cents_of, parse_i64, checked_mul, checked_add, pad2,
  first2, amount_text,
}
use rust_template.Base.Text.{trim, split_once, digits_value}
use rust_template.Payments.Amount.RoundTrip.{parse_amount-normalize_amount}
use rust_template.Payments.Channels.{delete_channel}
use rust_template.Payments.Moves.{IsSettled, Backed, AllBacked, OrderGrows, RefundGrows}
use rust_template.Payments.Moves.Others.{Deletes, delete_channel_lem}
use rust_template.Payments.Moves.Reach.{
  mark_paid, mark_succeeded, cancel, Reach, serve, after, Reach-Backed, Reach-order, Reach-refund,
  Reach-IsSettled, Reach-cancelled, Reach-final_refund,
}
use rust_template.Examples.{
  env, paid, cancelled, refund, rejected, tables, tables-UniqueCodes, only_one,
}

backed : (r : PaymentRefund) (refunded : ℕ) → (r ≡ refund) ⊎ (r ≡ rejected) → Backed tables r
unfolding row find_one select parse_amount normalize_amount trim parts split_once cents_of parse_i64
    digits_value checked_mul checked_add pad2 first2
backed r n (inl e) = rw e (record {
  order = paid;
  stored = refl;
  settled = refl;
  refunded = 3000;
  charged = 10000;
  refund_amount = refl;
  order_amount = refl;
  covered = omega arith;
})
backed r n (inr e) = rw e (record {
  order = paid;
  stored = refl;
  settled = refl;
  refunded = 9999;
  charged = 10000;
  refund_amount = refl;
  order_amount = refl;
  covered = omega arith;
})

one_of : {A : Type 0} (x y : A) {a : A} → Memᴰ a (x ∷ y ∷ []) → (a ≡ x) ⊎ (a ≡ y)
one_of x y m = elim (Memᴰ.cases_cons m) [ inl e ↦ inl e | inr k ↦ inr (only_one y k) ]

tables-AllBacked : AllBacked tables
unfolding row all_rows
tables-AllBacked id r e =
    backed r 0
      (one_of refund rejected (find_one-some on_payment_refunds (λ x. x.id == id) tables e).0)

-- the refund 1 is marked as succeeded, and then a cancellation of the order fails
abbrev later : World memory
later = after env "admin" (cancel 1) [] (after env "admin" (mark_succeeded 1) [] tables)

later-Reach : Reach tables later
later-Reach =
    Reach.next env "admin" (cancel 1) [] (Reach.next env "admin" (mark_succeeded 1) [] Reach.start)

-- the refund in `later`
abbrev done : PaymentRefund
done = record refund { status = "succeeded"; reviewed_by = some 1; reviewed_at = some 42 }

later_refund : row on_payment_refunds 1 later ≡ some done
unfolding row find_one select after serve mark_refund_succeeded cancel_order authorize find_by_pid
    assert_permission user_has_permission load_user_roles is_super_admin has_super_admin_role
    enabled_roles load sort_by insert_by unique_ids find_visible_refund find_visible_order reviewed
    update updated call query lift ◌>>=◌
later_refund = refl

Reach-Backed_example : Backed later done
Reach-Backed_example =
    Reach-Backed tables later tables-AllBacked tables-UniqueCodes later-Reach 1 done later_refund

paid_stored : row on_payment_orders 1 tables ≡ some paid
unfolding row find_one select
paid_stored = refl

Reach-order_example :
    (o' : PaymentOrder) × (row on_payment_orders 1 later ≡ some o') × OrderGrows paid o'
Reach-order_example =
    Reach-order tables later tables-AllBacked tables-UniqueCodes later-Reach 1 paid paid_stored

Reach-IsSettled_example :
    (o' : PaymentOrder) × (row on_payment_orders 1 later ≡ some o') × IsSettled o'.status
Reach-IsSettled_example =
    Reach-IsSettled tables later tables-AllBacked tables-UniqueCodes later-Reach 1 paid paid_stored
      refl

cancelled_stored : row on_payment_orders 2 tables ≡ some cancelled
unfolding row find_one select
cancelled_stored = refl

Reach-cancelled_example :
    (o' : PaymentOrder) × (row on_payment_orders 2 later ≡ some o') × (o'.status ≡ "cancelled")
Reach-cancelled_example =
    Reach-cancelled tables later tables-AllBacked tables-UniqueCodes later-Reach 2 cancelled
      cancelled_stored refl

refund_stored : row on_payment_refunds 1 tables ≡ some refund
unfolding row find_one select
refund_stored = refl

Reach-refund_example :
    (x' : PaymentRefund) × (row on_payment_refunds 1 later ≡ some x') × RefundGrows refund x'
Reach-refund_example =
    Reach-refund tables later tables-AllBacked tables-UniqueCodes later-Reach 1 refund refund_stored

rejected_stored : row on_payment_refunds 2 tables ≡ some rejected
unfolding row find_one select
rejected_stored = refl

Reach-final_refund_example :
    (x' : PaymentRefund) × (row on_payment_refunds 2 later ≡ some x') × (x'.status ≡ "rejected")
Reach-final_refund_example =
    Reach-final_refund tables later tables-AllBacked tables-UniqueCodes later-Reach 2 rejected
      rejected_stored refl

delete_channel_lem_example : Runs (delete_channel env "admin" 2) tables (Deletes tables 2)
delete_channel_lem_example = delete_channel_lem tables tables-UniqueCodes env "admin" 2

normalized : normalize_amount " 12.5 " ≡ ok "12.50"
unfolding parse_amount normalize_amount trim parts split_once cents_of parse_i64 digits_value
    checked_mul checked_add pad2 first2 amount_text
normalized = refl

parse_amount-normalize_amount_example :
    (c : ℕ) × (parse_amount " 12.5 " ≡ ok c) × (parse_amount "12.50" ≡ ok c)
parse_amount-normalize_amount_example = parse_amount-normalize_amount " 12.5 " "12.50" normalized

abbrev paying : MarkPaymentPaidParams
paying = record { trade_no = some "T1"; payer_id = none; payload = none }

mark_order_paid_lem_example : RunsIf ⊥ (mark_order_paid env "admin" 3 paying) tables (λ r w'.
    Ends
      (Paid ⊥ tables env "admin" 3 paying w')
      (λ e. PaidOrNot ⊥ tables env "admin" 3 paying w')
      r)
mark_order_paid_lem_example = mark_order_paid_lem ⊥ tables env "admin" 3 paying tables-UniqueCodes

-- without faults the pending order is marked
marks_paid :
    ((serve env "admin" (mark_paid 3 paying) (record { world = tables; faults = [] })).0 ≡ ok tt)
    × ((serve env "admin" (mark_paid 1 paying) (record { world = tables; faults = [] })).0
        ≡ err (bad_request "payment order cannot be marked paid"))
unfolding row find_one select serve mark_order_paid authorize find_by_pid assert_permission
    user_has_permission load_user_roles is_super_admin has_super_admin_role enabled_roles load
    sort_by insert_by unique_ids find_visible_order update updated insert inserted call query lift
    ◌>>=◌ create_callback_record paid_order
marks_paid = (refl, refl)
