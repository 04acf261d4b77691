-- ===== src/Examples/WorkOrders.antt =====
-- The theorems on work orders at the example tables.
use rust_template.Base.{◌≡◌, refl, sym, ap, ◌∙◌, ◌⊎◌, ◌↔◌, none, some, []}
use rust_template.Api.{ok, err, bad_request, forbidden}
use rust_template.Db.Memory.{memory}
use rust_template.Db.Handler.{Ends, Runs}
use rust_template.Db.Rules.{ReadsIf}
use rust_template.Db.Rows.{row, find_one, select, all_rows}
use rust_template.Entities.Orders.{WorkOrder}
use rust_template.World.{World, on_work_orders}
use rust_template.Rbac.Visible.{CanSee, LookupFails}
use rust_template.WorkOrders.Validate.{validate_transition}
use rust_template.WorkOrders.Visible.{
  visible_condition, is_visible, find_visible_work_order, find_visible_work_order_lem,
  work_order_condition-is_visible,
}
use rust_template.WorkOrders.Params.{TransitionWorkOrderParams}
use rust_template.WorkOrders.Orders.{delete, transition}
use rust_template.WorkOrders.Life.Moved.{Moved, MovedOrNot, transition_lem}
use rust_template.WorkOrders.Life.{Transition, WorkGrows, Intact}
use rust_template.WorkOrders.Life.Transitions.{validate_transition_lem}
use rust_template.WorkOrders.Life.Delete.{Removes, delete_lem}
use rust_template.WorkOrders.Life.Reach.{
  WorkRequest, change_of, DeletesOrder, post_transition, remove_attachment, WorkReach, after_work,
  after_work_order, reach-Intact,
}
use rust_template.Examples.{
  env, clerk, work_order, comment, attachment, tables, tables-UniqueCodes, only_one,
}

stored : row on_work_orders 1 tables ≡ some work_order
unfolding row find_one select
stored = refl

tables-Intact : Intact tables
unfolding all_rows
tables-Intact = record {
  comments = λ c m. (
    work_order,
    ap (λ x. row on_work_orders x.work_order_id tables) (only_one comment m) ∙ stored,
  );
  assignments = λ a m. elim m [ ];
  attachments = λ a m. (
    work_order,
    ap (λ x. row on_work_orders x.work_order_id tables) (only_one attachment m) ∙ stored,
  );
  once = λ a b m n e f. only_one attachment m ∙ sym (only_one attachment n);
}

abbrev closing : WorkRequest
closing = post_transition 1 (record { status = "closed"; comment = none })

-- the tables after the order is closed and its attachment removed
abbrev later : World memory
later = after_work env "admin" (remove_attachment 1 1) [] (after_work env "admin" closing [] tables)

reach-Intact_example : Intact later
reach-Intact_example = reach-Intact tables later tables-Intact tables-UniqueCodes (
    WorkReach.next env "admin" (remove_attachment 1 1) []
      (WorkReach.next env "admin" closing [] WorkReach.start))

after_work_order_example :
    (DeletesOrder closing 1
      × (row on_work_orders 1 (after_work env "admin" closing [] tables) ≡ none))
    ⊎ ((o' : WorkOrder) × (row on_work_orders 1 (after_work env "admin" closing [] tables)
          ≡ some o')
        × WorkGrows (change_of closing) work_order o')
after_work_order_example =
    after_work_order tables tables-Intact tables-UniqueCodes env "admin" closing [] 1 work_order
      stored

validate_transition_lem_example :
    (validate_transition "resolved" "closed" ≡ ok tt ↔ Transition "resolved" "closed")
    × ((validate_transition "resolved" "closed" ≡ ok tt)
        ⊎ (validate_transition "resolved" "closed"
            ≡ err (bad_request "unsupported work order status"))
        ⊎ (validate_transition "resolved" "closed"
            ≡ err (bad_request "unsupported work order transition")))
validate_transition_lem_example = validate_transition_lem "resolved" "closed"

delete_lem_example : Runs (delete env "admin" 1) tables (Removes tables 1)
delete_lem_example = delete_lem tables 1 tables-Intact tables-UniqueCodes env "admin"

find_visible_work_order_lem_example :
    ReadsIf ⊥
      (find_visible_work_order clerk 1)
      tables
      (λ o.
        (row on_work_orders 1 tables ≡ some o)
        × CanSee tables on_work_orders clerk (is_visible clerk) o)
      (LookupFails tables on_work_orders clerk
        (is_visible clerk)
        ⊥
        (bad_request "work order not found")
        (forbidden "work order is not visible")
        1)
find_visible_work_order_lem_example = find_visible_work_order_lem tables clerk 1

work_order_condition-is_visible_example :
    visible_condition clerk work_order ≡ is_visible clerk work_order
work_order_condition-is_visible_example = work_order_condition-is_visible clerk work_order

abbrev to_closed : TransitionWorkOrderParams
to_closed = record { status = "closed"; comment = none }

transition_lem_example : Runs (transition env "admin" 1 to_closed) tables (λ r w'.
    Ends
      (Moved tables env "admin" 1 to_closed w')
      (λ e. MovedOrNot tables env "admin" 1 to_closed w')
      r)
transition_lem_example = transition_lem tables env "admin" 1 to_closed tables-UniqueCodes
