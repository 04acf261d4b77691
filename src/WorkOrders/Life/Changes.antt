-- ===== src/WorkOrders/Life/Changes.antt =====
-- What each change of an order in src/controllers/admin/work_orders.rs makes of its row: the
-- records its handlers write back.
use mathlib.Core.Option
use rust_template.Base.{
  inl, inr, ℕ, String, ◌≡◌, refl, Bool, true, false, ◌&&◌, Option, is_some, str_eq, eq_iff,
  if◌then◌else◌, arith,
}
use rust_template.Env.{Env}
use rust_template.Entities.Access.{User}
use rust_template.Entities.Orders.{WorkOrder}
use rust_template.WorkOrders.Params.{SaveWorkOrderParams}
use rust_template.WorkOrders.Orders.{
  new_work_order, reassigned, saved_work_order, moved_work_order, assigned_work_order,
  is_assignee_changed,
}
use rust_template.WorkOrders.Life.{
  moved_to, filled, assigned_anew, Allowed, Transition, WorkMoves, WorkGrows,
}
use rust_template.WorkOrders.Life.Steps.{WorkGrows-refl}

module _ (env : Env) where
  pub moved_key : (t : String) (o : WorkOrder) → (moved_work_order env t o).id ≡ o.id
  unfolding moved_work_order
  moved_key t o = refl

  pub moved_grows :
      (t : String) (o : WorkOrder)
      → Transition o.status t
      → WorkGrows (moved_to t) o (moved_work_order env t o)
  unfolding moved_work_order Allowed
  moved_grows t o e = record {
    same_no = refl;
    same_tenant = refl;
    same_creator = refl;
    moves = inr (e, refl);
  }

  pub assigned_key : (a : ℕ) (o : WorkOrder) → (assigned_work_order env a o).id ≡ o.id
  unfolding assigned_work_order
  assigned_key a o = refl

  pub assigned_grows :
      (a : ℕ) (o : WorkOrder) → WorkGrows assigned_anew o (assigned_work_order env a o)
  unfolding assigned_work_order Allowed
  assigned_grows a o = record {
    same_no = refl;
    same_tenant = refl;
    same_creator = refl;
    moves = inr refl;
  }

  reassigned_grows :
      (params : SaveWorkOrderParams) (o : WorkOrder)
      → ((reassigned env params o).id ≡ o.id) × WorkGrows filled o (reassigned env params o)
  unfolding reassigned Allowed
  reassigned_grows params o = by_change (is_assignee_changed o.assignee_id params.assignee_id)
    where
      moves :
          (c : Bool)
          → (c ≡ true → o.status ≡ "open")
          → WorkMoves filled o.status (if c then "assigned" else o.status)
      moves true e = inr (e refl, refl)
      moves false e = inl refl

      Changed : WorkOrder
      Changed = record o {
        assigned_at = Option.map (λ _. env.now) params.assignee_id;
        status =
            if is_some params.assignee_id && str_eq o.status "open" then "assigned" else o.status;
      }

      by_change :
          (b : Bool)
          → ((if b then Changed else o).id ≡ o.id) × WorkGrows filled o (if b then Changed else o)
      by_change true = (
        refl,
        record {
          same_no = refl;
          same_tenant = refl;
          same_creator = refl;
          moves =
              moves (is_some params.assignee_id && str_eq o.status "open")
                (λ e. (eq_iff o.status "open").0 (ground arith));
        },
      )
      by_change false = (refl, WorkGrows-refl o)

  pub saved_key :
      (params : SaveWorkOrderParams) (due_at : Option ℕ) (o : WorkOrder)
      → (saved_work_order env params due_at o).id ≡ o.id
  unfolding saved_work_order
  saved_key params due_at o = (reassigned_grows params o).0

  pub saved_grows :
      (params : SaveWorkOrderParams) (due_at : Option ℕ) (o : WorkOrder)
      → WorkGrows filled o (saved_work_order env params due_at o)
  unfolding saved_work_order
  saved_grows params due_at o =
      let g = (reassigned_grows params o).1 in
      record {
        same_no = g.same_no;
        same_tenant = g.same_tenant;
        same_creator = g.same_creator;
        moves = g.moves;
      }

  pub new_key :
      (actor : User) (params : SaveWorkOrderParams) (due_at : Option ℕ) (n : ℕ)
      → (new_work_order env actor params due_at n).id ≡ n
  unfolding new_work_order
  new_key actor params due_at n = refl
