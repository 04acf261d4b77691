-- ===== src/WorkOrders/Life/Reach.antt =====
-- The states of the tables that requests to src/controllers/admin/work_orders.rs lead to, in any
-- order, by any users, at any times and with any database failures.
use rust_template.Base.{
  ℕ, String, ◌≡◌, ◌⊎◌, inl, inr, Bool, List, some, none, ◌==◌, ==_iff, arith, Bool-cases, ◌∙◌,
}
use rust_template.Api.{Result, ok, err}
use rust_template.Db.Interface.{Database}
use rust_template.Db.Handler.{Handler, Runs, Runs-bind, Runs-pure, Runs-weaken, ◌>>=◌, pure}
use rust_template.Db.Rows.{row, all_rows}
use rust_template.Env.{Env}
use rust_template.Entities.Orders.{WorkOrder}
use rust_template.World.{World, on_work_orders}
use rust_template.Rbac.Check.{UniqueCodes}
use rust_template.WorkOrders.Params.{
  SaveWorkOrderParams, TransitionWorkOrderParams, CreateWorkOrderCommentParams,
  AssignWorkOrderParams, CreateWorkOrderAttachmentParams,
}
use rust_template.WorkOrders.Orders.{
  create, update_work_order, delete, transition, create_comment, assign, create_attachment,
  delete_attachment,
}
use rust_template.WorkOrders.Life.{
  Change, kept, moved_to, filled, assigned_anew, WorkGrows, Intact, WorkStep,
}
use rust_template.WorkOrders.Life.Steps.{WorkGrows-refl}
use rust_template.WorkOrders.Life.Handlers.{
  transition-WorkStep, assign-WorkStep, create_comment-WorkStep, create_attachment-WorkStep,
  delete_attachment-WorkStep, update_work_order-WorkStep, create-WorkStep,
}
use rust_template.WorkOrders.Life.Delete.{delete_lem, Removes}

-- the routes of `routes()` that write
pub data WorkRequest : Type 0 where
  post : SaveWorkOrderParams → WorkRequest
  put : ℕ → SaveWorkOrderParams → WorkRequest
  remove : ℕ → WorkRequest
  post_transition : ℕ → TransitionWorkOrderParams → WorkRequest
  post_comment : ℕ → CreateWorkOrderCommentParams → WorkRequest
  post_assign : ℕ → AssignWorkOrderParams → WorkRequest
  post_attachment : ℕ → CreateWorkOrderAttachmentParams → WorkRequest
  remove_attachment : ℕ → ℕ → WorkRequest

-- what a request may do to the status of an order
unfoldable pub change_of : WorkRequest → Change
change_of (put id params) = filled
change_of (post_transition id params) = moved_to params.status
change_of (post_assign id params) = assigned_anew
change_of _ = kept

-- the request deletes the order
unfoldable pub DeletesOrder : WorkRequest → ℕ → Type 0
DeletesOrder (remove j) id = j ≡ id
DeletesOrder _ id = ⊥

module _ {db : Database} where
  -- the answer is not part of the state
  abbrev answered : {A : Type 0} → Handler (World db) A → Handler (World db) (Unit {0})
  answered m = m >>= λ _. pure tt

  unfoldable pub serve_work : Env → String → WorkRequest → Handler (World db) (Unit {0})
  serve_work env pid (post params) = answered (create env pid params)
  serve_work env pid (put id params) = answered (update_work_order env pid id params)
  serve_work env pid (remove id) = delete env pid id
  serve_work env pid (post_transition id params) = answered (transition env pid id params)
  serve_work env pid (post_comment id params) = answered (create_comment env pid id params)
  serve_work env pid (post_assign id params) = answered (assign env pid id params)
  serve_work env pid (post_attachment id params) = answered (create_attachment env pid id params)
  serve_work env pid (remove_attachment id attachment_id) =
      delete_attachment env pid id attachment_id

  -- the tables after one request
  unfoldable pub after_work : Env → String → WorkRequest → List Bool → World db → World db
  unfolding serve_work
  after_work env pid request faults w =
      (serve_work env pid request (record { world = w; faults = faults })).1.world

  -- the tables that requests lead to from `w`
  pub data WorkReach (w : World db) : World db → Type 0 where
    start : WorkReach w w
    next :
        {v : World db} (env : Env) (pid : String) (request : WorkRequest) (faults : List Bool)
        → WorkReach w v
        → WorkReach w (after_work env pid request faults v)

  -- what one request does to the tables: an order is deleted, or stays and grows
  pub record WorkServed (request : WorkRequest) (w w' : World db) : Type 0 where
    pub orders :
        (id : ℕ) (o : WorkOrder)
        → row on_work_orders id w ≡ some o
        → (DeletesOrder request id × (row on_work_orders id w' ≡ none))
          ⊎ ((o' : WorkOrder) × (row on_work_orders id w' ≡ some o')
              × WorkGrows (change_of request) o o')
    pub intact : Intact w'
    pub permissions : w'.permissions ≡ w.permissions

  step_served :
      {request : WorkRequest} {w w' : World db}
      → WorkStep (change_of request) w w'
      → WorkServed request w w'
  step_served s = record {
    orders = λ id o e. inr (s.orders id o e);
    intact = s.intact;
    permissions = s.permissions;
  }

  answered_served :
      {request : WorkRequest} {A : Type 0} {w : World db} (m : Handler (World db) A)
      → Runs m w (λ r w'. WorkStep (change_of request) w w')
      → Runs (answered m) w (λ r w'. WorkServed request w w')
  answered_served {request} {A} {w} m h =
      Runs-bind (λ r w'. WorkStep (change_of request) w w') m _ h
        (λ a w' s. Runs-pure tt (step_served s)) (λ e w' s. step_served s)

  Removes-served :
      (w : World db) (id : ℕ) (r : Result (Unit {0})) (w' : World db)
      → Removes w id r w'
      → WorkServed (remove id) w w'
  unfolding change_of DeletesOrder
  Removes-served w id (err e) w' s = step_served s
  Removes-served w id (ok u) w' (gone, none_there, k, others, p) = record {
    orders = λ j o e. elim (Bool-cases (id == j)) [
      | inl d ↦ inl ((==_iff id j).0 d, rw ((==_iff id j).0 d) at gone)
      | inr d ↦ inr (o, others j (λ q. ground arith) ∙ e, WorkGrows-refl o)
    ];
    intact = k;
    permissions = p;
  }

  serve_all :
      {w : World db}
      → Intact w
      → UniqueCodes w
      → (env : Env) (pid : String) (request : WorkRequest)
      → Runs (serve_work env pid request) w (λ r w'. WorkServed request w w')
  unfolding serve_work change_of
  serve_all h u env pid (post params) = answered_served _ (create-WorkStep h u env pid params)
  serve_all h u env pid (put id params) =
      answered_served _ (update_work_order-WorkStep h u env pid id params)
  serve_all {w} h u env pid (remove id) =
      Runs-weaken (delete_lem w id h u env pid) (Removes-served w id)
  serve_all h u env pid (post_transition id params) =
      answered_served _ (transition-WorkStep h u env pid id params)
  serve_all h u env pid (post_comment id params) =
      answered_served _ (create_comment-WorkStep h u env pid id params)
  serve_all h u env pid (post_assign id params) =
      answered_served _ (assign-WorkStep h u env pid id params)
  serve_all h u env pid (post_attachment id params) =
      answered_served _ (create_attachment-WorkStep h u env pid id params)
  serve_all h u env pid (remove_attachment id attachment_id) =
      Runs-weaken (delete_attachment-WorkStep h u env pid id attachment_id)
        (λ r w' s. step_served s)

  after_work-WorkServed :
      (w : World db)
      → Intact w
      → UniqueCodes w
      → (env : Env) (pid : String) (request : WorkRequest) (faults : List Bool)
      → WorkServed request w (after_work env pid request faults w)
  unfolding after_work
  after_work-WorkServed w h u env pid request faults =
      (serve_all h u env pid request).ends faults (λ _. tt)

  -- One request to intact tables with unique permission codes, whichever of its database calls
  -- fail: an order that is stored is gone only if the request deletes it. Else it keeps its number,
  -- tenant and creator, and its status is as it was or changed as the request may: a transition
  -- makes the step of the life cycle to the status that it names, an update makes an open order
  -- assigned, and an assignment makes any order assigned. No other request changes the status.
  pub after_work_order :
      (w : World db)
      → Intact w
      → UniqueCodes w
      → (env : Env) (pid : String) (request : WorkRequest) (faults : List Bool)
      → (id : ℕ) (o : WorkOrder) → row on_work_orders id w ≡ some o
      → (DeletesOrder request id
          × (row on_work_orders id (after_work env pid request faults w) ≡ none))
        ⊎ ((o' : WorkOrder) × (row on_work_orders id (after_work env pid request faults w)
              ≡ some o')
            × WorkGrows (change_of request) o o')
  after_work_order w h u env pid request faults =
      (after_work-WorkServed w h u env pid request faults).orders

  codes_kept : {w v : World db} → v.permissions ≡ w.permissions → UniqueCodes w → UniqueCodes v
  unfolding all_rows
  codes_kept e u = record { same = λ p q m n. u.same p q (rw e at m) (rw e at n) }

  reach_both :
      {w v : World db} → Intact w → UniqueCodes w → WorkReach w v → Intact v × UniqueCodes v
  reach_both h u WorkReach.start = (h, u)
  reach_both h u (WorkReach.next {v} env pid request faults r) =
      let (k, c) = reach_both h u r in
      let s = after_work-WorkServed v k c env pid request faults in
      (s.intact, codes_kept s.permissions c)

  -- Whatever requests are served, by whom, when and with whichever database calls failing: every
  -- stored comment, assignment and attachment belongs to a stored order, and no file is attached
  -- to an order twice. It holds of all tables reached from tables where it holds and permission
  -- codes are unique.
  pub reach-Intact : (w v : World db) → Intact w → UniqueCodes w → WorkReach w v → Intact v
  reach-Intact w v h u r = (reach_both h u r).0
