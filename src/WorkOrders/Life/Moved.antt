-- ===== src/WorkOrders/Life/Moved.antt =====
-- What `transition` of src/controllers/admin/work_orders.rs has done when it answers.
use mathlib.Core.List.{Memᴰ}
use rust_template.Base.{ℕ, String, ◌≡◌, refl, ap, ◌∙◌, ◌⊎◌, inl, inr, Option, some, ==_iff}
use rust_template.Db.Interface.{Database}
use rust_template.Db.Handler.{◌>>=◌, pure, Ends, Runs, Runs-pure, Runs-bind}
use rust_template.Db.Rules.{Runs-reads, Runs-check}
use rust_template.Db.Rows.{
  update, row, find_one, select, all_rows, inserted, updated, Runs-insert, Runs-update, row-updated,
  row-key, key-row,
}
use rust_template.Db.Members.{mem-inserted_self}
use rust_template.Env.{Env}
use rust_template.Entities.Access.{User}
use rust_template.Entities.Orders.{WorkOrder, WorkOrderComment}
use rust_template.World.{World, on_work_orders, on_work_order_comments}
use rust_template.Rbac.Check.{UniqueCodes, IsNamed, authorize_lem}
use rust_template.Rbac.Grants.{Grants}
use rust_template.Rbac.Visible.{CanSee}
use rust_template.WorkOrders.Params.{TransitionWorkOrderParams}
use rust_template.WorkOrders.Records.{WorkOrderRecord, work_order_record}
use rust_template.WorkOrders.Visible.{is_visible, find_visible_work_order_lem}
use rust_template.WorkOrders.Children.{new_comment, create_comment_record}
use rust_template.WorkOrders.Orders.{moved_work_order, transition_body, transition}
use rust_template.WorkOrders.Life.{Transition}
use rust_template.WorkOrders.Life.MovedRow.{
  commented, IsMoved, moved_work_order-IsMoved, commented-IsMoved, answered_before, moved_id,
}
use rust_template.WorkOrders.Life.Transitions.{validate_transition_lem}

module _ {db : Database} (w : World db) (env : Env) (pid : String) (id : ℕ)
    (params : TransitionWorkOrderParams) where
  -- who acted, on which order, and what is stored and answered
  pub record Moved (w' : World db) (answer : WorkOrderRecord) : Type 0 where
    pub actor : User
    pub order : WorkOrder
    pub moved : WorkOrder
    pub comment : WorkOrderComment
    pub named : IsNamed w env.parse_uuid pid actor
    pub granted : Grants w actor.id "system:work_order:transition"
    pub visible : CanSee w on_work_orders actor (is_visible actor) order
    pub before : row on_work_orders id w ≡ some order
    pub allowed : Transition order.status params.status
    pub stored : row on_work_orders id w' ≡ some moved
    pub is_moved : IsMoved env params.status order moved
    pub comment_time : moved.last_comment_at ≡ some env.now
    pub listed : Memᴰ comment (all_rows on_work_order_comments w')
    pub of_order : comment.work_order_id ≡ id
    pub author : comment.author_id ≡ some actor.id
    pub from_status : comment.from_status ≡ some order.status
    pub to_status : comment.to_status ≡ some params.status
    pub answered :
        answer ≡ work_order_record env (record moved { last_comment_at = order.last_comment_at })

  -- setting columns of the order with the id
  set_row :
      (v : World db) (j : ℕ) (f : WorkOrder → WorkOrder) (o : WorkOrder)
      → ((x : WorkOrder) → (f x).id ≡ x.id)
      → j ≡ id
      → row on_work_orders id v ≡ some o
      → row on_work_orders id (updated on_work_orders j f v) ≡ some (f o)
  set_row v j f o k q e = row-updated on_work_orders j id f v k ∙ rw ((==_iff j id).1 q, e) refl

  after_comment :
      (v : World db) (mk : ℕ → WorkOrderComment)
      → row on_work_orders id (inserted on_work_order_comments mk v).1 ≡ row on_work_orders id v
  unfolding row find_one select inserted
  after_comment v mk = refl

  listed_after :
      (v : World db) (j : ℕ) (f : WorkOrder → WorkOrder) {c : WorkOrderComment}
      → Memᴰ c (all_rows on_work_order_comments v)
      → Memᴰ c (all_rows on_work_order_comments (updated on_work_orders j f v))
  unfolding all_rows updated
  listed_after v j f m = m

  -- when it fails, the order is as it was, or moved already by an allowed step
  abbrev pub MovedOrNot : World db → Type 0
  MovedOrNot w' =
      (row on_work_orders id w' ≡ row on_work_orders id w)
      ⊎ ((order : WorkOrder) × (row on_work_orders id w ≡ some order)
          × Transition order.status params.status
          × ((moved : WorkOrder) × (row on_work_orders id w' ≡ some moved)
              × IsMoved env params.status order moved))

  comment_fields :
      (o : WorkOrder) (author : Option ℕ) (body type : String) (from to : Option String)
      (v : World db)
      → let c =
          (inserted on_work_order_comments (new_comment env o author body type from to) v).0 in
        (c.work_order_id ≡ o.id)
        × (c.author_id ≡ author)
        × (c.from_status ≡ from)
        × (c.to_status ≡ to)
        × (c.created_at ≡ env.now)
  unfolding inserted new_comment
  comment_fields o author body type from to v = (refl, refl, refl, refl, refl)

  set_commented_time :
      (v : World db) (o : WorkOrder) (c : WorkOrderComment) (author : Option ℕ)
      (from to : Option String)
      → o.id ≡ id
      → row on_work_orders id v ≡ some o
      → Memᴰ c (all_rows on_work_order_comments v)
      → (c.work_order_id ≡ o.id)
        × (c.author_id ≡ author)
        × (c.from_status ≡ from)
        × (c.to_status ≡ to)
        × (c.created_at ≡ env.now)
      → Runs
          (update on_work_orders o.id (λ x. record x { last_comment_at = some c.created_at })
            >>= λ _. pure c)
          v
          (λ r u.
            Ends
              (λ d.
                (row on_work_orders id u ≡ some (record o { last_comment_at = some env.now }))
                × Memᴰ d (all_rows on_work_order_comments u)
                × (d.work_order_id ≡ o.id)
                × (d.author_id ≡ author)
                × (d.from_status ≡ from)
                × (d.to_status ≡ to))
              (λ e. row on_work_orders id u ≡ some o)
              r)
  set_commented_time v o c author from to same e m (p, q, f, g, now) =
      let set = λ (x : WorkOrder). record x { last_comment_at = some c.created_at } in
      Runs-bind
        (λ r u.
          Ends
            (λ _.
              (row on_work_orders id u ≡ some (set o)) × Memᴰ c (all_rows on_work_order_comments u))
            (λ d. row on_work_orders id u ≡ some o) r)
        _ _
        (Runs-update on_work_orders o.id set o (λ x. refl)
          (ap (λ i. row on_work_orders i v) same ∙ e)
          (set_row v o.id set o (λ x. refl) same e, listed_after v o.id set m) e)
        (λ x u s.
          Runs-pure _
            (s.0 ∙ ap (λ n. some (record o { last_comment_at = some n })) now, s.1, p, q, f, g))
        (λ d u s. s)

  create_comment_record_stores :
      (v : World db) (o : WorkOrder) (author : Option ℕ) (body type : String)
      (from to : Option String)
      → o.id ≡ id
      → row on_work_orders id v ≡ some o
      → Runs (create_comment_record env o author body type from to) v (λ r u.
        Ends
          (λ c.
            (row on_work_orders id u ≡ some (record o { last_comment_at = some env.now }))
            × Memᴰ c (all_rows on_work_order_comments u)
            × (c.work_order_id ≡ o.id)
            × (c.author_id ≡ author)
            × (c.from_status ≡ from)
            × (c.to_status ≡ to))
          (λ e. row on_work_orders id u ≡ some o)
          r)
  unfolding create_comment_record
  create_comment_record_stores v o author body type from to same e =
      let mk = new_comment env o author body type from to in
      let (p, q, f, g, now) = comment_fields o author body type from to v in
      Runs-bind
        (λ r u.
          Ends
            (λ c.
              (c ≡ (inserted on_work_order_comments mk v).0)
              × (u ≡ (inserted on_work_order_comments mk v).1))
            (λ d. row on_work_orders id u ≡ some o) r)
        _ _ (Runs-insert on_work_order_comments mk (refl, refl) e)
        (λ c u s. rw s.0 (
          rw s.1 (
            set_commented_time _ o _ author from to same (after_comment v mk ∙ e)
              (mem-inserted_self on_work_order_comments mk v) (p, q, f, g, now))))
        (λ d u s. s)

  -- If permission codes are unique, `transition` answers only if the user that the claims name was
  -- granted the action and may see the order, and the change is a step of the life cycle. Then the
  -- order is stored with the status and the time of the comment. A step to resolved or closed sets
  -- the time of this and no other step does; the number, tenant, creator, assignee, title and
  -- priority stay. A comment of the user is stored that names the status before and after, and the
  -- answer shows the order, with the time of the last comment that it had before. When it fails,
  -- the order is as it was or moved by such a step.
  pub transition_lem :
      UniqueCodes w
      → Runs (transition env pid id params) w (λ r w'. Ends (Moved w') (λ e. MovedOrNot w') r)
  unfolding transition create_comment_record
  transition_lem unique =
      Runs-reads _ (authorize_lem w env.parse_uuid pid "system:work_order:transition" unique)
        (λ actor a.
          Runs-reads _ (find_visible_work_order_lem w actor id)
            (λ order o.
              Runs-check _ _
                (λ u ok_move.
                  let t = params.status in
                  let allowed = (validate_transition_lem order.status t).0.0 ok_move in
                  let moved = moved_work_order env t order in
                  let same : order.id ≡ id = key-row on_work_orders id w o.0 in
                  Runs-bind
                    (λ r v.
                      Ends (λ x. (x ≡ moved) × (row on_work_orders id v ≡ some moved))
                        (λ e. MovedOrNot v) r)
                    _ _
                    (Runs-update on_work_orders order.id (moved_work_order env t) order
                      (moved_id env t) (row-key on_work_orders id w o.0)
                      (
                        refl,
                        set_row w order.id (moved_work_order env t) order (moved_id env t) same o.0,
                      )
                      (inl refl))
                    (λ x v s. rw s.0 (
                      Runs-bind
                        (λ r u.
                          Ends
                            (λ c.
                              (row on_work_orders id u ≡ some (commented env t order))
                              × Memᴰ c (all_rows on_work_order_comments u)
                              × (c.work_order_id ≡ moved.id)
                              × (c.author_id ≡ some actor.id)
                              × (c.from_status ≡ some order.status)
                              × (c.to_status ≡ some t))
                            (λ e. row on_work_orders id u ≡ some moved) r)
                        _ _
                        (create_comment_record_stores v moved (some actor.id)
                          (transition_body params) "status_change" (some order.status) (some t)
                          (moved_id env t order ∙ same) s.1)
                        (λ c u q. Runs-pure _ (record {
                          actor = actor;
                          order = order;
                          moved = commented env t order;
                          comment = c;
                          named = a.0;
                          granted = a.1;
                          visible = o.1;
                          before = o.0;
                          allowed = allowed;
                          stored = q.0;
                          is_moved = commented-IsMoved env t order;
                          comment_time = refl;
                          listed = q.1;
                          of_order = q.2 ∙ moved_id env t order ∙ same;
                          author = q.3;
                          from_status = q.4;
                          to_status = q.5;
                          answered = answered_before env t order;
                        }))
                        (λ e u q.
                          inr (
                            order,
                            o.0,
                            allowed,
                            (moved, q, moved_work_order-IsMoved env t order),
                          ))))
                    (λ e v s. s))
                (λ e q. inl refl))
            (λ e q. inl refl))
        (λ e q. inl refl)
