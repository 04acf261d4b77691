-- ===== src/WorkOrders/Life/Handlers.antt =====
-- The handlers of src/controllers/admin/work_orders.rs as steps of the life cycle.
use rust_template.Base.{ℕ, String, Option, none, some}
use rust_template.Db.Interface.{Database}
use rust_template.Db.Handler.{Ends, Runs-weaken, Runs-bind, pure, ◌>>=◌}
use rust_template.Db.Rules.{Runs-if, Runs-reads, Runs-check, Runs-bind-query}
use rust_template.Db.Rows.{Runs-insert, Runs-delete_many, row-key}
use rust_template.Db.Members.{row-inserted_self}
use rust_template.Env.{Env}
use rust_template.Entities.Access.{User}
use rust_template.Entities.Orders.{WorkOrder}
use rust_template.World.{World, on_work_orders, on_work_order_attachments}
use rust_template.Rbac.Check.{UniqueCodes, authorize_lem}
use rust_template.WorkOrders.Params.{
  SaveWorkOrderParams, TransitionWorkOrderParams, CreateWorkOrderCommentParams,
  AssignWorkOrderParams, CreateWorkOrderAttachmentParams,
}
use rust_template.WorkOrders.Visible.{find_visible_work_order_lem}
use rust_template.WorkOrders.Children.{create_assignment_record}
use rust_template.WorkOrders.Orders.{
  new_work_order, saved_work_order, moved_work_order, assigned_work_order, record_assignee, create,
  update_work_order, is_assignee_changed, transition, create_comment, assign, create_attachment,
  delete_attachment,
}
use rust_template.WorkOrders.Life.{
  Change, kept, moved_to, filled, assigned_anew, IsStored, Intact, WorkStep,
}
use rust_template.WorkOrders.Life.Changes.{
  moved_key, moved_grows, assigned_key, assigned_grows, saved_key, saved_grows, new_key,
}
use rust_template.WorkOrders.Life.Transitions.{validate_transition_lem}
use rust_template.WorkOrders.Life.Steps.{WorkStep-refl, WorkStep-trans, insert_work_order_step}
use rust_template.WorkOrders.Life.Rows.{delete_attachments_step}
use rust_template.WorkOrders.Life.Keeps.{
  Moving, IsStored-after, Runs-step, Moving-pure, ensure_assignee_lem, Runs-set,
  create_assignment_record_lem, create_comment_record_lem, add_attachment_record_lem,
  add_attachment_records_lem,
}

module _ {db : Database} {w : World db} where
  record_assignee_lem :
      {k : Change}
      → Intact w
      → (env : Env) (pid : String) (actor : User) (o : WorkOrder) → IsStored w o.id
      → Moving k (record_assignee env pid actor o) w
  unfolding record_assignee
  record_assignee_lem {k} h env pid actor o s = by_assignee o.assignee_id
    where
      by_assignee :
          (a : Option ℕ)
          → Moving k
              (elim a [
                | none ↦ pure tt
                | some assignee_id ↦
                    create_assignment_record env o assignee_id (some actor.id) none >>= λ _. pure tt
              ])
              w
      by_assignee none = Moving-pure h tt
      by_assignee (some assignee_id) =
          Runs-step _ _ (create_assignment_record_lem h env o assignee_id _ _ s)
            (λ x w' t. Moving-pure t.intact tt)

module _ {db : Database} {w : World db} (h : Intact w) (unique : UniqueCodes w) (env : Env)
    (pid : String) where
  stays : {k : Change} → WorkStep k w w
  stays = WorkStep-refl h

  pub transition-WorkStep :
      (id : ℕ) (params : TransitionWorkOrderParams)
      → Moving (moved_to params.status) (transition env pid id params) w
  unfolding transition
  transition-WorkStep id params =
      Runs-reads _ (authorize_lem w env.parse_uuid pid "system:work_order:transition" unique)
        (λ actor a.
          Runs-reads _ (find_visible_work_order_lem w actor id)
            (λ order o.
              Runs-check _ _
                (λ u v.
                  Runs-set h (moved_work_order env params.status) order _
                    (moved_key env params.status) (row-key on_work_orders id w o.0)
                    (moved_grows env params.status order
                      ((validate_transition_lem order.status params.status).0.0 v))
                    (λ w' s stored.
                      Runs-step _ _ (create_comment_record_lem s.intact env _ stored _ _ _ _ _)
                        (λ x w'' t. Moving-pure t.intact _)))
                (λ e q. stays))
            (λ e q. stays))
        (λ e q. stays)

  pub assign-WorkStep :
      (id : ℕ) (params : AssignWorkOrderParams) → Moving assigned_anew (assign env pid id params) w
  unfolding assign
  assign-WorkStep id params =
      Runs-reads _ (authorize_lem w env.parse_uuid pid "system:work_order:assign" unique)
        (λ actor a.
          Runs-reads _ (ensure_assignee_lem h (some params.assignee_id))
            (λ u v.
              Runs-reads _ (find_visible_work_order_lem w actor id)
                (λ order o.
                  Runs-set h (assigned_work_order env params.assignee_id) order _
                    (assigned_key env params.assignee_id) (row-key on_work_orders id w o.0)
                    (assigned_grows env params.assignee_id order)
                    (λ w' s stored.
                      Runs-step _ _ (create_assignment_record_lem s.intact env _ _ _ _ stored)
                        (λ x w'' t.
                          Runs-step _ _
                            (create_comment_record_lem t.intact env _
                              (IsStored-after w' w'' _ t stored) _ _ _ _ _)
                            (λ y u q. Moving-pure q.intact _))))
                (λ e q. stays))
            (λ e q. stays))
        (λ e q. stays)

  pub create_comment-WorkStep :
      (id : ℕ) (params : CreateWorkOrderCommentParams)
      → Moving kept (create_comment env pid id params) w
  unfolding create_comment
  create_comment-WorkStep id params =
      Runs-reads _ (authorize_lem w env.parse_uuid pid "system:work_order:comment" unique)
        (λ actor a.
          Runs-check _ _
            (λ u v.
              Runs-reads _ (find_visible_work_order_lem w actor id)
                (λ order o.
                  Runs-step _ _
                    (create_comment_record_lem h env order (order, row-key on_work_orders id w o.0)
                      _ _ _ _ _)
                    (λ x w'' t. Moving-pure t.intact _))
                (λ e q. stays))
            (λ e q. stays))
        (λ e q. stays)

  pub create_attachment-WorkStep :
      (id : ℕ) (params : CreateWorkOrderAttachmentParams)
      → Moving kept (create_attachment env pid id params) w
  unfolding create_attachment
  create_attachment-WorkStep id params =
      Runs-reads _ (authorize_lem w env.parse_uuid pid "system:work_order:attachment" unique)
        (λ actor a.
          Runs-reads _ (find_visible_work_order_lem w actor id)
            (λ order o.
              add_attachment_record_lem h env order (order, row-key on_work_orders id w o.0) _ _ _)
            (λ e q. stays))
        (λ e q. stays)

  pub delete_attachment-WorkStep :
      (id attachment_id : ℕ) → Moving kept (delete_attachment env pid id attachment_id) w
  unfolding delete_attachment
  delete_attachment-WorkStep id attachment_id =
      Runs-reads _ (authorize_lem w env.parse_uuid pid "system:work_order:attachment" unique)
        (λ actor a.
          Runs-reads _ (find_visible_work_order_lem w actor id)
            (λ order o.
              Runs-bind-query _ _
                (Runs-check _ _
                  (λ x f.
                    Runs-delete_many on_work_order_attachments _ (delete_attachments_step _ h)
                      stays)
                  (λ e q. stays))
                stays)
            (λ e q. stays))
        (λ e q. stays)

  pub update_work_order-WorkStep :
      (id : ℕ) (params : SaveWorkOrderParams)
      → Moving filled (update_work_order env pid id params) w
  unfolding update_work_order
  update_work_order-WorkStep id params =
      Runs-reads _ (authorize_lem w env.parse_uuid pid "system:work_order:update" unique)
        (λ actor a.
          Runs-check _ _
            (λ u v.
              Runs-reads _ (ensure_assignee_lem h params.assignee_id)
                (λ x y.
                  Runs-reads _ (find_visible_work_order_lem w actor id)
                    (λ order o.
                      Runs-check _ _
                        (λ due_at t.
                          Runs-set h (saved_work_order env params due_at) order _
                            (saved_key env params due_at) (row-key on_work_orders id w o.0)
                            (saved_grows env params due_at order)
                            (λ w' s stored.
                              Runs-step _ _
                                (Runs-if (is_assignee_changed order.assignee_id params.assignee_id)
                                  _ _ (λ d. record_assignee_lem s.intact env pid actor _ stored)
                                  (λ d. Moving-pure s.intact tt))
                                (λ z w'' q.
                                  Runs-step _ _
                                    (add_attachment_records_lem env _ _ _ w'' q.intact
                                      (IsStored-after w' w'' _ q stored))
                                    (λ z2 u2 q2. Moving-pure q2.intact _))))
                        (λ e q. stays))
                    (λ e q. stays))
                (λ e q. stays))
            (λ e q. stays))
        (λ e q. stays)

  pub create-WorkStep : (params : SaveWorkOrderParams) → Moving kept (create env pid params) w
  unfolding create
  create-WorkStep params =
      Runs-reads _ (authorize_lem w env.parse_uuid pid "system:work_order:create" unique)
        (λ actor a.
          Runs-check _ _
            (λ u v.
              Runs-reads _ (ensure_assignee_lem h params.assignee_id)
                (λ x y.
                  Runs-check _ _
                    (λ due_at t.
                      Runs-bind
                        (λ r w'. WorkStep kept w w' × Ends (λ o. IsStored w' o.id) (λ e. Unit) r) _
                        _
                        (Runs-insert on_work_orders (new_work_order env actor params due_at)
                          (
                            insert_work_order_step (new_work_order env actor params due_at) h
                                (new_key env actor params due_at),
                            (
                              _,
                              row-inserted_self on_work_orders
                                  (new_work_order env actor params due_at) w
                                  (new_key env actor params due_at),
                            ),
                          )
                          (stays, tt))
                        (λ order w' s.
                          Runs-weaken
                            (Runs-step _ _ (record_assignee_lem s.0.intact env pid actor order s.1)
                              (λ z w'' q.
                                Runs-step _ _
                                  (add_attachment_records_lem env _ _ _ w'' q.intact
                                    (IsStored-after w' w'' _ q s.1))
                                  (λ z2 u2 q2. Moving-pure q2.intact _)))
                            (λ r u q. WorkStep-trans s.0 q))
                        (λ e w' s. s.0))
                    (λ e q. stays))
                (λ e q. stays))
            (λ e q. stays))
        (λ e q. stays)
