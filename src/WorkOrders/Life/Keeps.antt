-- ===== src/WorkOrders/Life/Keeps.antt =====
-- Every work order handler changes the tables by steps of the life cycle only, whichever of its
-- database calls fail.
use rust_template.Base.{
  inl, ℕ, String, ◌≡◌, refl, false, ◌&&◌, Option, none, some, List, [], ◌∷◌, is_some, ◌==◌, arith,
}
use rust_template.Api.{database_error}
use rust_template.Db.Interface.{Database}
use rust_template.Db.Handler.{
  Handler, Ends, Runs, Runs-weaken, Runs-pure, Runs-raise, Runs-bind, pure, ◌>>=◌,
}
use rust_template.Db.Rules.{Runs-if, Runs-check, Runs-bind-query, Reads}
use rust_template.Db.Rows.{
  row, inserted, find_one, insert, update, Runs-insert, Runs-update, find_one-none,
}
use rust_template.Env.{Env}
use rust_template.Entities.Orders.{WorkOrder}
use rust_template.World.{
  World, on_work_orders, on_work_order_comments, on_work_order_assignments,
  on_work_order_attachments,
}
use rust_template.WorkOrders.Children.{
  ensure_assignee, create_assignment_record, create_comment_record, attachment_record,
  add_attachment_record, add_attachment_records, new_assignment, new_comment, new_attachment,
}
use rust_template.WorkOrders.Life.{Change, WorkGrows, IsStored, Intact, WorkStep}
use rust_template.WorkOrders.Life.Steps.{WorkStep-refl, WorkStep-trans, update_work_order_step}
use rust_template.WorkOrders.Life.Rows.{
  insert_comment_step, insert_assignment_step, insert_attachment_step,
}

is_some-none : {A : Type 0} {o : Option A} → is_some o ≡ false → o ≡ none
is_some-none {o = none} h = refl
is_some-none {o = some a} h = absurd (cc (h))

both_differ : (a b c d : ℕ) → a ≡ b → c ≡ d → ¬ ((a == b && c == d) ≡ false)
both_differ a b c d p q h = ground arith

module _ {db : Database} where
  abbrev pub Moving : Change → {A : Type 0} → Handler (World db) A → World db → Type 0
  Moving k m w = Runs m w (λ r w'. WorkStep k w w')

  pub IsStored-after :
      {k : Change} (w w' : World db) (id : ℕ) → WorkStep k w w' → IsStored w id → IsStored w' id
  IsStored-after w w' id s (o, e) = let (o', e', g) = s.orders id o e in (o', e')

  -- the rule for a step of a `do` block that changes the tables
  pub Runs-step :
      {k : Change} {A B : Type 0} {w : World db} (m : Handler (World db) A)
      (f : A → Handler (World db) B)
      → Moving k m w
      → ((a : A) (w' : World db) → WorkStep k w w' → Moving k (f a) w')
      → Moving k (m >>= f) w
  Runs-step {k} m f h next =
      Runs-bind (λ r w'. WorkStep k _ w') m f h
        (λ a w' s. Runs-weaken (next a w' s) (λ r u t. WorkStep-trans s t)) (λ e w' s. s)

  module _ {w : World db} (h : Intact w) where
    pub ensure_assignee_lem : (o : Option ℕ) → Reads (ensure_assignee o) w (λ _. Unit) (λ _. Unit)
    unfolding ensure_assignee
    ensure_assignee_lem none = Runs-pure tt (refl, tt)
    ensure_assignee_lem (some id) =
        Runs-bind-query _ _ (Runs-check _ _ (λ u e. Runs-pure tt (refl, tt)) (λ e q. (refl, tt)))
          (refl, tt)

  module _ {k : Change} {w : World db} (h : Intact w) where
    pub Moving-pure : {A : Type 0} (a : A) → Moving k (pure a) w
    Moving-pure a = Runs-pure a (WorkStep-refl h)

    -- setting columns of an order that was read
    pub set_work_order :
        (f : WorkOrder → WorkOrder) (o : WorkOrder)
        → ((x : WorkOrder) → (f x).id ≡ x.id)
        → row on_work_orders o.id w ≡ some o
        → WorkGrows k o (f o)
        → Runs
            (update on_work_orders o.id f)
            w
            (λ r w'. WorkStep k w w' × Ends (λ x. x ≡ f o) (λ e. e ≡ database_error) r)
    set_work_order f o same e g =
        Runs-update on_work_orders o.id f o same e
          (update_work_order_step o.id f o h same e g, refl) (WorkStep-refl h, refl)

    -- the rule for a step that sets columns of an order that was read
    pub Runs-set :
        {B : Type 0} (f : WorkOrder → WorkOrder) (o : WorkOrder)
        (g : WorkOrder → Handler (World db) B)
        → ((x : WorkOrder) → (f x).id ≡ x.id)
        → row on_work_orders o.id w ≡ some o
        → WorkGrows k o (f o)
        → ((w' : World db) → WorkStep k w w' → IsStored w' (f o).id → Moving k (g (f o)) w')
        → Moving k (update on_work_orders o.id f >>= g) w
    Runs-set f o g same e q next =
        Runs-bind (λ r w'. WorkStep k w w' × Ends (λ x. x ≡ f o) (λ e. e ≡ database_error) r) _ g
          (set_work_order f o same e q)
          (λ x w' s. rw s.1 (
            Runs-weaken (next w' s.0 (rw (same o) (IsStored-after w w' o.id s.0 (o, e))))
              (λ r u t. WorkStep-trans s.0 t)))
          (λ d w' s. s.0)

    pub create_assignment_record_lem :
        (env : Env) (o : WorkOrder) (assignee_id : ℕ) (by : Option ℕ) (text : Option String)
        → IsStored w o.id
        → Moving k (create_assignment_record env o assignee_id by text) w
    unfolding create_assignment_record inserted new_assignment
    create_assignment_record_lem env o assignee_id by text s =
        Runs-insert on_work_order_assignments _ (insert_assignment_step _ h s) (WorkStep-refl h)

  -- the time of the last comment is not part of the life cycle
  set_commented :
      {k : Change} (w : World db) (id : ℕ) (t : ℕ)
      → Intact w
      → IsStored w id
      → Moving k (update on_work_orders id (λ o. record o { last_comment_at = some t })) w
  set_commented w id t h (o, e) =
      Runs-update on_work_orders id (λ o. record o { last_comment_at = some t }) o (λ x. refl) e
        (update_work_order_step id (λ o. record o { last_comment_at = some t }) o h (λ x. refl) e
          (record { same_no = refl; same_tenant = refl; same_creator = refl; moves = inl refl }))
        (WorkStep-refl h)

  module _ {k : Change} {w : World db} (h : Intact w) (env : Env) (o : WorkOrder)
      (s : IsStored w o.id) where
    insert_comment :
        (author : Option ℕ) (body type : String) (from to : Option String)
        → Moving k (insert on_work_order_comments (new_comment env o author body type from to)) w
    unfolding inserted new_comment
    insert_comment author body type from to =
        Runs-insert on_work_order_comments _ (insert_comment_step _ h s) (WorkStep-refl h)

    pub create_comment_record_lem :
        (author : Option ℕ) (body type : String) (from to : Option String)
        → Moving k (create_comment_record env o author body type from to) w
    unfolding create_comment_record
    create_comment_record_lem author body type from to =
        Runs-step _ _ (insert_comment author body type from to) (λ c w' t.
          Runs-step _ _ (set_commented w' o.id c.created_at t.intact (IsStored-after w w' o.id t s))
            (λ x u q. Moving-pure q.intact c))

    insert_attachment :
        (file : ℕ) (by : Option ℕ) (description : Option String)
        → find_one on_work_order_attachments
            (λ a. a.work_order_id == o.id && a.upload_file_id == file)
            w
          ≡ none
        → Moving k (insert on_work_order_attachments (new_attachment env o file by description)) w
    unfolding inserted new_attachment
    insert_attachment file by description e =
        Runs-insert on_work_order_attachments _
          (insert_attachment_step _ h s
            (λ a m p q. both_differ _ _ _ _ p q (find_one-none on_work_order_attachments _ w e m)))
          (WorkStep-refl h)

    pub add_attachment_record_lem :
        (file : ℕ) (by : Option ℕ) (description : Option String)
        → Moving k (add_attachment_record env o file by description) w
    unfolding add_attachment_record attachment_record
    add_attachment_record_lem file by description =
        Runs-bind-query _ _
          (Runs-check _ _
            (λ f e.
              Runs-bind-query _ _
                (Runs-if
                  (is_some (
                    find_one on_work_order_attachments
                      (λ a. a.work_order_id == o.id && a.upload_file_id == file) w))
                  _ _ (λ d. Runs-raise _ (WorkStep-refl h))
                  (λ d.
                    Runs-step _ _ (insert_attachment file by description (is_some-none d))
                      (λ a w' t.
                        Runs-bind-query _ _ (Moving-pure t.intact _) (WorkStep-refl t.intact))))
                (WorkStep-refl h))
            (λ e q. WorkStep-refl h))
          (WorkStep-refl h)

  pub add_attachment_records_lem :
      {k : Change} (env : Env) (o : WorkOrder) (by : Option ℕ) (files : List ℕ) (w : World db)
      → Intact w
      → IsStored w o.id
      → Moving k (add_attachment_records env o by files) w
  unfolding add_attachment_records
  add_attachment_records_lem env o by [] w h s = Moving-pure h tt
  add_attachment_records_lem env o by (file ∷ files) w h s =
      Runs-step _ _ (add_attachment_record_lem h env o s file by none) (λ a w' t.
        add_attachment_records_lem env o by files w' t.intact (IsStored-after w w' o.id t s))
