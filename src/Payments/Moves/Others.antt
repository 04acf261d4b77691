-- ===== src/Payments/Moves/Others.antt =====
-- New orders, and the handlers of channels, are steps of the life cycle as well.
use mathlib.Core.List.{Memᴰ}
use rust_template.Base.{
  ℕ, String, ◌≡◌, refl, sym, arith, Option, none, some, is_some, is_some_of, ◌==◌, not, true, false,
}
use rust_template.Api.{Result, ok, err}
use rust_template.Db.Interface.{Database}
use rust_template.Db.Handler.{Runs, Runs-weaken, Runs-pure, Runs-raise, Runs-bind}
use rust_template.Db.Rules.{Runs-if, Runs-reads, Runs-check, Runs-bind-query, Reads}
use rust_template.Db.Rows.{
  row, find_one, deleted, all_rows, find_one-none, Runs-delete_many, Runs-insert, Runs-update,
  row-key,
}
use rust_template.Env.{Env}
use rust_template.Entities.Access.{User}
use rust_template.Entities.Payment.{PaymentChannel, PaymentOrder}
use rust_template.World.{World, on_payment_orders, on_payment_channels}
use rust_template.Rbac.Check.{UniqueCodes, authorize_lem}
use rust_template.Payments.Params.{CreatePaymentOrderParams, SavePaymentChannelParams}
use rust_template.Payments.Visible.Laws.{find_visible_channel_lem}
use rust_template.Payments.Channels.{saved_channel, create_channel, update_channel, delete_channel}
use rust_template.Payments.Orders.{new_order, load_channel_for_order, create_order}
use rust_template.Payments.Moves.{AllBacked, Step}
use rust_template.Payments.Moves.Statuses.{some_inj}
use rust_template.Payments.Moves.Steps.{
  Step-refl, insert_order-Step, insert_channel-Step, set_channel-Step, delete_channels-Step,
}

module _ {db : Database} (w : World db) (actor : User) where
  is_enabled :
      (id : ℕ) (channel x : PaymentChannel)
      → not channel.enabled ≡ false
      → row on_payment_channels id w ≡ some channel
      → some channel ≡ some x
      → (x.enabled ≡ true) × (row on_payment_channels x.id w ≡ some x)
  is_enabled id channel x d c e =
      let same = some_inj e in
      (rw (sym same) (ground arith), rw same at (row-key on_payment_channels id w c))

  -- The channel of a new order is stored and enabled.
  pub load_channel_for_order_lem :
      (channel_id : Option ℕ)
      → Reads
          (load_channel_for_order actor channel_id)
          w
          (λ c.
            (channel : PaymentChannel)
            → c ≡ some channel
            → (channel.enabled ≡ true) × (row on_payment_channels channel.id w ≡ some channel))
          (λ e. Unit)
  unfolding load_channel_for_order
  load_channel_for_order_lem none = Runs-pure none (refl, λ c e. absurd (cc e))
  load_channel_for_order_lem (some id) =
      Runs-reads _ (find_visible_channel_lem w actor id)
        (λ channel c.
          Runs-if _ _ _ (λ d. Runs-raise _ (refl, tt))
            (λ d. Runs-pure _ (refl, λ x e. is_enabled id channel x d c.0 e)))
        (λ e q. (refl, tt))

new_order_key :
    (env : Env) (actor : User) (params : CreatePaymentOrderParams) (channel : Option PaymentChannel)
    (provider currency amount : String) (expired_at : Option ℕ) (n : ℕ)
    → (new_order env actor params channel provider currency amount expired_at n).id ≡ n
unfolding new_order
new_order_key env actor params channel provider currency amount expired_at n = refl

saved_key :
    (env : Env) (actor : User) (params : SavePaymentChannelParams) (secret : Option String)
    (c : PaymentChannel)
    → (saved_channel env actor params secret c).id ≡ c.id
unfolding saved_channel
saved_key env actor params secret c = refl

is_some-none : {A : Type 0} {o : Option A} → is_some o ≡ false → o ≡ none
is_some-none {o = none} h = refl
is_some-none {o = some a} h = absurd (cc (h))

module _ {db : Database} (w : World db) where
  -- how `delete_channel` ends
  abbrev pub Deletes : ℕ → Result (Unit {0}) → World db → Type 0
  Deletes id (ok u) w' =
      (w' ≡ deleted on_payment_channels (λ channel. channel.id == id) w)
      × ((o : PaymentOrder)
          → Memᴰ o (all_rows on_payment_orders w)
          → is_some_of o.channel_id id ≡ false)
  Deletes id (err e) w' = w' ≡ w

  -- If permission codes are unique, `delete_channel` deletes the channel with that id, and only if no order, of whichever tenant,
  -- refers to it; when it fails it changes nothing.
  pub delete_channel_lem :
      UniqueCodes w
      → (env : Env) (pid : String) (id : ℕ) → Runs (delete_channel env pid id) w (Deletes id)
  unfolding delete_channel
  delete_channel_lem unique env pid id =
      Runs-reads _ (authorize_lem w env.parse_uuid pid "system:payment_channel:delete" unique)
        (λ actor a.
          Runs-reads _ (find_visible_channel_lem w actor id)
            (λ channel c.
              Runs-bind-query _ _
                (Runs-if
                  (is_some (find_one on_payment_orders (λ order. is_some_of order.channel_id id) w))
                  _ _ (λ d. Runs-raise _ refl)
                  (λ d.
                    Runs-delete_many on_payment_channels _
                      (refl, λ o m. find_one-none on_payment_orders _ w (is_some-none d) m) refl))
                refl)
            (λ e q. refl))
        (λ e q. refl)

module _ {db : Database} {w : World db} (h : AllBacked w) (unique : UniqueCodes w) (env : Env)
    (pid : String) where
  pub create_order-Step :
      (params : CreatePaymentOrderParams) → Runs (create_order env pid params) w (λ r w'. Step w w')
  unfolding create_order
  create_order-Step params =
      let s = Step-refl h in
      Runs-reads _ (authorize_lem w env.parse_uuid pid "system:payment_order:create" unique)
        (λ actor a.
          Runs-check _ _
            (λ u v.
              Runs-reads _ (load_channel_for_order_lem w actor params.channel_id)
                (λ channel c.
                  Runs-check _ _
                    (λ x y.
                      Runs-check _ _
                        (λ amount n.
                          Runs-check _ _
                            (λ expired_at t.
                              Runs-bind (λ r w'. Step w w') _ _
                                (Runs-insert on_payment_orders _
                                  (insert_order-Step _ h
                                    (new_order_key env actor params channel _ _ amount expired_at))
                                  s)
                                (λ o w' q. Runs-pure _ q) (λ e w' q. q))
                            (λ e q. s))
                        (λ e q. s))
                    (λ e q. s))
                (λ e q. s))
            (λ e q. s))
        (λ e q. s)

  pub create_channel-Step :
      (params : SavePaymentChannelParams)
      → Runs (create_channel env pid params) w (λ r w'. Step w w')
  unfolding create_channel
  create_channel-Step params =
      let s = Step-refl h in
      Runs-reads _ (authorize_lem w env.parse_uuid pid "system:payment_channel:create" unique)
        (λ actor a.
          Runs-check _ _
            (λ u v.
              Runs-check _ _
                (λ secret q.
                  Runs-bind (λ r w'. Step w w') _ _
                    (Runs-insert on_payment_channels _ (insert_channel-Step _ h) s)
                    (λ c w' q. Runs-pure _ q) (λ e w' q. q))
                (λ e q. s))
            (λ e q. s))
        (λ e q. s)

  pub update_channel-Step :
      (id : ℕ) (params : SavePaymentChannelParams)
      → Runs (update_channel env pid id params) w (λ r w'. Step w w')
  unfolding update_channel
  update_channel-Step id params =
      let s = Step-refl h in
      Runs-reads _ (authorize_lem w env.parse_uuid pid "system:payment_channel:update" unique)
        (λ actor a.
          Runs-check _ _
            (λ u v.
              Runs-reads _ (find_visible_channel_lem w actor id)
                (λ channel c.
                  Runs-check _ _
                    (λ secret q.
                      Runs-bind (λ r w'. Step w w') _ _
                        (Runs-update on_payment_channels channel.id
                          (saved_channel env actor params secret) channel
                          (saved_key env actor params secret) (row-key on_payment_channels id w c.0)
                          (set_channel-Step _ _ h) s)
                        (λ c w' q. Runs-pure _ q) (λ e w' q. q))
                    (λ e q. s))
                (λ e q. s))
            (λ e q. s))
        (λ e q. s)

  pub delete_channel-Step : (id : ℕ) → Runs (delete_channel env pid id) w (λ r w'. Step w w')
  delete_channel-Step id = Runs-weaken (delete_channel_lem w unique env pid id) ends
    where
      ends : (r : Result (Unit {0})) (w' : World db) → Deletes w id r w' → Step w w'
      ends (ok u) w' q = rw q.0 (delete_channels-Step _ h)
      ends (err e) w' q = rw q (Step-refl h)
