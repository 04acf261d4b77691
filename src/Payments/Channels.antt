-- ===== src/Payments/Channels.antt =====
-- The handlers of payment channels in src/controllers/admin/payments.rs. The claims' `pid` stands
-- for the verified token.
use rust_template.Base.{
  ℕ, String, true, Option, none, some, ◌==◌, str_eq, is_some, is_some_of, unwrap_or, if◌then◌else◌,
}
use rust_template.Base.Text.{trim}
use rust_template.Api.{Result, ok, bad_request}
use rust_template.Db.Interface.{Database}
use rust_template.Db.Handler.{Handler, query, lift, pure, raise, ◌>>=◌, ◌>>◌}
use rust_template.Db.Rows.{find_one, insert, update, delete_many}
use rust_template.Env.{Env}
use rust_template.Entities.Access.{User}
use rust_template.Entities.Payment.{PaymentChannel}
use rust_template.World.{World, on_payment_channels, on_payment_orders}
use rust_template.Rbac.Authorize.{authorize}
use rust_template.Payments.Params.{SavePaymentChannelParams}
use rust_template.Payments.Records.{PaymentChannelRecord, channel_record, secret_mask}
use rust_template.Payments.Validate.{
  trim_optional, currency_or_default, validate_channel_params, normalize_secret,
}
use rust_template.Payments.Visible.{find_visible_channel}

module _ (env : Env) where
  -- the row that `create_channel` inserts
  unfoldable pub new_channel : User → SavePaymentChannelParams → Option String → ℕ → PaymentChannel
  new_channel actor params secret_config id = record {
    created_at = env.now;
    updated_at = env.now;
    id = id;
    name = trim params.name;
    provider = params.provider;
    channel_code = trim params.channel_code;
    currency = currency_or_default params.currency;
    config = params.config;
    secret_config = secret_config;
    notify_url = trim_optional params.notify_url;
    return_url = trim_optional params.return_url;
    enabled = unwrap_or params.enabled true;
    sort_order = unwrap_or params.sort_order 0;
    description = trim_optional params.description;
    tenant_id = actor.tenant_id;
    created_by = some actor.id;
    updated_by = some actor.id;
  }

  -- the mask stands for the secret that is stored already
  unfoldable pub kept_secret : PaymentChannel → Option String → Result (Option String)
  kept_secret channel none = normalize_secret env none
  kept_secret channel (some value) =
      if str_eq value secret_mask
      then ok channel.secret_config
      else normalize_secret env (some value)

  -- the columns that `update_channel` sets
  unfoldable pub saved_channel :
      User → SavePaymentChannelParams → Option String → PaymentChannel → PaymentChannel
  saved_channel actor params secret_config channel = record channel {
    name = trim params.name;
    provider = params.provider;
    channel_code = trim params.channel_code;
    currency = currency_or_default params.currency;
    config = params.config;
    secret_config = secret_config;
    notify_url = trim_optional params.notify_url;
    return_url = trim_optional params.return_url;
    enabled = unwrap_or params.enabled true;
    sort_order = unwrap_or params.sort_order 0;
    description = trim_optional params.description;
    updated_by = some actor.id;
  }

module _ {db : Database} (env : Env) (pid : String) where
  unfoldable pub create_channel : SavePaymentChannelParams → Handler (World db) PaymentChannelRecord
  create_channel params = do
    actor ← authorize env.parse_uuid pid "system:payment_channel:create"
    lift (validate_channel_params env params)
    secret_config ← lift (normalize_secret env params.secret_config)
    channel ← insert on_payment_channels (new_channel env actor params secret_config)
    pure (channel_record env channel)

  unfoldable pub get_channel : ℕ → Handler (World db) PaymentChannelRecord
  get_channel id = do
    actor ← authorize env.parse_uuid pid "system:payment_channel:list"
    channel ← find_visible_channel actor id
    pure (channel_record env channel)

  unfoldable pub update_channel :
      ℕ → SavePaymentChannelParams → Handler (World db) PaymentChannelRecord
  update_channel id params = do
    actor ← authorize env.parse_uuid pid "system:payment_channel:update"
    lift (validate_channel_params env params)
    channel ← find_visible_channel actor id
    secret_config ← lift (kept_secret env channel params.secret_config)
    saved ← update on_payment_channels channel.id (saved_channel env actor params secret_config)
    pure (channel_record env saved)

  unfoldable pub delete_channel : ℕ → Handler (World db) (Unit {0})
  delete_channel id = do
    actor ← authorize env.parse_uuid pid "system:payment_channel:delete"
    _ ← find_visible_channel actor id
    used ← query (find_one on_payment_orders (λ order. is_some_of order.channel_id id))
    if is_some used
        then raise (bad_request "payment channel is used by orders")
        else delete_many on_payment_channels (λ channel. channel.id == id)
