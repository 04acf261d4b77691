-- ===== src/Payments/Validate.antt =====
-- The checks of request values in src/controllers/admin/payments.rs.
use Prim.Native.String.{◌++◌ as str_append}
use rust_template.Base.{
  ℕ, String, not, ◌||◌, Option, none, some, List, [], ◌∷◌, str_eq, is_none, unwrap_or,
  if◌then◌else◌,
}
use rust_template.Base.Text.{trim, is_blank, contains}
use rust_template.Api.{Result, ok, err, ok_or, ensure, bad_request, ◌>>=◌, ◌>>◌}
use rust_template.Env.{Env}
use rust_template.Payments.Amount.{normalize_amount}
use rust_template.Payments.Params.{SavePaymentChannelParams, CreatePaymentOrderParams}
use rust_template.Payments.Records.{secret_mask}

abbrev pub providers : List String
providers =
    "yipay" ∷ "paypal" ∷ "stripe" ∷ "alipay" ∷ "wechat_pay" ∷ "tokenpay" ∷ "bepusdt" ∷ "epusdt"
    ∷ "okpay" ∷ []

abbrev pub payment_statuses : List String
payment_statuses =
    "pending" ∷ "paying" ∷ "paid" ∷ "failed" ∷ "cancelled" ∷ "expired" ∷ "refunding" ∷ "refunded"
    ∷ []

abbrev pub refund_statuses : List String
refund_statuses = "pending" ∷ "approved" ∷ "processing" ∷ "succeeded" ∷ "failed" ∷ "rejected" ∷ []

unfoldable pub validate_value : String → List String → String → Result (Unit {0})
validate_value value supported message =
    if contains supported value then ok tt else err (bad_request message)

-- the value if it is there and not empty: `as_deref().filter(|value| !value.is_empty())`
abbrev pub given : Option String → Option String
given none = none
given (some s) = if is_blank s then none else some s

unfoldable pub trim_optional : Option String → Option String
trim_optional none = none
trim_optional (some s) = given (some (trim s))

unfoldable pub currency_or_default : Option String → String
currency_or_default value = unwrap_or (trim_optional value) "CNY"

module _ (env : Env) where
  unfoldable pub validate_json : String → String → Result (Unit {0})
  validate_json field value =
      ensure (env.is_json value) (bad_request (str_append field " must be valid json"))

  unfoldable pub parse_time : Option String → Result (Option ℕ)
  parse_time value = elim (given value) [
    | none ↦ ok none
    | some text ↦ do
      time ← ok_or (env.parse_from_rfc3339 text) (bad_request "time must be RFC3339")
      ok (some time)
  ]

  abbrev pub check_given : Option String → (String → Result (Unit {0})) → Result (Unit {0})
  check_given value check = elim (given value) [ none ↦ ok tt | some text ↦ check text ]

  unfoldable pub validate_channel_params : SavePaymentChannelParams → Result (Unit {0})
  validate_channel_params params = do
    ensure (not (is_blank (trim params.name) || is_blank (trim params.channel_code)))
        (bad_request "payment channel name and code are required")
    validate_value params.provider providers "unsupported payment provider"
    validate_json "config" params.config
    check_given params.secret_config (λ secret.
        if not (str_eq secret secret_mask) then validate_json "secret_config" secret else ok tt)

  unfoldable pub validate_order_params : CreatePaymentOrderParams → Result (Unit {0})
  validate_order_params params = do
    ensure (not (is_blank (trim params.subject))) (bad_request "payment order subject is required")
    _ ← normalize_amount params.amount
    if is_none params.channel_id
        then (do
          provider ← ok_or params.provider (bad_request "payment provider is required")
          validate_value provider providers "unsupported payment provider")
        else ok tt
    check_given params.metadata (validate_json "metadata")
    _ ← parse_time params.expired_at
    ok tt

  unfoldable pub normalize_secret : Option String → Result (Option String)
  normalize_secret value = elim (trim_optional value) [
    | none ↦ ok none
    | some secret ↦ do validate_json "secret_config" secret; ok (some secret)
  ]

  -- `next_no`
  unfoldable pub next_no : String → String
  next_no prefix = str_append prefix (env.format_stamp env.now)
