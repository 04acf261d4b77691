-- ===== src/WorkOrders/Validate.antt =====
-- The checks of request values in src/controllers/admin/work_orders.rs.
use Prim.Native.String.{◌++◌ as str_append}
use rust_template.Base.{
  ℕ, String, not, ◌||◌, Option, none, some, List, [], ◌∷◌, str_eq, if◌then◌else◌,
}
use rust_template.Base.Text.{trim, is_blank, contains}
use rust_template.Api.{Result, ok, err, ok_or, ensure, bad_request, ◌>>=◌, ◌>>◌}
use rust_template.Env.{Env}
use rust_template.WorkOrders.Params.{SaveWorkOrderParams}

abbrev pub priorities : List String
priorities = "low" ∷ "normal" ∷ "high" ∷ "urgent" ∷ []

abbrev pub statuses : List String
statuses =
    "open" ∷ "assigned" ∷ "in_progress" ∷ "pending" ∷ "resolved" ∷ "closed" ∷ "cancelled" ∷ []

unfoldable pub validate_value : String → List String → String → Result (Unit {0})
validate_value value supported message =
    if contains supported value then ok tt else err (bad_request message)

-- `filter(|value| !value.is_empty())`
abbrev pub given : Option String → Option String
given none = none
given (some s) = if is_blank s then none else some s

unfoldable pub trim_optional : Option String → Option String
trim_optional none = none
trim_optional (some s) = given (some (trim s))

-- the targets that the `match` of `validate_transition` allows
unfoldable pub allowed_from : String → List String
allowed_from from =
    if str_eq from "open"
    then "assigned" ∷ "in_progress" ∷ "cancelled" ∷ []
    else if str_eq from "assigned"
    then "in_progress" ∷ "pending" ∷ "cancelled" ∷ []
    else if str_eq from "in_progress"
    then "pending" ∷ "resolved" ∷ "cancelled" ∷ []
    else if str_eq from "pending"
    then "in_progress" ∷ "resolved" ∷ "cancelled" ∷ []
    else if str_eq from "resolved"
    then "closed" ∷ "in_progress" ∷ []
    else []

unfoldable pub validate_transition : String → String → Result (Unit {0})
unfolding allowed_from validate_value
validate_transition from to = do
  validate_value to statuses "unsupported work order status"
  if contains (allowed_from from) to
      then ok tt
      else err (bad_request "unsupported work order transition")

module _ (env : Env) where
  unfoldable pub parse_time : Option String → Result (Option ℕ)
  parse_time value = elim (given value) [
    | none ↦ ok none
    | some text ↦ do
      time ← ok_or (env.parse_from_rfc3339 text) (bad_request "time must be RFC3339")
      ok (some time)
  ]

  unfoldable pub validate_save_params : SaveWorkOrderParams → Result (Unit {0})
  validate_save_params params = do
    ensure (not (is_blank (trim params.title) || is_blank (trim params.description)))
        (bad_request "work order title and description are required")
    elim params.priority [
      | none ↦ ok tt
      | some priority ↦ validate_value priority priorities "unsupported work order priority"
    ]
    elim (given params.metadata) [
      | none ↦ ok tt
      | some metadata ↦ ensure (env.is_json metadata) (bad_request "metadata must be valid json")
    ]
    _ ← parse_time params.due_at
    ok tt

  -- `next_order_no`
  unfoldable pub next_order_no : String
  next_order_no = str_append "WO" (env.format_stamp env.now)
