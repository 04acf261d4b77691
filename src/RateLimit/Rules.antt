-- ===== src/RateLimit/Rules.antt =====
-- `handle_rate_limit` of src/middleware/rate_limit.rs. The static buckets are an argument and part
-- of the answer; a request passes to `next` or is answered with the error RATE_LIMITED.
use Prim.Native.String.{◌++◌ as str_append}
use text.Mathlib.Text.{starts_with}
use rust_template.Base.{
  ℕ, String, ◌≡◌, refl, Bool, true, false, not, Option, none, some, List, [], ◌∷◌, str_eq,
  if◌then◌else◌,
}
use rust_template.Base.Text.{strip_suffix_char, eq_ignore_ascii_case}
use rust_template.Base.Int.{ℤ}
use rust_template.Env.{Env}
use rust_template.Api.{ApiError, Result, ok, err}
use rust_template.Db.Interface.{Database}
use rust_template.Db.Handler.{Handler, query, attempt, pure, ◌>>=◌}
use rust_template.Db.Rows.{select, insert}
use rust_template.Entities.Limits.{RateLimitRule, RateLimitEvent}
use rust_template.World.{World, on_rate_limit_rules, on_rate_limit_events}
use rust_template.RateLimit.Buckets.{Buckets, increment_and_check}

-- `Option::is_none_or`
abbrev is_none_or : (String → Bool) → Option String → Bool
is_none_or p none = true
is_none_or p (some s) = p s

unfoldable pub rule_matches : RateLimitRule → String → String → Bool
unfolding strip_suffix_char eq_ignore_ascii_case
rule_matches rule method path =
    if not (is_none_or (λ rule_method. eq_ignore_ascii_case rule_method method) rule.method)
    then false
    else path_matches (strip_suffix_char b'*' rule.path_pattern)
  where
    path_matches : Option String → Bool
    path_matches none = str_eq rule.path_pattern path
    path_matches (some prefix) = starts_with path prefix

-- the request, as far as the middleware reads it; `ip` is what `client_ip` finds
pub record Arrival : Type 0 where
  pub path : String
  pub method : String
  pub ip : Option String

pub data Verdict : Type 0 where
  passed : Verdict
  refused : ApiError → Verdict

unfoldable pub rate_limited : ApiError
rate_limited = record { status = 429; code = "RATE_LIMITED"; message = "too many requests" }

abbrev pub client_ip_or_unknown : Option String → String
client_ip_or_unknown none = "unknown"
client_ip_or_unknown (some ip) = ip

module _ (env : Env) (instant : ℕ) (ip method path : String) where
  -- `format!("{}:{}:{}", rule.id, method, ip)`
  unfoldable pub key_of : RateLimitRule → String
  key_of rule =
      str_append (env.id_text rule.id) (str_append ":" (str_append method (str_append ":" ip)))

  -- the loop of `limited_rule`
  unfoldable pub first_limited : List RateLimitRule → Buckets → Option ℕ × Buckets
  unfolding rule_matches key_of increment_and_check
  first_limited [] buckets = (none, buckets)
  first_limited (rule ∷ rules) buckets =
      if not (rule_matches rule method path)
      then first_limited rules buckets
      else (let (limited, next) =
            increment_and_check instant (key_of rule) rule.limit_count rule.window_seconds
              buckets in
          if limited then (some rule.id, next) else first_limited rules next)

  unfoldable pub new_event : ℕ → ℕ → RateLimitEvent
  new_event rule_id id = record {
    created_at = env.now;
    updated_at = env.now;
    id = id;
    ip = ip;
    method = method;
    path = path;
    rule_id = some rule_id;
    user_id = none;
    occurred_at = env.now;
  }

  module _ {db : Database} where
    unfoldable pub limited_rule : Buckets → Handler (World db) (Option ℕ × Buckets)
    limited_rule buckets = do
      rules ← query (select on_rate_limit_rules (λ r. r.enabled))
      pure (first_limited rules buckets)

    -- An error of the insert is logged and goes no further.
    unfoldable pub record_rate_limit_event : ℕ → Handler (World db) (Result RateLimitEvent)
    unfolding new_event
    record_rate_limit_event rule_id = attempt (insert on_rate_limit_events (new_event rule_id))

    unfoldable pub answer :
        Buckets → Result (Option ℕ × Buckets) → Handler (World db) (Verdict × Buckets)
    unfolding rate_limited
    answer buckets (err e) = pure (passed, buckets)
    answer buckets (ok (none, next)) = pure (passed, next)
    answer buckets (ok (some rule_id, next)) = do
      logged ← record_rate_limit_event rule_id
      pure (refused rate_limited, next)

module _ {db : Database} (env : Env) (instant : ℕ) where
  unfoldable pub handle_rate_limit : Arrival → Buckets → Handler (World db) (Verdict × Buckets)
  handle_rate_limit request buckets =
      if not (starts_with request.path "/api/")
      then pure (passed, buckets)
      else (let ip = client_ip_or_unknown request.ip in
          do
            found ← attempt (limited_rule env instant ip request.method request.path buckets)
            answer env instant ip request.method request.path buckets found)

star_is_a_prefix :
    rule_matches
      (record {
        created_at = 0;
        updated_at = 0;
        id = 1;
        name = "";
        scope = "";
        path_pattern = "/api/auth/*";
        method = some "post";
        limit_count = ℤ.pos 1;
        window_seconds = ℤ.pos 60;
        enabled = true;
        description = none;
      })
      "POST"
      "/api/auth/login"
    ≡ true
unfolding rule_matches
star_is_a_prefix = refl
