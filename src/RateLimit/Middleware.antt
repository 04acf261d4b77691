-- ===== src/RateLimit/Middleware.antt =====
-- `handle_rate_limit`: what a verdict says of the stored rules and of what the middleware wrote.
use text.Mathlib.Text.{starts_with}
use rust_template.Base.{
  ℕ, String, ◌≡◌, refl, true, false, Option, none, some, List, ◌⊎◌, inl, inr, Bool-cases,
}
use rust_template.Env.{Env}
use rust_template.Api.{ApiError, Result, ok, err}
use rust_template.Db.Interface.{Database}
use rust_template.Db.Handler.{RunsIf, Runs-attempt, Runs-pure, Runs-bind}
use rust_template.Db.Rules.{Runs-bind-query_if}
use rust_template.Db.Rows.{select, inserted, Runs-insert_if}
use rust_template.Entities.Limits.{RateLimitRule, RateLimitEvent}
use rust_template.World.{World, on_rate_limit_rules, on_rate_limit_events}
use rust_template.RateLimit.Buckets.{Buckets}
use rust_template.RateLimit.Rules.{
  Arrival, Verdict, passed, refused, rate_limited, client_ip_or_unknown, new_event, limited_rule,
  record_rate_limit_event, answer, handle_rate_limit,
}
use rust_template.RateLimit.Verdicts.{Decides, first_limited_lem}

abbrev pub ip_of : Arrival → String
ip_of request = client_ip_or_unknown request.ip

module _ (F : Type 0) {db : Database} (env : Env) (now : ℕ) (request : Arrival)
    (buckets : Buckets) where
  abbrev pub rules_of : World db → List RateLimitRule
  rules_of w = select on_rate_limit_rules (λ r. r.enabled) w

  -- A request passes if it is not for the API, if reading the rules fails, or if it was counted
  -- under every enabled rule that matches it.
  pub PassedBy : World db → Buckets → Type 0
  PassedBy w next =
      ((starts_with request.path "/api/" ≡ false) × (next ≡ buckets))
      ⊎ (F × (next ≡ buckets))
      ⊎ Decides env now (ip_of request) request.method request.path (rules_of w) none next

  -- It is refused only by an enabled rule that matches it and whose bucket is full; the refusal is
  -- recorded, or recording it failed with a call.
  pub record RefusedBy (w : World db) (e : ApiError) (next : Buckets) (w' : World db) : Type 0 where
    pub for_api : starts_with request.path "/api/" ≡ true
    pub answered : e ≡ rate_limited
    pub rule_id : ℕ
    pub by_rule :
        Decides env now (ip_of request) request.method request.path (rules_of w) (some rule_id) next
    pub recorded :
        (F × (w' ≡ w))
        ⊎ (w'
            ≡ (inserted on_rate_limit_events
                (new_event env now (ip_of request) request.method request.path rule_id)
                w).1)

  pub Answered : World db → Result (Verdict × Buckets) → World db → Type 0
  Answered w (ok (passed, next)) w' = (w' ≡ w) × PassedBy w next
  Answered w (ok (refused e, next)) w' = RefusedBy w e next w'
  Answered w (err e) w' = ⊥

  -- what the loop over the rules has found, if they could be read
  Found : World db → Result (Option ℕ × Buckets) → Type 0
  Found w (err e) = F
  Found w (ok (id, next)) =
      Decides env now (ip_of request) request.method request.path (rules_of w) id next

  answer-Answered :
      (w : World db) (found : Result (Option ℕ × Buckets))
      → starts_with request.path "/api/" ≡ true
      → Found w found
      → RunsIf F
          (answer env now (ip_of request) request.method request.path buckets found)
          w
          (Answered w)
  unfolding answer Answered PassedBy Found record_rate_limit_event
  answer-Answered w (err e) api decides = Runs-pure _ (refl, inr (inl (decides, refl)))
  answer-Answered w (ok (none, next)) api decides = Runs-pure _ (refl, inr (inr (decides)))
  answer-Answered w (ok (some id, next)) api decides =
      Runs-bind (λ r w'. Logged id r w') _ _
        (Runs-attempt (
          Runs-insert_if on_rate_limit_events
            (new_event env now (ip_of request) request.method request.path id) (inr refl)
            (λ k. inl (k, refl))))
        (λ logged w' l. Runs-pure _ (record {
          for_api = api;
          answered = refl;
          rule_id = id;
          by_rule = decides;
          recorded = l;
        }))
        (λ e w' l. l)
    where
      Logged : ℕ → Result (Result RateLimitEvent) → World db → Type 0
      Logged id (ok _) w' =
          (F × (w' ≡ w))
          ⊎ (w'
              ≡ (inserted on_rate_limit_events
                  (new_event env now (ip_of request) request.method request.path id) w).1)
      Logged id (err _) w' = ⊥

  limited_rule_lem :
      (w : World db)
      → RunsIf F
          (limited_rule env now (ip_of request) request.method request.path buckets)
          w
          (λ r w'. (w' ≡ w) × Found w r)
  unfolding limited_rule Found
  limited_rule_lem w =
      Runs-bind-query_if _ _
        (Runs-pure _ (
          refl,
          (first_limited_lem env now (ip_of request) request.method request.path (rules_of w)
              buckets).decides,
        ))
        (λ k. (refl, k))

  -- The middleware never fails, whichever of its database calls fail. A request passes only if it is
  -- not for the API, if a call has failed, or if it was counted under every enabled rule that
  -- matches it. It is refused only by such a rule whose bucket is full, and then an event is
  -- stored, unless a call has failed.
  pub handle_rate_limit_lem :
      (w : World db) → RunsIf F (handle_rate_limit env now request buckets) w (Answered w)
  unfolding handle_rate_limit Answered PassedBy
  handle_rate_limit_lem w = elim (Bool-cases (starts_with request.path "/api/")) [
    | inl api ↦ rw api (
        Runs-bind Outcome _ _ (Runs-attempt (limited_rule_lem w))
          (λ found w' k. rw k.0 (answer-Answered w found api k.1)) (λ e w' k. k))
    | inr other ↦ rw other (Runs-pure (passed, buckets) (refl, inl (other, refl)))
  ]
    where
      Outcome : Result (Result (Option ℕ × Buckets)) → World db → Type 0
      Outcome (ok found) w' = (w' ≡ w) × Found w found
      Outcome (err _) w' = ⊥
