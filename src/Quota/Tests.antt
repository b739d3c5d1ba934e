-- ===== src/Quota/Tests.antt =====
-- Runs and witnesses for the quota ledger.
use achilles.Prelude.{◌≤◌, ◌≡◌, refl, true, none, some, [], ◌∷◌, ok}
use achilles.Prelude.Order.{insertion_sort}
use achilles.Table
use achilles.Quota.{
  CallStatus, RemoteCall, Rows, EngineSpec, Refusal, record_call, usage_today,
  remote_budget_refusal, streak_of, latest,
}
use achilles.Quota.Breaker.{allowed_call_is_within_quota}

abbrev first : RemoteCall
first = record {
  id = "c1";
  engine_id = "cloud";
  model_id = "big";
  status = CallStatus.failure;
  route_reason = "capability=chat mode=deep";
  prompt_tokens = 0;
  completion_tokens = 0;
  cost_usd = 0;
  created_at = 86500;
}

abbrev second : RemoteCall
second = record first { id = "c2"; created_at = 86600 }

abbrev rows : Rows
rows = first ∷ []

abbrev cloud : EngineSpec
cloud = record {
  id = "cloud";
  remote = true;
  circuit_breaker_threshold = 2;
  circuit_breaker_cooldown_s = 300;
  max_requests_per_day = some 2;
  max_tokens_per_day = none;
  max_cost_usd_per_day = none;
}

records : record_call second rows ≡ ok (first ∷ second ∷ [])
unfolding record_call Table.insert Table.find
records = refl

breaker_opens :
    remote_budget_refusal cloud 86700 86700 (some (first ∷ second ∷ [])) ≡ some Refusal.breaker_open
unfolding remote_budget_refusal streak_of latest Table.select insertion_sort
breaker_opens = refl

breaker_cools :
    remote_budget_refusal cloud 87000 87000 (some (first ∷ second ∷ []))
    ≡ some Refusal.requests_exhausted
unfolding remote_budget_refusal streak_of latest Table.select insertion_sort
breaker_cools = refl

allows : remote_budget_refusal cloud 86550 86550 (some rows) ≡ none
unfolding remote_budget_refusal streak_of latest Table.select insertion_sort
allows = refl

allowed_call_is_within_quota_example :
    (usage_today "cloud" 86550 (first ∷ second ∷ [])).requests ≤ 2
allowed_call_is_within_quota_example =
    allowed_call_is_within_quota cloud 86550 86550 rows (first ∷ second ∷ []) second 2 refl refl
      allows records
