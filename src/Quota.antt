-- ===== src/Quota.antt =====
-- RemoteQuotaLedger (src/sovereign_ai/inference/remote_quota.py), and the budget test of
-- InferenceBroker (inference/broker.py). A cost is a number of one small unit; the text of a refusal is
-- left out. `record` raises on an unknown status, which the type of the model excludes.
pub mod Breaker
mod Tests
use achilles.Prelude.{
  ℕ, suc, ◌+◌, ◌-◌, ◌%◌, String, Bool, true, false, not, ◌&&◌, ◌==◌, leb, ltb, Option, none, some,
  List, [], ◌∷◌, map, length, if◌then◌else◌, Result,
}
use achilles.Prelude.Order.{sort_desc}
use Prim.Native.Nat.{max}
use achilles.Table

pub data CallStatus : Type 0 where
  success failure refused : CallStatus

pub record RemoteCall : Type 0 where
  pub id : String
  pub engine_id : String
  pub model_id : String
  pub status : CallStatus
  pub route_reason : String
  pub prompt_tokens : ℕ
  pub completion_tokens : ℕ
  pub cost_usd : ℕ
  pub created_at : ℕ

abbrev pub Rows : Type 0
Rows = List RemoteCall

abbrev pub key : RemoteCall → String
key r = r.id

unfoldable pub record_call : RemoteCall → Rows → Result Rows
record_call r rows = Table.insert key r rows

abbrev pub is_success : CallStatus → Bool
is_success CallStatus.success = true
is_success _ = false

abbrev pub is_failure : CallStatus → Bool
is_failure CallStatus.failure = true
is_failure _ = false

abbrev pub is_refused : CallStatus → Bool
is_refused CallStatus.refused = true
is_refused _ = false

abbrev pub sum : List ℕ → ℕ
sum [] = 0
sum (n ∷ ns) = n + sum ns

pub record Usage : Type 0 where
  pub requests : ℕ
  pub tokens : ℕ
  pub cost_usd : ℕ

abbrev pub day_start : ℕ → ℕ
day_start now = now - now % 86400

-- WHERE engine_id = ? AND created_at >= ?
abbrev pub is_of_day : String → ℕ → RemoteCall → Bool
is_of_day engine_id now r = r.engine_id == engine_id && leb (day_start now) r.created_at

unfoldable pub usage_today : String → ℕ → Rows → Usage
usage_today engine_id now rows =
    let today = Table.select (is_of_day engine_id now) rows in
    record {
      requests = length today;
      tokens = sum (
          map (λ r. if is_success r.status then r.prompt_tokens + r.completion_tokens else 0)
            today);
      cost_usd = sum (map (λ r. if is_success r.status then r.cost_usd else 0) today);
    }

-- The loop over the statuses, the latest first.
unfoldable pub streak_of : Rows → ℕ
streak_of [] = 0
streak_of (r ∷ rows) = let later = streak_of rows in if is_failure r.status then suc later else 0

-- WHERE engine_id = ? AND status != 'refused'
abbrev pub counts : String → RemoteCall → Bool
counts engine_id r = r.engine_id == engine_id && not (is_refused r.status)

unfoldable pub consecutive_failures : String → Rows → ℕ
unfolding streak_of
consecutive_failures engine_id rows =
    streak_of (sort_desc (λ r. r.created_at) (Table.select (counts engine_id) rows))

-- SELECT MAX(created_at), NULL if there is none
unfoldable pub latest : Rows → Option ℕ
latest [] = none
latest (r ∷ rows) = elim (latest rows) [
  | none ↦ some r.created_at
  | some t ↦ some (max r.created_at t)
]

unfoldable pub last_failure_at : String → Rows → Option ℕ
unfolding latest
last_failure_at engine_id rows =
    latest (Table.select (λ r. r.engine_id == engine_id && is_failure r.status) rows)

-- The fields of an EngineSpec that the test reads.
pub record EngineSpec : Type 0 where
  pub id : String
  pub remote : Bool
  pub circuit_breaker_threshold : ℕ
  pub circuit_breaker_cooldown_s : ℕ
  pub max_requests_per_day : Option ℕ
  pub max_tokens_per_day : Option ℕ
  pub max_cost_usd_per_day : Option ℕ

pub data Refusal : Type 0 where
  breaker_open requests_exhausted tokens_exhausted cost_exhausted : Refusal

abbrev pub is_used_up : ℕ → Option ℕ → Bool
is_used_up used none = false
is_used_up used (some m) = leb m used

-- last_failure is not None and time.time() - last_failure < cooldown
abbrev pub is_cooling : ℕ → ℕ → Option ℕ → Bool
is_cooling now cooldown none = false
is_cooling now cooldown (some t) = ltb now (t + cooldown)

abbrev pub over_quota : EngineSpec → Usage → Option Refusal
over_quota engine usage =
    if is_used_up usage.requests engine.max_requests_per_day
    then some Refusal.requests_exhausted
    else if is_used_up usage.tokens engine.max_tokens_per_day
    then some Refusal.tokens_exhausted
    else if is_used_up usage.cost_usd engine.max_cost_usd_per_day
    then some Refusal.cost_exhausted
    else none

-- `none` for the ledger is a broker without one. Two readings of the clock.
unfoldable pub remote_budget_refusal :
    EngineSpec → (cooling_at now : ℕ) → Option Rows → Option Refusal
unfolding usage_today consecutive_failures last_failure_at
remote_budget_refusal engine cooling_at now none = none
remote_budget_refusal engine cooling_at now (some rows) =
    if not engine.remote
    then none
    else if leb engine.circuit_breaker_threshold (consecutive_failures engine.id rows)
        && is_cooling cooling_at engine.circuit_breaker_cooldown_s (last_failure_at engine.id rows)
    then some Refusal.breaker_open
    else over_quota engine (usage_today engine.id now rows)
