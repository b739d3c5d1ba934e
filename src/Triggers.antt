-- ===== src/Triggers.antt =====
-- RecurringTriggerStore (src/sovereign_ai/kernel/triggers.py): the schedules that start workflows.
pub mod Scheduler
pub mod Rows
pub mod Hits
pub mod Fired
pub mod Kernels
pub mod Once
pub mod Loop
mod Tests
use achilles.Prelude.{
  ℕ, ◌+◌, String, Bool, true, false, ◌&&◌, ◌==◌, leb, nat_eq, Option, none, some, List,
  if◌then◌else◌, Result, ok, raised, value_error, fetched, ◌>>=◌,
}
use achilles.Prelude.Order.{sort_by}
use achilles.Table

pub record RecurringTriggerRecord : Type 0 where
  pub id : String
  pub workflow_definition_id : String
  pub interval_seconds : ℕ
  pub enabled : Bool
  pub next_run_at : ℕ
  pub last_run_at : Option ℕ
  pub created_at : ℕ

abbrev pub Rows : Type 0
Rows = List RecurringTriggerRecord

abbrev pub key : RecurringTriggerRecord → String
key r = r.id

unfoldable pub get : String → Rows → Option RecurringTriggerRecord
get trigger_id rows = Table.find key trigger_id rows

unfoldable pub create :
    (id : String) (now : ℕ) (workflow_definition_id : String) (interval_seconds : ℕ)
    (enabled : Bool)
    → Rows
    → Result (RecurringTriggerRecord × Rows)
create id now workflow_definition_id interval_seconds enabled rows =
    if nat_eq interval_seconds 0
    then raised value_error
    else Table.add key
        (record {
          id = id;
          workflow_definition_id = workflow_definition_id;
          interval_seconds = interval_seconds;
          enabled = enabled;
          next_run_at = now + interval_seconds;
          last_run_at = none;
          created_at = now;
        })
        rows

unfoldable pub list : Rows → Rows
list rows = sort_by (λ r. r.created_at) rows

-- WHERE enabled=1 AND next_run_at<=?
abbrev pub is_due : ℕ → RecurringTriggerRecord → Bool
is_due now r = r.enabled && leb r.next_run_at now

-- `now if now is not None else time.time()`, with what the clock reads
abbrev pub time_at : Option ℕ → ℕ → ℕ
time_at none reading = reading
time_at (some now) reading = now

unfoldable pub due : Option ℕ → ℕ → Rows → Rows
due now reading rows =
    sort_by (λ r. r.next_run_at) (Table.select (is_due (time_at now reading)) rows)

abbrev pub ran : ℕ → ℕ → RecurringTriggerRecord → RecurringTriggerRecord
ran now interval_seconds r = record r {
  last_run_at = some now;
  next_run_at = now + interval_seconds;
}

unfoldable pub mark_ran : Option ℕ → ℕ → String → Rows → Result (RecurringTriggerRecord × Rows)
unfolding get
mark_ran now reading trigger_id rows = elim (get trigger_id rows) [
  | none ↦ raised value_error
  | some row ↦ (do
    let rows' =
        Table.update (λ r. r.id == trigger_id) (ran (time_at now reading) row.interval_seconds) rows
    trigger ← fetched (get trigger_id rows')
    ok (trigger, rows'))
]

abbrev pub switched : Bool → RecurringTriggerRecord → RecurringTriggerRecord
switched enabled r = record r { enabled = enabled }

unfoldable pub set_enabled : String → Bool → Rows → Result (RecurringTriggerRecord × Rows)
unfolding get
set_enabled trigger_id enabled rows =
    if Table.exists (λ r. r.id == trigger_id) rows
    then (do
      let rows' = Table.update (λ r. r.id == trigger_id) (switched enabled) rows
      trigger ← fetched (get trigger_id rows')
      ok (trigger, rows'))
    else raised value_error
