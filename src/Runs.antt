-- ===== src/Runs.antt =====
-- src/sovereign_ai/kernel/runs.py: one row for each attempt at a job.
pub mod Attempts
mod Tests
use achilles.Prelude.{
  ℕ, ◌+◌, String, Bool, true, false, ◌&&◌, Option, none, some, List, [], ◌∷◌, ◌==◌, nat_eq,
  if◌then◌else◌, Result, raised, integrity_error,
}
use achilles.Prelude.Order.{sort_by}
use achilles.Json.{Fields}
use achilles.Jobs.{JobStatus, Outcome, outcome_status, is_queued, is_live}
use achilles.Table

-- `RunStatus` has the same six values as `JobStatus`.
pub record RunRecord : Type 0 where
  pub id : String
  pub job_id : String
  pub attempt : ℕ
  pub status : JobStatus
  pub request : Fields
  pub result : Option Fields
  pub error : Option String
  pub created_at : ℕ
  pub updated_at : ℕ
  pub started_at : Option ℕ
  pub finished_at : Option ℕ
  pub metadata : Fields

abbrev pub Rows : Type 0
Rows = List RunRecord

abbrev pub key : RunRecord → String
key r = r.id

unfoldable pub get : String → Rows → Option RunRecord
get run_id rows = Table.find key run_id rows

abbrev pub is_attempt : String → ℕ → RunRecord → Bool
is_attempt job_id attempt r = r.job_id == job_id && nat_eq r.attempt attempt

-- The row that `create` inserts.
abbrev pub fresh_run : String → ℕ → String → ℕ → Fields → Fields → RunRecord
fresh_run id now job_id attempt request metadata = record {
  id = id;
  job_id = job_id;
  attempt = attempt;
  status = JobStatus.queued;
  request = request;
  result = none;
  error = none;
  created_at = now;
  updated_at = now;
  started_at = none;
  finished_at = none;
  metadata = metadata;
}

-- INSERT under UNIQUE(job_id, attempt) and the PRIMARY KEY
unfoldable pub create :
    (id : String) (now : ℕ) (job_id : String) (attempt : ℕ) (request metadata : Fields)
    → Rows
    → Result (RunRecord × Rows)
create id now job_id attempt request metadata rows =
    if Table.exists (is_attempt job_id attempt) rows
    then raised integrity_error
    else Table.add key (fresh_run id now job_id attempt request metadata) rows

unfoldable pub list_for_job : String → Rows → Rows
list_for_job job_id rows = sort_by (λ r. r.attempt) (Table.select (λ r. r.job_id == job_id) rows)

-- SELECT MAX(attempt) FROM runs WHERE job_id=?, 0 if there is none
abbrev pub max_attempt : String → Rows → ℕ
max_attempt job_id rows = Table.maximum (λ r. r.job_id == job_id) (λ r. r.attempt) rows

unfoldable pub next_attempt : String → Rows → ℕ
next_attempt job_id rows = max_attempt job_id rows + 1

abbrev pub run_now : ℕ → RunRecord → RunRecord
run_now now r = record r { status = JobStatus.running; started_at = some now; updated_at = now }

unfoldable pub mark_running : ℕ → String → Rows → Rows
mark_running now run_id rows =
    Table.update (λ r. r.id == run_id && is_queued r.status) (run_now now) rows

abbrev pub close : ℕ → Outcome → Option Fields → Option String → RunRecord → RunRecord
close now status result error r = record r {
  status = outcome_status status;
  result = result;
  error = error;
  updated_at = now;
  finished_at = some now;
}

unfoldable pub finish : ℕ → String → Outcome → Option Fields → Option String → Rows → Rows
finish now run_id status result error rows =
    Table.update (λ r. r.id == run_id) (close now status result error) rows

abbrev pub interrupt : ℕ → RunRecord → RunRecord
interrupt now r = record r {
  status = JobStatus.interrupted;
  error = some "kernel restarted before completion";
  updated_at = now;
  finished_at = some now;
}

unfoldable pub recover_interrupted : ℕ → Rows → ℕ × Rows
recover_interrupted now rows = (
  Table.count (λ r. is_live r.status) rows,
  Table.update (λ r. is_live r.status) (interrupt now) rows,
)
