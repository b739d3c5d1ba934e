-- ===== src/Jobs.antt =====
-- src/sovereign_ai/kernel/jobs.py: the durable journal of jobs.
pub mod Lifecycle
mod Tests
use achilles.Prelude.{
  ℕ, suc, String, Bool, true, false, ◌&&◌, ◌||◌, Option, none, some, List, ◌==◌, if◌then◌else◌,
  Result, take, ltb, ◌+◌,
}
use achilles.Prelude.Order.{sort_desc}
use achilles.Json.{Fields}
use achilles.Table

pub data JobKind : Type 0 where
  chat specialist media agent : JobKind

pub data JobStatus : Type 0 where
  queued running succeeded failed cancelled interrupted : JobStatus

-- The statuses that `finish` takes.
pub data Outcome : Type 0 where
  succeeded failed cancelled : Outcome

pub record JobRecord : Type 0 where
  pub id : String
  pub kind : JobKind
  pub status : JobStatus
  pub request : Fields
  pub result : Option Fields
  pub error : Option String
  pub cancellation_requested : Bool
  pub created_at : ℕ
  pub updated_at : ℕ
  pub started_at : Option ℕ
  pub finished_at : Option ℕ
  pub metadata : Fields

abbrev pub Rows : Type 0
Rows = List JobRecord

abbrev pub key : JobRecord → String
key r = r.id

abbrev pub outcome_status : Outcome → JobStatus
outcome_status Outcome.succeeded = JobStatus.succeeded
outcome_status Outcome.failed = JobStatus.failed
outcome_status Outcome.cancelled = JobStatus.cancelled

abbrev pub is_queued : JobStatus → Bool
is_queued JobStatus.queued = true
is_queued _ = false

-- status IN ('queued','running')
abbrev pub is_live : JobStatus → Bool
is_live JobStatus.queued = true
is_live JobStatus.running = true
is_live _ = false

unfoldable pub get : String → Rows → Option JobRecord
get job_id rows = Table.find key job_id rows

unfoldable pub create :
    (id : String) (now : ℕ)
    → JobKind
    → (request metadata : Fields) → Rows
    → Result (JobRecord × Rows)
create id now kind request metadata rows =
    Table.add key
      (record {
        id = id;
        kind = kind;
        status = JobStatus.queued;
        request = request;
        result = none;
        error = none;
        cancellation_requested = false;
        created_at = now;
        updated_at = now;
        started_at = none;
        finished_at = none;
        metadata = metadata;
      })
      rows

abbrev pub same_status : JobStatus → JobStatus → Bool
same_status JobStatus.queued JobStatus.queued = true
same_status JobStatus.running JobStatus.running = true
same_status JobStatus.succeeded JobStatus.succeeded = true
same_status JobStatus.failed JobStatus.failed = true
same_status JobStatus.cancelled JobStatus.cancelled = true
same_status JobStatus.interrupted JobStatus.interrupted = true
same_status _ _ = false

-- max(1, min(limit, 500)); a limit below zero is a limit of zero here, and becomes 1 all the same
abbrev pub clamp_limit : ℕ → ℕ
clamp_limit limit = if ltb limit 1 then 1 else if ltb 500 limit then 500 else limit

abbrev pub in_status : Option JobStatus → JobRecord → Bool
in_status none r = true
in_status (some s) r = same_status r.status s

unfoldable pub list : Option JobStatus → ℕ → Rows → Rows
list status limit rows =
    take (clamp_limit limit) (sort_desc (λ r. r.updated_at) (Table.select (in_status status) rows))

abbrev pub run_now : ℕ → JobRecord → JobRecord
run_now now r = record r { status = JobStatus.running; started_at = some now; updated_at = now }

unfoldable pub mark_running : ℕ → String → Rows → Rows
mark_running now job_id rows =
    Table.update (λ r. r.id == job_id && is_queued r.status) (run_now now) rows

abbrev pub close : ℕ → Outcome → Option Fields → Option String → JobRecord → JobRecord
close now status result error r = record r {
  status = outcome_status status;
  result = result;
  error = error;
  updated_at = now;
  finished_at = some now;
}

unfoldable pub finish : ℕ → String → Outcome → Option Fields → Option String → Rows → Rows
finish now job_id status result error rows =
    Table.update (λ r. r.id == job_id) (close now status result error) rows

abbrev pub ask_cancel : ℕ → JobRecord → JobRecord
ask_cancel now r = record r { cancellation_requested = true; updated_at = now }

unfoldable pub request_cancel : ℕ → String → Rows → Option JobRecord × Rows
unfolding get
request_cancel now job_id rows =
    let rows' = Table.update (λ r. r.id == job_id && is_live r.status) (ask_cancel now) rows in
    (get job_id rows', rows')

abbrev pub interrupt : ℕ → JobRecord → JobRecord
interrupt now r = record r {
  status = JobStatus.interrupted;
  error = some "kernel restarted before completion";
  updated_at = now;
  finished_at = some now;
}

unfoldable pub recover_interrupted : ℕ → Rows → ℕ × Rows
recover_interrupted now rows = (
  Table.count (λ r. is_live r.status) rows,
  Table.update (λ r. is_live r.status) (interrupt now) rows,
)
