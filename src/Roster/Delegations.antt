-- ===== src/Roster/Delegations.antt =====
-- DelegationStore (src/sovereign_ai/kernel/delegations.py): the work contracts that agents propose.
pub mod Status
use achilles.Prelude.{
  ℕ, String, Bool, true, false, Option, none, some, List, ◌==◌, if◌then◌else◌, Result, ok, raised,
  value_error,
}
use achilles.Prelude.Order.{sort_desc}
use achilles.Json.{Fields}
use achilles.Table

pub data DelegationStatus : Type 0 where
  proposed awaiting_approval approved rejected running completed failed : DelegationStatus

-- An entry of `requested_grants`; the two flags are `none` where the dict has no such key.
pub record RequestedGrant : Type 0 where
  pub action : String
  pub scope : String
  pub mutates_state : Option Bool
  pub uses_credentials : Option Bool

pub record DelegationRecord : Type 0 where
  pub id : String
  pub parent_subject_id : String
  pub objective : String
  pub inputs : Fields
  pub expected_artifacts : List String
  pub acceptance_tests : List String
  pub requested_grants : List RequestedGrant
  pub deadline : Option ℕ
  pub budget : Fields
  pub status : DelegationStatus
  pub child_job_id : Option String
  pub created_at : ℕ
  pub updated_at : ℕ

-- The keyword arguments of `create` that are stored as they are.
pub record Terms : Type 0 where
  pub inputs : Fields
  pub expected_artifacts : List String
  pub acceptance_tests : List String
  pub deadline : Option ℕ
  pub budget : Fields

abbrev pub Rows : Type 0
Rows = List DelegationRecord

abbrev pub key : DelegationRecord → String
key r = r.id

unfoldable pub get : String → Rows → Option DelegationRecord
get delegation_id rows = Table.find key delegation_id rows

abbrev pub fresh_delegation :
    String → ℕ → String → String → List RequestedGrant → Terms → DelegationRecord
fresh_delegation id now parent_subject_id objective requested_grants terms = record {
  id = id;
  parent_subject_id = parent_subject_id;
  objective = objective;
  inputs = terms.inputs;
  expected_artifacts = terms.expected_artifacts;
  acceptance_tests = terms.acceptance_tests;
  requested_grants = requested_grants;
  deadline = terms.deadline;
  budget = terms.budget;
  status = DelegationStatus.proposed;
  child_job_id = none;
  created_at = now;
  updated_at = now;
}

unfoldable pub create :
    (id : String) (now : ℕ) (parent_subject_id objective : String)
    → List RequestedGrant
    → Terms
    → Rows
    → Result (DelegationRecord × Rows)
create id now parent_subject_id objective requested_grants terms rows =
    Table.add key (fresh_delegation id now parent_subject_id objective requested_grants terms) rows

unfoldable pub list_for_subject : String → Rows → Rows
list_for_subject parent_subject_id rows =
    sort_desc (λ r. r.created_at)
      (Table.select (λ r. r.parent_subject_id == parent_subject_id) rows)

-- Without a `child_job_id` the column keeps its value.
abbrev pub write : ℕ → DelegationStatus → Option String → DelegationRecord → DelegationRecord
write now status none r = record r { status = status; updated_at = now }
write now status (some job_id) r = record r {
  status = status;
  child_job_id = some job_id;
  updated_at = now;
}

abbrev pub written : Option DelegationRecord → Rows → Result DelegationRecord × Rows
written none rows = (raised value_error, rows)
written (some r) rows = (ok r, rows)

unfoldable pub set_status :
    ℕ → String → DelegationStatus → Option String → Rows → Result DelegationRecord × Rows
unfolding get
set_status now delegation_id status child_job_id rows =
    let rows' = Table.update (λ r. r.id == delegation_id) (write now status child_job_id) rows in
    written (get delegation_id rows') rows'
