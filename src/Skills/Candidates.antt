-- ===== src/Skills/Candidates.antt =====
-- SkillCandidateStore (src/sovereign_ai/kernel/skills.py).
use achilles.Prelude.{
  ℕ, String, ◌==◌, nat_eq, Option, none, some, List, if◌then◌else◌, Result, ok, raised, value_error,
}
use achilles.Prelude.Order.{sort_desc}
use achilles.Json.{Items}
use achilles.Table
use achilles.Skills.{
  CandidateStatus, same_status, SkillCandidateRecord, is_objects, all_records, fetch, checked,
}

abbrev pub Rows : Type 0
Rows = List SkillCandidateRecord

abbrev pub key : SkillCandidateRecord → String
key r = r.id

-- _record
abbrev pub record_of : SkillCandidateRecord → Result SkillCandidateRecord
record_of r = if is_objects r.trajectory then ok r else raised value_error

unfoldable pub get : String → Rows → Result (Option SkillCandidateRecord)
get candidate_id rows = fetch record_of (Table.find key candidate_id rows)

abbrev pub fresh_candidate : String → ℕ → String → String → Items → String → SkillCandidateRecord
fresh_candidate id now source_run_id objective trajectory proposed_by = record {
  id = id;
  source_run_id = source_run_id;
  objective = objective;
  trajectory = trajectory;
  proposed_by = proposed_by;
  status = CandidateStatus.proposed;
  created_at = now;
  updated_at = now;
}

-- The row is stored before it is read back, so it stays where reading it raises.
unfoldable pub create :
    (id : String) (now : ℕ) (source_run_id objective : String) (trajectory : Items)
    (proposed_by : String)
    → Rows
    → Result SkillCandidateRecord × Rows
unfolding get
create id now source_run_id objective trajectory proposed_by rows =
    elim (Table.insert key (fresh_candidate id now source_run_id objective trajectory proposed_by)
      rows) [ raised e ↦ (raised e, rows) | ok rows' ↦ (checked (get id rows'), rows') ]

unfoldable pub list : Option CandidateStatus → Rows → Result Rows
unfolding all_records
list (some status) rows =
    all_records record_of
      (sort_desc (λ r. r.created_at) (Table.select (λ r. same_status r.status status) rows))
list none rows = all_records record_of (sort_desc (λ r. r.created_at) rows)

abbrev pub with_status : ℕ → CandidateStatus → SkillCandidateRecord → SkillCandidateRecord
with_status now status r = record r { status = status; updated_at = now }

unfoldable pub set_status :
    (now : ℕ) (candidate_id : String) → CandidateStatus → Rows → Result SkillCandidateRecord × Rows
unfolding get
set_status now candidate_id status rows =
    let rows' = Table.update (λ r. r.id == candidate_id) (with_status now status) rows in
    if nat_eq (Table.count (λ r. r.id == candidate_id) rows) 0
    then (raised value_error, rows)
    else (checked (get candidate_id rows'), rows')
