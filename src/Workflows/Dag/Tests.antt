-- ===== src/Workflows/Dag/Tests.antt =====
-- Runs and witnesses for `_validate_dag`.
use achilles.Prelude.{◌↔◌, ◌≡◌, ◌≢◌, refl, true, none, some, [], ◌∷◌}
use achilles.Json
use achilles.Jobs.{JobKind}
use achilles.Table
use achilles.Workflows.Dag.{
  WorkflowStep, DagError, validate_dag, kahn, knows_dependencies, contains, subset,
}
use achilles.Workflows.Dag.Schedule.{Schedule}
use achilles.Workflows.Dag.Kahn.{validate_ends, validate_accepts_iff, has_unique_ids}

abbrev pub fetch_step : WorkflowStep
fetch_step = record {
  id = "fetch";
  job_kind = JobKind.chat;
  request_template = Json.end;
  depends_on = [];
}

abbrev pub report_step : WorkflowStep
report_step = record {
  id = "report";
  job_kind = JobKind.agent;
  request_template = Json.end;
  depends_on = "fetch" ∷ [];
}

abbrev loop_step : WorkflowStep
loop_step = record fetch_step { depends_on = "report" ∷ [] }

-- The order in which the steps are listed does not matter.
accepts : validate_dag (report_step ∷ fetch_step ∷ []) ≡ some none
unfolding validate_dag Table.select Table.delete kahn subset contains knows_dependencies
accepts = refl

refuses_cycle : validate_dag (report_step ∷ loop_step ∷ []) ≡ some (some DagError.dependency_cycle)
unfolding validate_dag Table.select Table.delete kahn subset contains knows_dependencies
refuses_cycle = refl

refuses_unknown : validate_dag (report_step ∷ []) ≡ some (some DagError.unknown_dependency)
unfolding validate_dag Table.select Table.delete kahn subset contains knows_dependencies
refuses_unknown = refl

validate_ends_example : validate_dag (report_step ∷ loop_step ∷ []) ≢ none
validate_ends_example = validate_ends (report_step ∷ loop_step ∷ [])

validate_accepts_iff_example :
    (validate_dag (report_step ∷ fetch_step ∷ []) ≡ some none)
    ↔ (report_step ∷ fetch_step ∷ [] ≢ [])
      × (has_unique_ids (report_step ∷ fetch_step ∷ []) ≡ true)
      × (knows_dependencies (report_step ∷ fetch_step ∷ []) ≡ true)
      × Schedule [] (report_step ∷ fetch_step ∷ [])
validate_accepts_iff_example = validate_accepts_iff (report_step ∷ fetch_step ∷ [])
