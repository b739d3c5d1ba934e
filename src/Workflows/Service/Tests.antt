-- ===== src/Workflows/Service/Tests.antt =====
-- Runs and witnesses for the service.
use achilles.Prelude.{
  Supply, sym, subst, all, false, ◌≡◌, refl, true, none, some, List, [], ◌∷◌, ◌++◌, ok,
  if◌then◌else◌,
}
use achilles.Json
use achilles.Jobs
use achilles.Jobs.{JobKind, JobStatus, JobRecord}
use achilles.Table
use achilles.Workflows.Dag.{WorkflowStep, subset, contains}
use achilles.Workflows.Definitions
use achilles.Workflows.Definitions.{WorkflowDefinitionRecord}
use achilles.Workflows.Instances
use achilles.Workflows.Instances.{
  StepStatus, InstanceStatus, StepState, StepStates, WorkflowInstanceRecord,
}
use achilles.Workflows.Service.{
  start, Kernel, Outcome, old_job, advance, all_done, pending_state, queued_state,
  workflow_metadata,
}
use achilles.Workflows.Service.Order.{state_of, is_started, is_done}
use achilles.Workflows.Service.Loop.{IsOrdered, IsExhausted}
use achilles.Workflows.Service.Advance.{success_queues_what_is_due}

abbrev supply : Supply
supply = record { uuid = λ n. "u0"; clock = λ n. n }

abbrev fetch_step : WorkflowStep
fetch_step = record {
  id = "fetch";
  job_kind = JobKind.chat;
  request_template = Json.end;
  depends_on = [];
}

abbrev report_step : WorkflowStep
report_step = record {
  id = "report";
  job_kind = JobKind.agent;
  request_template = Json.end;
  depends_on = "fetch" ∷ [];
}

abbrev steps : List WorkflowStep
steps = fetch_step ∷ report_step ∷ []

abbrev definition : WorkflowDefinitionRecord
definition = record { id = "d1"; name = "daily"; version = 1; steps = steps; created_at = 5 }

abbrev running : WorkflowInstanceRecord
running = record {
  id = "i1";
  definition_id = "d1";
  status = InstanceStatus.running;
  step_states = queued_state "fetch" "j0" ∷ pending_state report_step ∷ [];
  created_at = 6;
  updated_at = 6;
}

abbrev kernel : Kernel
kernel = record { definitions = definition ∷ []; instances = running ∷ []; jobs = []; drawn = 0 }

abbrev report_job : JobRecord
report_job = record {
  id = "u0";
  kind = JobKind.agent;
  status = JobStatus.queued;
  request = Json.end;
  result = none;
  error = none;
  cancellation_requested = false;
  created_at = 0;
  updated_at = 0;
  started_at = none;
  finished_at = none;
  metadata = workflow_metadata "i1" "report";
}

abbrev advanced : WorkflowInstanceRecord
advanced = record running {
  step_states =
      record (queued_state "fetch" "j0") { status = StepStatus.succeeded }
      ∷ queued_state "report" "u0"
      ∷ [];
  updated_at = 1;
}

abbrev kernel_after : Kernel
kernel_after = record kernel { instances = advanced ∷ []; jobs = report_job ∷ []; drawn = 2 }

success_runs :
    advance supply "i1" "fetch" Outcome.succeeded none kernel
    ≡ (ok (advanced, report_job ∷ []), kernel_after)
unfolding advance Instances.get Instances.update Definitions.get Jobs.create Table.find Table.add
    Table.update Table.exists Table.upsert Table.select subset contains
success_runs = refl

ordered : IsOrdered steps running.step_states
unfolding Table.find
ordered = record { at = at }
  where
    at :
        (before after : List WorkflowStep) (s : WorkflowStep)
        → steps ≡ before ++ s ∷ after
        → is_started (state_of s.id running.step_states) ≡ true
        → all (λ d. is_done (state_of d running.step_states)) s.depends_on ≡ true
    at [] after s split started =
        let here : fetch_step ≡ s = cc in
        subst (λ x. all (λ d. is_done (state_of d running.step_states)) x.depends_on ≡ true) here
          refl
    at (x ∷ []) after s split started =
        let here : report_step ≡ s = cc in
        cc (subst (λ x. is_started (state_of x.id running.step_states) ≡ true) (sym here) started)
    at (x ∷ y ∷ []) after s split started = cc
    at (x ∷ y ∷ z ∷ before) after s split started = cc

success_queues_what_is_due_example :
    (state_of "fetch" advanced.step_states
      ≡ some (record {
        step_id = "fetch";
        status = StepStatus.succeeded;
        job_id = old_job (state_of "fetch" running.step_states);
        error = none;
      }))
    × IsOrdered steps advanced.step_states
    × IsExhausted steps advanced.step_states
    × (advanced.status ≡ (
        if all_done advanced.step_states then InstanceStatus.completed else InstanceStatus.running))
    × (Instances.get "i1" kernel_after.instances ≡ some advanced)
unfolding Instances.get Definitions.get Table.find
success_queues_what_is_due_example =
    success_queues_what_is_due supply "i1" "fetch" none kernel kernel_after running advanced
      definition (report_job ∷ []) refl refl refl (refl, (refl, tt)) (refl, (refl, tt)) ordered refl
      success_runs

abbrev stopped : WorkflowInstanceRecord
stopped = record running {
  status = InstanceStatus.failed;
  step_states =
      record (queued_state "fetch" "j0") { status = StepStatus.failed; error = some "no network" }
      ∷ pending_state report_step
      ∷ [];
  updated_at = 0;
}

abbrev kernel_stopped : Kernel
kernel_stopped = record kernel { instances = stopped ∷ []; drawn = 1 }

failure_runs :
    advance supply "i1" "fetch" Outcome.failed (some "no network") kernel
    ≡ (ok (stopped, []), kernel_stopped)
unfolding advance Instances.get Instances.update Definitions.get Table.find Table.update
    Table.exists Table.upsert
failure_runs = refl

abbrev started : WorkflowInstanceRecord
started = record running {
  id = "u0";
  step_states = queued_state "fetch" "u0" ∷ pending_state report_step ∷ [];
  created_at = 0;
  updated_at = 2;
}

abbrev fetch_job : JobRecord
fetch_job = record report_job {
  kind = JobKind.chat;
  created_at = 1;
  updated_at = 1;
  metadata = workflow_metadata "u0" "fetch";
}

abbrev idle : Kernel
idle = record kernel { instances = [] }

abbrev kernel_started : Kernel
kernel_started = record kernel { instances = started ∷ []; jobs = fetch_job ∷ []; drawn = 3 }

start_runs : start supply "d1" idle ≡ (ok (started, fetch_job ∷ []), kernel_started)
unfolding start Instances.create Instances.get Instances.update Definitions.get Jobs.create
    Table.find Table.add Table.update Table.exists Table.upsert
start_runs = refl
