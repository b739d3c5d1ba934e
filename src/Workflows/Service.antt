-- ===== src/Workflows/Service.antt =====
-- WorkflowService (kernel/workflow_service.py): queueing the steps of an instance as their
-- dependencies succeed. Fresh ids and readings of the clock are drawn from two sequences.
use achilles.Prelude.{
  Supply, ℕ, ◌+◌, String, Bool, true, false, Option, none, some, List, [], ◌∷◌, ◌++◌, map, all,
  if◌then◌else◌, Result, ok, raised, value_error, key_error,
}
pub mod Order
pub mod Leaves
pub mod Loop
pub mod Advance
pub mod Start
mod Tests
use achilles.Json
use achilles.Jobs
use achilles.Jobs.{JobRecord}
use achilles.Table
use achilles.Workflows.Dag.{WorkflowStep, subset}
use achilles.Workflows.Definitions
use achilles.Workflows.Definitions.{WorkflowDefinitionRecord}
use achilles.Workflows.Instances
use achilles.Workflows.Instances.{
  StepStatus, InstanceStatus, StepState, StepStates, step_key, WorkflowInstanceRecord,
}

-- The tables that the service uses, and how many calls it has made of the two functions.
pub record Kernel : Type 0 where
  pub definitions : Definitions.Rows
  pub instances : Instances.Rows
  pub jobs : Jobs.Rows
  pub drawn : ℕ

abbrev pub is_pending : StepStatus → Bool
is_pending StepStatus.pending = true
is_pending _ = false

abbrev pub is_succeeded : StepStatus → Bool
is_succeeded StepStatus.succeeded = true
is_succeeded _ = false

abbrev pub pending_state : WorkflowStep → StepState
pending_state step = record {
  step_id = step.id;
  status = StepStatus.pending;
  job_id = none;
  error = none;
}

abbrev pub queued_state : String → String → StepState
queued_state step_id job_id = record {
  step_id = step_id;
  status = StepStatus.queued;
  job_id = some job_id;
  error = none;
}

-- {sid for sid, state in step_states.items() if state["status"] == "succeeded"}
unfoldable pub succeeded_ids : StepStates → List String
succeeded_ids states = map step_key (Table.select (λ s. is_succeeded s.status) states)

-- {"workflow": {"instance_id": ..., "step_id": ...}}
abbrev pub workflow_metadata : String → String → Json.Fields
workflow_metadata instance_id step_id =
    Json.field "workflow"
      (Json.object (
        Json.field "instance_id" (Json.text instance_id)
          (Json.field "step_id" (Json.text step_id) Json.end)))
      Json.end

unfoldable pub job_for_step :
    Supply → String → WorkflowStep → ℕ → Jobs.Rows → Result (JobRecord × Jobs.Rows)
job_for_step supply instance_id step drawn jobs =
    Jobs.create (supply.uuid drawn) (supply.clock drawn) step.job_kind step.request_template
      (workflow_metadata instance_id step.id) jobs

-- The variables of the two loops.
pub record Progress : Type 0 where
  pub states : StepStates
  pub new_jobs : List JobRecord
  pub jobs : Jobs.Rows
  pub drawn : ℕ

-- `step_states[step.id] = {"status": "queued", ...}; new_jobs.append(job)`
unfoldable pub record_job :
    WorkflowStep → Progress → Result (JobRecord × Jobs.Rows) → Result (Unit {0}) × Progress
record_job step p (raised e) = (raised e, record p { drawn = p.drawn + 1 })
record_job step p (ok (job, jobs)) = (
  ok tt,
  record {
    states = Table.upsert step_key (queued_state step.id job.id) p.states;
    new_jobs = p.new_jobs ++ job ∷ [];
    jobs = jobs;
    drawn = p.drawn + 1;
  },
)

unfoldable pub queue_step : Supply → String → WorkflowStep → Progress → Result (Unit {0}) × Progress
unfolding record_job job_for_step
queue_step supply instance_id step p =
    record_job step p (job_for_step supply instance_id step p.drawn p.jobs)

-- One round of the loop of `advance`.
unfoldable pub visit :
    Supply
    → String
    → List String
    → WorkflowStep
    → Progress
    → Option StepState
    → Result (Unit {0}) × Progress
unfolding queue_step
visit supply instance_id succeeded step p none = (raised key_error, p)
visit supply instance_id succeeded step p (some state) =
    if is_pending state.status
    then (if subset step.depends_on succeeded
        then queue_step supply instance_id step p
        else (ok tt, p))
    else (ok tt, p)

abbrev pub and_then :
    Result (Unit {0}) × Progress
    → (Progress → Result (Unit {0}) × Progress)
    → Result (Unit {0}) × Progress
and_then (ok u, p) next = next p
and_then (raised e, p) next = (raised e, p)

unfoldable pub visit_all :
    Supply → String → List String → List WorkflowStep → Progress → Result (Unit {0}) × Progress
unfolding visit
visit_all supply instance_id succeeded [] p = (ok tt, p)
visit_all supply instance_id succeeded (step ∷ steps) p =
    and_then (visit supply instance_id succeeded step p (Table.find step_key step.id p.states))
      (λ q. visit_all supply instance_id succeeded steps q)

-- all(state["status"] == "succeeded" for state in step_states.values())
unfoldable pub all_done : StepStates → Bool
all_done states = all (λ s. is_succeeded s.status) states

-- `if not step.depends_on` of `start`
unfoldable pub start_step :
    Supply → String → WorkflowStep → List String → Progress → Result (Unit {0}) × Progress
unfolding queue_step
start_step supply instance_id step [] p = queue_step supply instance_id step p
start_step supply instance_id step (d ∷ ds) p = (ok tt, p)

unfoldable pub start_all :
    Supply → String → List WorkflowStep → Progress → Result (Unit {0}) × Progress
unfolding start_step
start_all supply instance_id [] p = (ok tt, p)
start_all supply instance_id (step ∷ steps) p =
    and_then (start_step supply instance_id step step.depends_on p)
      (λ q. start_all supply instance_id steps q)

-- {step.id: {"status": "pending", "job_id": None} for step in definition.steps}
unfoldable pub initial_states : StepStates → List WorkflowStep → StepStates
initial_states states [] = states
initial_states states (step ∷ steps) =
    initial_states (Table.upsert step_key (pending_state step) states) steps

abbrev pub Answer : Type 0
Answer = Result (WorkflowInstanceRecord × List JobRecord) × Kernel

-- The last `instances.update`, at the next reading of the clock.
unfoldable pub store_states :
    Supply → String → InstanceStatus → Result (Unit {0}) × Progress → Kernel → Answer
store_states supply instance_id status (raised e, p) k =
    (raised e, record k { jobs = p.jobs; drawn = p.drawn })
store_states supply instance_id status (ok u, p) k =
    elim (Instances.update (supply.clock p.drawn) instance_id status p.states k.instances) [
      | raised e ↦ (raised e, record k { jobs = p.jobs; drawn = p.drawn + 1 })
      | ok (instance', instances) ↦ (
        ok (instance', p.new_jobs),
        record k { instances = instances; jobs = p.jobs; drawn = p.drawn + 1 },
      )
    ]

unfoldable pub start_created :
    Supply → List WorkflowStep → Kernel → Result (WorkflowInstanceRecord × Instances.Rows) → Answer
unfolding start_all store_states
start_created supply steps k (raised e) = (raised e, record k { drawn = k.drawn + 1 })
start_created supply steps k (ok (created, instances)) =
    store_states supply created.id InstanceStatus.running
      (start_all supply created.id steps (record {
        states = created.step_states;
        new_jobs = [];
        jobs = k.jobs;
        drawn = k.drawn + 1;
      }))
      (record k { instances = instances })

unfoldable pub start_defined : Supply → Option WorkflowDefinitionRecord → Kernel → Answer
unfolding start_created initial_states
start_defined supply none k = (raised value_error, k)
start_defined supply (some definition) k = start_created supply definition.steps k (
    Instances.create (supply.uuid k.drawn) (supply.clock k.drawn) definition.id
      (initial_states [] definition.steps) k.instances)

unfoldable pub start : Supply → String → Kernel → Answer
unfolding start_defined
start supply definition_id k = start_defined supply (Definitions.get definition_id k.definitions) k

-- The two outcomes of a step's job that `advance` is called with.
pub data Outcome : Type 0 where
  succeeded failed : Outcome

abbrev pub outcome_status : Outcome → StepStatus
outcome_status Outcome.succeeded = StepStatus.succeeded
outcome_status Outcome.failed = StepStatus.failed

-- step_states.get(step_id, {}).get("job_id")
abbrev pub old_job : Option StepState → Option String
old_job none = none
old_job (some s) = s.job_id

unfoldable pub mark_step : String → Outcome → Option String → StepStates → StepStates
mark_step step_id outcome error states =
    Table.upsert step_key
      (record {
        step_id = step_id;
        status = outcome_status outcome;
        job_id = old_job (Table.find step_key step_id states);
        error = error;
      })
      states

unfoldable pub finish_advance : Supply → String → Result (Unit {0}) × Progress → Kernel → Answer
unfolding store_states all_done
finish_advance supply instance_id r k =
    store_states supply instance_id
      (if all_done r.1.states then InstanceStatus.completed else InstanceStatus.running) r k

unfoldable pub advance_marked :
    Supply → WorkflowInstanceRecord → List WorkflowStep → Outcome → StepStates → Kernel → Answer
unfolding visit_all store_states finish_advance succeeded_ids
advance_marked supply instance' steps Outcome.failed states k =
    store_states supply instance'.id InstanceStatus.failed
      (ok tt, record { states = states; new_jobs = []; jobs = k.jobs; drawn = k.drawn }) k
advance_marked supply instance' steps Outcome.succeeded states k =
    finish_advance supply instance'.id
      (visit_all supply instance'.id (succeeded_ids states) steps
        (record { states = states; new_jobs = []; jobs = k.jobs; drawn = k.drawn }))
      k

unfoldable pub advance_defined :
    Supply
    → WorkflowInstanceRecord
    → Option WorkflowDefinitionRecord
    → String
    → Outcome
    → Option String
    → Kernel
    → Answer
unfolding advance_marked mark_step
advance_defined supply instance' none step_id outcome error k = (raised value_error, k)
advance_defined supply instance' (some definition) step_id outcome error k =
    advance_marked supply instance' definition.steps outcome
      (mark_step step_id outcome error instance'.step_states) k

abbrev pub is_running : InstanceStatus → Bool
is_running InstanceStatus.running = true
is_running _ = false

unfoldable pub advance_found :
    Supply → Option WorkflowInstanceRecord → String → Outcome → Option String → Kernel → Answer
unfolding advance_defined
advance_found supply none step_id outcome error k = (raised value_error, k)
advance_found supply (some instance') step_id outcome error k =
    if is_running instance'.status
    then advance_defined supply instance' (Definitions.get instance'.definition_id k.definitions)
        step_id outcome error k
    else (ok (instance', []), k)

-- `error` is `none` for both a missing and an empty message.
unfoldable pub advance :
    Supply → (instance_id step_id : String) → Outcome → Option String → Kernel → Answer
unfolding advance_found
advance supply instance_id step_id outcome error k =
    advance_found supply (Instances.get instance_id k.instances) step_id outcome error k
