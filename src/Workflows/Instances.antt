-- ===== src/Workflows/Instances.antt =====
-- WorkflowInstanceStore (kernel/workflows.py): one run of a definition, with the state of each step.
use achilles.Prelude.{
  ℕ, String, Option, List, ◌==◌, if◌then◌else◌, Result, ok, raised, value_error, fetched, ◌>>=◌,
}
use achilles.Prelude.Order.{sort_desc}
use achilles.Table

pub data StepStatus : Type 0 where
  pending queued succeeded failed : StepStatus

pub data InstanceStatus : Type 0 where
  running completed failed : InstanceStatus

-- An entry of the dict `step_states`, with its key.
pub record StepState : Type 0 where
  pub step_id : String
  pub status : StepStatus
  pub job_id : Option String
  pub error : Option String

abbrev pub StepStates : Type 0
StepStates = List StepState

abbrev pub step_key : StepState → String
step_key s = s.step_id

pub record WorkflowInstanceRecord : Type 0 where
  pub id : String
  pub definition_id : String
  pub status : InstanceStatus
  pub step_states : StepStates
  pub created_at : ℕ
  pub updated_at : ℕ

abbrev pub Rows : Type 0
Rows = List WorkflowInstanceRecord

abbrev pub key : WorkflowInstanceRecord → String
key r = r.id

unfoldable pub get : String → Rows → Option WorkflowInstanceRecord
get instance_id rows = Table.find key instance_id rows

unfoldable pub create :
    (id : String) (now : ℕ) (definition_id : String)
    → StepStates
    → Rows
    → Result (WorkflowInstanceRecord × Rows)
create id now definition_id step_states rows =
    Table.add key
      (record {
        id = id;
        definition_id = definition_id;
        status = InstanceStatus.running;
        step_states = step_states;
        created_at = now;
        updated_at = now;
      })
      rows

abbrev pub write : ℕ → InstanceStatus → StepStates → WorkflowInstanceRecord → WorkflowInstanceRecord
write now status step_states r = record r {
  status = status;
  step_states = step_states;
  updated_at = now;
}

-- An UPDATE that touches no row raises.
unfoldable pub update :
    ℕ → String → InstanceStatus → StepStates → Rows → Result (WorkflowInstanceRecord × Rows)
unfolding get
update now instance_id status step_states rows =
    if Table.exists (λ r. r.id == instance_id) rows
    then (do
      let rows' = Table.update (λ r. r.id == instance_id) (write now status step_states) rows
      record' ← fetched (get instance_id rows')
      ok (record', rows'))
    else raised value_error

unfoldable pub list_for_definition : String → Rows → Rows
list_for_definition definition_id rows =
    sort_desc (λ r. r.created_at) (Table.select (λ r. r.definition_id == definition_id) rows)
