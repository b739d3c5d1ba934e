-- ===== src/Workflows/Definitions.antt =====
-- WorkflowDefinitionStore (kernel/workflows.py): immutable versions of a graph under one name.
pub mod Versions
mod Tests
use achilles.Prelude.{
  ℕ, ◌+◌, String, Bool, ◌&&◌, Option, none, some, List, [], ◌∷◌, ◌==◌, nat_eq, if◌then◌else◌,
  Result, ok, raised, value_error, runtime_error, integrity_error,
}
use achilles.Prelude.Order.{sort_by, sort_desc}
use achilles.Table
use achilles.Workflows.Dag.{WorkflowStep, DagError, validate_dag}

pub record WorkflowDefinitionRecord : Type 0 where
  pub id : String
  pub name : String
  pub version : ℕ
  pub steps : List WorkflowStep
  pub created_at : ℕ

abbrev pub Rows : Type 0
Rows = List WorkflowDefinitionRecord

abbrev pub key : WorkflowDefinitionRecord → String
key r = r.id

unfoldable pub get : String → Rows → Option WorkflowDefinitionRecord
get definition_id rows = Table.find key definition_id rows

-- SELECT MAX(version) FROM workflow_definitions WHERE name=?, 0 if there is none
abbrev pub max_version : String → Rows → ℕ
max_version name rows = Table.maximum (λ r. r.name == name) (λ r. r.version) rows

abbrev pub is_version : String → ℕ → WorkflowDefinitionRecord → Bool
is_version name version r = r.name == name && nat_eq r.version version

-- INSERT under UNIQUE(name, version)
unfoldable pub insert_definition :
    WorkflowDefinitionRecord → Rows → Result (WorkflowDefinitionRecord × Rows)
insert_definition r rows =
    if Table.exists (is_version r.name r.version) rows
    then raised integrity_error
    else Table.add key r rows

abbrev pub next_definition :
    String → ℕ → String → List WorkflowStep → Rows → WorkflowDefinitionRecord
next_definition id now name steps rows = record {
  id = id;
  name = name;
  version = max_version name rows + 1;
  steps = steps;
  created_at = now;
}

-- What `create` does once `_validate_dag` has answered. `none` would be a validation that does not
-- end; `Workflows.Dag.Kahn` shows that there is none.
unfoldable pub store_valid :
    Option (Option DagError)
    → WorkflowDefinitionRecord
    → Rows
    → Result (WorkflowDefinitionRecord × Rows)
unfolding insert_definition
store_valid none r rows = raised runtime_error
store_valid (some (some e)) r rows = raised value_error
store_valid (some none) r rows = insert_definition r rows

unfoldable pub create :
    (id : String) (now : ℕ) (name : String)
    → List WorkflowStep
    → Rows
    → Result (WorkflowDefinitionRecord × Rows)
unfolding store_valid
create id now name steps rows =
    store_valid (validate_dag steps) (next_definition id now name steps rows) rows

-- ORDER BY version DESC LIMIT 1
unfoldable pub latest : String → Rows → Option WorkflowDefinitionRecord
latest name rows = elim (sort_desc (λ r. r.version) (Table.select (λ r. r.name == name) rows)) [
  | [] ↦ none
  | r ∷ rs ↦ some r
]

unfoldable pub list_versions : String → Rows → Rows
list_versions name rows = sort_by (λ r. r.version) (Table.select (λ r. r.name == name) rows)
