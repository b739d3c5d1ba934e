-- ===== src/Workflows/Definitions/Tests.antt =====
-- Runs and witnesses for the definitions.
use achilles.Prelude.{◌≡◌, refl, List, [], ◌∷◌, ok}
use achilles.Json
use achilles.Jobs.{JobKind}
use achilles.Table
use achilles.Workflows.Dag.{WorkflowStep, validate_dag, kahn, knows_dependencies, contains, subset}
use achilles.Workflows.Definitions.{WorkflowDefinitionRecord, Rows, create}

abbrev steps : List WorkflowStep
steps =
    record { id = "fetch"; job_kind = JobKind.chat; request_template = Json.end; depends_on = [] }
    ∷ record {
      id = "report";
      job_kind = JobKind.agent;
      request_template = Json.end;
      depends_on = "fetch" ∷ [];
    }
    ∷ []

abbrev first_version : WorkflowDefinitionRecord
first_version = record { id = "d1"; name = "daily"; version = 1; steps = steps; created_at = 5 }

abbrev second_version : WorkflowDefinitionRecord
second_version = record { id = "d2"; name = "daily"; version = 2; steps = steps; created_at = 6 }

abbrev rows : Rows
rows = first_version ∷ []

create_runs :
    create "d2" 6 "daily" steps rows ≡ ok (second_version, first_version ∷ second_version ∷ [])
unfolding create validate_dag Table.select Table.delete Table.exists Table.add Table.find kahn
    subset contains knows_dependencies Table.maximum
create_runs = refl
