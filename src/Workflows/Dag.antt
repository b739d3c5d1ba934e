-- ===== src/Workflows/Dag.antt =====
-- `_validate_dag` (kernel/workflows.py): Kahn's algorithm over the steps of a definition.
pub mod Schedule
pub mod Kahn
mod Tests
use achilles.Prelude.{
  ℕ, zero, suc, String, Bool, true, false, not, ◌&&◌, ◌||◌, Option, none, some, List, [], ◌∷◌, ◌++◌,
  map, ◌==◌, nat_eq, any, all, length, if◌then◌else◌,
}
use achilles.Json.{Fields}
use achilles.Jobs.{JobKind}
use achilles.Table

pub record WorkflowStep : Type 0 where
  pub id : String
  pub job_kind : JobKind
  pub request_template : Fields
  pub depends_on : List String

-- x in xs
unfoldable pub contains : List String → String → Bool
contains [] k = false
contains (x ∷ xs) k = x == k || contains xs k

-- set(xs), each element once
unfoldable pub to_set : List String → List String
unfolding contains
to_set [] = []
to_set (x ∷ xs) = if contains xs x then to_set xs else x ∷ to_set xs

-- set(xs) <= set(ys)
unfoldable pub subset : List String → List String → Bool
unfolding contains
subset [] ys = true
subset (x ∷ xs) ys = contains ys x && subset xs ys

-- Why a definition is refused: the message of the WorkflowValidationError.
pub data DagError : Type 0 where
  no_steps duplicate_ids unknown_dependency dependency_cycle : DagError

abbrev pub is_ready : List String → WorkflowStep → Bool
is_ready resolved step = subset step.depends_on resolved

abbrev pub ids : List WorkflowStep → List String
ids = map (λ step. step.id)

-- The loop `while remaining`, on fuel: `none` is the fuel running out, `some none` a graph with an
-- order, and `some (some e)` the error that is raised.
unfoldable pub kahn : ℕ → List String → List WorkflowStep → Option (Option DagError)
kahn fuel resolved [] = some none
kahn zero resolved (step ∷ remaining) = none
kahn (suc fuel) resolved (step ∷ remaining) =
    let ready = Table.select (is_ready resolved) (step ∷ remaining) in
    elim ready [
      | [] ↦ some (some DagError.dependency_cycle)
      | r ∷ rs ↦
          kahn fuel (ids (r ∷ rs) ++ resolved) (Table.delete (is_ready resolved) (step ∷ remaining))
    ]

unfoldable pub knows_dependencies : List WorkflowStep → Bool
knows_dependencies steps = all (λ step. subset step.depends_on (ids steps)) steps

unfoldable pub validate_dag : List WorkflowStep → Option (Option DagError)
unfolding to_set knows_dependencies
validate_dag [] = some (some DagError.no_steps)
validate_dag (step ∷ steps) =
    let loop = kahn (length (step ∷ steps)) [] (step ∷ steps) in
    if not (nat_eq (length (to_set (ids (step ∷ steps)))) (length (step ∷ steps)))
    then some (some DagError.duplicate_ids)
    else if not (knows_dependencies (step ∷ steps))
    then some (some DagError.unknown_dependency)
    else loop
