-- ===== src/Workflows/Definitions/Versions.antt =====
-- What a stored definition is, and that it never changes (kernel/workflows.py).
use achilles.Prelude.{
  ◌==◌, ℕ, ◌+◌, String, ◌≡◌, refl, true, Option, none, some, List, [], ◌∷◌, ◌++◌, arith, ok,
}
use achilles.Table.Laws
use achilles.Table.Found
use achilles.Workflows.Dag.{WorkflowStep, DagError, validate_dag, knows_dependencies}
use achilles.Workflows.Dag.Schedule.{Schedule}
use achilles.Workflows.Dag.Kahn.{validate_accepts_iff, has_unique_ids}
use achilles.Workflows.Definitions.{
  WorkflowDefinitionRecord, Rows, key, get, max_version, insert_definition, next_definition,
  store_valid, create,
}

-- The rows of a database that was built by `create` calls only, and what `create` answered last.
pub data Reach (rows : Rows) : Rows → Type 0 where
  here : Reach rows rows
  next :
      {mid rows' : Rows} (id : String) (now : ℕ) (name : String) (steps : List WorkflowStep)
      (r : WorkflowDefinitionRecord)
      → Reach rows mid
      → create id now name steps mid ≡ ok (r, rows')
      → Reach rows rows'

abbrev Accepted : String → List WorkflowStep → Rows → WorkflowDefinitionRecord → Rows → Type 0
Accepted name steps rows r rows' =
    (validate_dag steps ≡ some none)
    × (r.version ≡ max_version name rows + 1)
    × (r.steps ≡ steps)
    × (rows' ≡ rows ++ r ∷ [])

create_ok :
    (id : String) (now : ℕ) (name : String) (steps : List WorkflowStep) (rows rows' : Rows)
    (r : WorkflowDefinitionRecord)
    → create id now name steps rows ≡ ok (r, rows')
    → Accepted name steps rows r rows'
unfolding create
create_ok id now name steps rows rows' r h = go (validate_dag steps) refl h
  where
    fresh : WorkflowDefinitionRecord
    fresh = next_definition id now name steps rows

    added :
        insert_definition fresh rows ≡ ok (r, rows') → (r ≡ fresh) × (rows' ≡ rows ++ fresh ∷ [])
    added q =
        let (new, e, same) = Laws.add_ok key fresh r rows (
          rw
            (Found.exists-above (λ (x : WorkflowDefinitionRecord). x.name == name) (λ x. x.version)
              (max_version name rows + 1) rows (omega arith))
            at q) in
        (same, e)

    go :
        (v : Option (Option DagError))
        → validate_dag steps ≡ v
        → store_valid v fresh rows ≡ ok (r, rows')
        → Accepted name steps rows r rows'
    go none e q = cc
    go (some (some x)) e q = cc
    go (some none) e q =
        let (same, split) = added q in (e, rw same refl, rw same refl, rw (split, same) refl)

-- A definition that is accepted gets the version after the highest of its name, and its steps have
-- unique ids, known dependencies and an order in which they can be run.
pub create_versions :
    (id : String) (now : ℕ) (name : String) (steps : List WorkflowStep) (rows : Rows) {rows' : Rows}
    (r : WorkflowDefinitionRecord)
    → create id now name steps rows ≡ ok (r, rows')
    → (r.version ≡ max_version name rows + 1)
      × (has_unique_ids r.steps ≡ true)
      × (knows_dependencies r.steps ≡ true)
      × Schedule [] r.steps
create_versions id now name steps rows {rows'} r h =
    let (valid, version, same, _) = create_ok id now name steps rows rows' r h in
    let (_, unique, known, plan) = (validate_accepts_iff steps).0 valid in
    (version, rw same unique, rw same known, rw same plan)

-- A stored definition is never changed or removed, whatever is created later: an instance that runs
-- it keeps its graph.
pub definition_is_immutable :
    (k : String) (r : WorkflowDefinitionRecord) {rows rows' : Rows}
    → get k rows ≡ some r
    → Reach rows rows'
    → get k rows' ≡ some r
definition_is_immutable k r found Reach.here = found
definition_is_immutable k r found (Reach.next {mid} {rows'} id now name steps x reach h) =
    let (_, _, _, split) = create_ok id now name steps mid rows' x h in
    rw split (kept mid x (definition_is_immutable k r found reach))
  where
    kept :
        (rows : Rows) (x : WorkflowDefinitionRecord)
        → get k rows ≡ some r
        → get k (rows ++ x ∷ []) ≡ some r
    kept rows x f = unfold get in rw (Laws.find-append key k rows x, f) refl
