-- ===== src/Workflows/Dag/Kahn.antt =====
-- `_validate_dag` (kernel/workflows.py) ends, and accepts exactly the graphs that can be run.
use achilles.Prelude.{
  ℕ, zero, suc, ◌+◌, ◌≤◌, String, ◌≡◌, ◌≢◌, ◌↔◌, refl, ap, Bool, true, Option, none, some, List, [],
  ◌∷◌, ◌++◌, arith, length, nat_eq, All, eq_refl, subst, Bool-cases, inl, inr, if◌then◌else◌,
}
use achilles.Table
use achilles.Table.Queries
use achilles.Workflows.Dag.{
  WorkflowStep, DagError, contains, to_set, is_ready, ids, kahn, knows_dependencies, validate_dag,
}
use achilles.Workflows.Dag.Schedule.{
  Schedule, Within, Gone, some_ready, Schedule-delete, Schedule-restore, contains-append,
}

length-select :
    (p : WorkflowStep → Bool) (steps : List WorkflowStep)
    → length (Table.select p steps) ≡ Table.count p steps
unfolding Table.select Table.count
length-select p [] = refl
length-select p (s ∷ steps) = ground (arith, length-select p steps)

-- A round that finds a ready step leaves fewer steps.
shrinks :
    (p : WorkflowStep → Bool) (steps : List WorkflowStep) (r : WorkflowStep)
    (rs : List WorkflowStep)
    → Table.select p steps ≡ r ∷ rs
    → length (Table.delete p steps) + 1 ≤ length steps
shrinks p steps r rs h = omega (
  arith,
  length-select p steps,
  Queries.length-delete p steps,
  ap (λ (l : List WorkflowStep). length l) h,
)

-- The rest of a round of the loop, once the ready steps are known.
abbrev round : ℕ → List String → List WorkflowStep → List WorkflowStep → Option (Option DagError)
round fuel resolved remaining [] = some (some DagError.dependency_cycle)
round fuel resolved remaining (r ∷ rs) =
    kahn fuel (ids (r ∷ rs) ++ resolved) (Table.delete (is_ready resolved) remaining)

kahn-round :
    (fuel : ℕ) (resolved : List String) (s : WorkflowStep) (rest : List WorkflowStep)
    → kahn (suc fuel) resolved (s ∷ rest)
      ≡ round fuel resolved (s ∷ rest) (Table.select (is_ready resolved) (s ∷ rest))
unfolding kahn
kahn-round fuel resolved s rest = go (Table.select (is_ready resolved) (s ∷ rest))
  where
    go :
        (ready : List WorkflowStep)
        → (elim ready as (λ _. Option (Option DagError)) [
          | [] ↦ some (some DagError.dependency_cycle)
          | r ∷ rs ↦
              kahn fuel (ids (r ∷ rs) ++ resolved) (Table.delete (is_ready resolved) (s ∷ rest))
        ])
          ≡ round fuel resolved (s ∷ rest) ready
    go [] = refl
    go (r ∷ rs) = refl

-- As much fuel as there are steps is enough.
kahn_ends :
    (fuel : ℕ) (resolved : List String) (remaining : List WorkflowStep)
    → length remaining ≤ fuel
    → kahn fuel resolved remaining ≢ none
unfolding kahn
kahn_ends fuel resolved [] h e = cc
kahn_ends zero resolved (s ∷ rest) h e = absurd (omega arith)
kahn_ends (suc fuel) resolved (s ∷ rest) h e =
    go (Table.select (is_ready resolved) (s ∷ rest)) refl (kahn_ends fuel) (rw kahn-round at e)
  where
    go :
        (ready : List WorkflowStep)
        → Table.select (is_ready resolved) (s ∷ rest) ≡ ready
        → ((known : List String) (left : List WorkflowStep)
            → length left ≤ fuel
            → kahn fuel known left ≢ none)
        → round fuel resolved (s ∷ rest) ready ≡ none
        → ⊥
    go [] q ih e = cc
    go (r ∷ rs) q ih e =
        ih (ids (r ∷ rs) ++ resolved) (Table.delete (is_ready resolved) (s ∷ rest))
          (omega (arith, shrinks (is_ready resolved) (s ∷ rest) r rs q)) e

kahn_sound :
    (fuel : ℕ) (resolved : List String) (remaining : List WorkflowStep)
    → kahn fuel resolved remaining ≡ some none
    → Schedule resolved remaining
unfolding kahn
kahn_sound fuel resolved [] h = Schedule.finished resolved
kahn_sound zero resolved (s ∷ rest) h = cc
kahn_sound (suc fuel) resolved (s ∷ rest) h =
    go (Table.select (is_ready resolved) (s ∷ rest)) refl (kahn_sound fuel) (rw kahn-round at h)
  where
    go :
        (ready : List WorkflowStep)
        → Table.select (is_ready resolved) (s ∷ rest) ≡ ready
        → ((known : List String) (left : List WorkflowStep)
            → kahn fuel known left ≡ some none
            → Schedule known left)
        → round fuel resolved (s ∷ rest) ready ≡ some none
        → Schedule resolved (s ∷ rest)
    go [] q ih e = cc
    go (r ∷ rs) q ih e =
        Schedule-restore (is_ready resolved) resolved [] (s ∷ rest) (λ x p. p)
          (rw q (ih (ids (r ∷ rs) ++ resolved) (Table.delete (is_ready resolved) (s ∷ rest)) e))

selected_known :
    (p : WorkflowStep → Bool) (zs : List String) (steps : List WorkflowStep)
    → Within (ids (Table.select p steps)) zs
    → All (Gone p zs) steps
unfolding Table.select contains
selected_known p zs [] w = tt
selected_known p zs (s ∷ steps) w = (
  λ e. w s.id (rw e (rw eq_refl (ground arith))),
  selected_known p zs steps (λ k m. w k (later k m)),
)
  where
    later :
        (k : String)
        → contains (ids (Table.select p steps)) k ≡ true
        → contains (ids (if p s then s ∷ Table.select p steps else Table.select p steps)) k ≡ true
    later k m = elim (Bool-cases (p s)) [ inl e ↦ rw (e, m) (ground arith) | inr e ↦ rw e m ]

kahn_complete :
    (fuel : ℕ) (resolved : List String) (remaining : List WorkflowStep)
    → length remaining ≤ fuel
    → Schedule resolved remaining
    → kahn fuel resolved remaining ≡ some none
unfolding kahn
kahn_complete fuel resolved [] h plan = refl
kahn_complete zero resolved (s ∷ rest) h plan = absurd (omega arith)
kahn_complete (suc fuel) resolved (s ∷ rest) h plan =
    rw kahn-round (go (Table.select (is_ready resolved) (s ∷ rest)) refl (kahn_complete fuel))
  where
    go :
        (ready : List WorkflowStep)
        → Table.select (is_ready resolved) (s ∷ rest) ≡ ready
        → ((known : List String) (left : List WorkflowStep)
            → length left ≤ fuel
            → Schedule known left
            → kahn fuel known left ≡ some none)
        → round fuel resolved (s ∷ rest) ready ≡ some none
    go [] q ih = elim (some_ready plan) [
      | inl e ↦ cc
      | inr e ↦ absurd (Queries.exists-select (is_ready resolved) (s ∷ rest) e q)
    ]
    go (r ∷ rs) q ih =
        ih (ids (r ∷ rs) ++ resolved) (Table.delete (is_ready resolved) (s ∷ rest))
          (omega (arith, shrinks (is_ready resolved) (s ∷ rest) r rs q))
          (Schedule-delete (is_ready resolved) (ids (r ∷ rs) ++ resolved)
            (λ k e. ground (arith, contains-append k (ids (r ∷ rs)) resolved))
            (subst (λ l. All (Gone (is_ready resolved) (ids l ++ resolved)) (s ∷ rest)) q
              (selected_known (is_ready resolved)
                (ids (Table.select (is_ready resolved) (s ∷ rest)) ++ resolved) (s ∷ rest)
                (λ k e. ground (
                  arith,
                  contains-append k (ids (Table.select (is_ready resolved) (s ∷ rest))) resolved,
                ))))
            plan)

-- Validation ends: the loop makes at most one round for each step.
pub validate_ends : (steps : List WorkflowStep) → validate_dag steps ≢ none
unfolding validate_dag
validate_ends [] e = cc
validate_ends (s ∷ steps) e =
    ground (arith, kahn_ends (length (s ∷ steps)) [] (s ∷ steps) (omega arith))

abbrev pub has_unique_ids : List WorkflowStep → Bool
has_unique_ids steps = nat_eq (length (to_set (ids steps))) (length steps)

-- A definition is accepted exactly if it has steps, their ids are unique, they depend on known steps
-- only, and the steps can be run one by one, each after all that it depends on.
pub validate_accepts_iff :
    (steps : List WorkflowStep)
    → (validate_dag steps ≡ some none)
      ↔ (steps ≢ [])
        × (has_unique_ids steps ≡ true)
        × (knows_dependencies steps ≡ true)
        × Schedule [] steps
unfolding validate_dag
validate_accepts_iff [] = (λ h. cc, λ h. absurd (h.0 refl))
validate_accepts_iff (s ∷ steps) = (
  λ h. (
    λ e. cc,
    ground arith,
    ground arith,
    kahn_sound (length (s ∷ steps)) [] (s ∷ steps) (ground arith),
  ),
  λ h. rw (h.1, h.2, kahn_complete (length (s ∷ steps)) [] (s ∷ steps) (omega arith) h.3) refl,
)
