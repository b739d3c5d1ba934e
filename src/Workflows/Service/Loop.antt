-- ===== src/Workflows/Service/Loop.antt =====
-- The loop of `advance` (kernel/workflow_service.py): no step is queued too early, and none that is
-- due is left.
use achilles.Prelude.{
  Supply, String, ◌≡◌, refl, sym, ap, subst, ◌∙◌, Bool, true, false, Option, none, some, List, [],
  ◌∷◌, ◌++◌, all, arith, ◌==◌, eq_iff, eq_refl, if◌then◌else◌, ok, Bool-cases, inl, inr,
}
use achilles.Table
use achilles.Table.Laws
use achilles.Workflows.Dag.{WorkflowStep, subset, contains}
use achilles.Workflows.Instances.{StepStatus, StepState, StepStates, step_key}
use achilles.Workflows.Service.{Progress, Outcome, old_job, succeeded_ids, mark_step, visit_all}
use achilles.Workflows.Service.Leaves.{visit_all_leaves}
use achilles.Workflows.Service.Order.{
  state_of, is_waiting, is_started, is_done, Moves, visit_all-Moves,
}

abbrev pub step_id_of : WorkflowStep → String
step_id_of step = step.id

-- All of these steps have succeeded.
abbrev pub all_done_in : StepStates → List String → Bool
all_done_in states deps = all (λ d. is_done (state_of d states)) deps

-- A step that has been queued, at least, depends on steps that have succeeded only.
pub record IsOrdered (steps : List WorkflowStep) (states : StepStates) : Type 0 where
  pub at :
      (before after : List WorkflowStep) (s : WorkflowStep)
      → steps ≡ before ++ s ∷ after
      → is_started (state_of s.id states) ≡ true
      → all_done_in states s.depends_on ≡ true

-- No step waits whose dependencies have all succeeded.
pub record IsExhausted (steps : List WorkflowStep) (states : StepStates) : Type 0 where
  pub at :
      (before after : List WorkflowStep) (s : WorkflowStep)
      → steps ≡ before ++ s ∷ after
      → is_waiting (state_of s.id states) ≡ true
      → all_done_in states s.depends_on ≡ false

contains-succeeded_ids :
    (k : String) (states : StepStates)
    → Table.IsKeyed step_key states
    → contains (succeeded_ids states) k ≡ is_done (state_of k states)
unfolding succeeded_ids contains Table.find Table.select
contains-succeeded_ids k [] h = refl
contains-succeeded_ids k (s ∷ states) h = elim (Bool-cases (s.step_id == k)) [
  | inl e ↦ ground (
    arith,
    e,
    subst (λ j. Table.find step_key j states ≡ none) ((eq_iff s.step_id k).0 e) h.0,
    contains-succeeded_ids k states h.1,
  )
  | inr n ↦ ground (arith, n, contains-succeeded_ids k states h.1)
]

-- The set inclusion of the loop is the test that each dependency has succeeded.
subset-succeeded_ids :
    (deps : List String) (states : StepStates)
    → Table.IsKeyed step_key states
    → subset deps (succeeded_ids states) ≡ all_done_in states deps
unfolding subset
subset-succeeded_ids [] states h = refl
subset-succeeded_ids (d ∷ deps) states h =
    rw (contains-succeeded_ids d states h, subset-succeeded_ids deps states h) refl

-- Where nothing that was done is undone, what was all done stays so.
all_done_in_mono :
    (old new : StepStates) (deps : List String)
    → ((k : String) → is_done (state_of k old) ≡ true → is_done (state_of k new) ≡ true)
    → all_done_in old deps ≡ true
    → all_done_in new deps ≡ true
all_done_in_mono old new [] keeps h = refl
all_done_in_mono old new (d ∷ deps) keeps h =
    ground (arith, keeps d, all_done_in_mono old new deps keeps)

Moves-done :
    (known : List String) (steps : List WorkflowStep) (k : String) (old new : Option StepState)
    → Moves known steps k old new
    → is_done new ≡ is_done old
Moves-done known steps k old new (Moves.same e) = ap is_done e
Moves-done known steps k none new (Moves.queues before after step job_id split id ready waits e) =
    cc
Moves-done known steps k (some s) new
      (Moves.queues before after step job_id split id ready waits e) =
    ground (arith, e, waits)

same_all_done :
    (old new : StepStates) (deps : List String)
    → ((k : String) → is_done (state_of k new) ≡ is_done (state_of k old))
    → all_done_in new deps ≡ all_done_in old deps
same_all_done old new [] same = refl
same_all_done old new (d ∷ deps) same = rw (same d, same_all_done old new deps same) refl

-- Steps of one id are one step.
pub unique_step :
    (steps : List WorkflowStep)
    → Table.IsKeyed step_id_of steps
    → (before after before' after' : List WorkflowStep) (s t : WorkflowStep)
    → steps ≡ before ++ s ∷ after
    → steps ≡ before' ++ t ∷ after'
    → t.id ≡ s.id
    → t ≡ s
unique_step steps keyed_steps before after before' after' s t e f id =
    cc (at before after s e, at before' after' t f, ap (λ k. Table.find step_id_of k steps) id)
  where
    at :
        (b a : List WorkflowStep) (x : WorkflowStep)
        → steps ≡ b ++ x ∷ a
        → Table.find step_id_of x.id steps ≡ some x
    at b a x split =
        subst (λ l. Table.find step_id_of x.id l ≡ some x) (sym split)
          (Laws.find-middle step_id_of b a x
            (subst (λ l. Table.IsKeyed step_id_of l) split keyed_steps))

module _ (supply : Supply) (instance_id : String) (steps : List WorkflowStep) (p q : Progress)
    (keyed_steps : Table.IsKeyed step_id_of steps) (keyed_states : Table.IsKeyed step_key p.states)
    (ran : visit_all supply instance_id (succeeded_ids p.states) steps p ≡ (ok tt, q)) where
  moves :
      (k : String)
      → Moves (succeeded_ids p.states) steps k (state_of k p.states) (state_of k q.states)
  moves k = visit_all-Moves supply instance_id (succeeded_ids p.states) steps p q k ran

  done_same : (k : String) → is_done (state_of k q.states) ≡ is_done (state_of k p.states)
  done_same k = Moves-done (succeeded_ids p.states) steps k _ _ (moves k)

  -- A step that is not waiting keeps its state.
  pub loop_keeps :
      (k : String)
      → is_waiting (state_of k p.states) ≡ false
      → state_of k q.states ≡ state_of k p.states
  loop_keeps k settled = go (moves k)
    where
      go :
          Moves (succeeded_ids p.states) steps k (state_of k p.states) (state_of k q.states)
          → state_of k q.states ≡ state_of k p.states
      go (Moves.same e) = e
      go (Moves.queues before after step job_id split id ready waits e) = cc (settled, waits)

  pub loop-IsOrdered : IsOrdered steps p.states → IsOrdered steps q.states
  loop-IsOrdered h = record {
    at = λ before after s split started. go before after s split started (moves s.id);
  }
    where
      go :
          (before after : List WorkflowStep) (s : WorkflowStep)
          → steps ≡ before ++ s ∷ after
          → is_started (state_of s.id q.states) ≡ true
          → Moves
              (succeeded_ids p.states)
              steps
              s.id
              (state_of s.id p.states)
              (state_of s.id q.states)
          → all_done_in q.states s.depends_on ≡ true
      go before after s split started (Moves.same e) =
          same_all_done p.states q.states s.depends_on done_same
          ∙ h.at before after s split (rw e at started)
      go before after s split started
            (Moves.queues before' after' t job_id split' id ready waits e) =
          same_all_done p.states q.states s.depends_on done_same
          ∙ sym (subset-succeeded_ids s.depends_on p.states keyed_states)
          ∙ subst (λ x. subset x.depends_on (succeeded_ids p.states) ≡ true)
              (unique_step steps keyed_steps before after before' after' s t split split' id) ready

  pub loop-IsExhausted : IsExhausted steps q.states
  loop-IsExhausted = record {
    at = λ before after s split waits.
        same_all_done p.states q.states s.depends_on done_same
        ∙ sym (subset-succeeded_ids s.depends_on p.states keyed_states)
        ∙ visit_all_leaves supply instance_id (succeeded_ids p.states) steps p q before after s ran
            split waits;
  }

-- What `advance` records of a step whose job has succeeded.
abbrev pub success_of : String → Option String → StepStates → StepState
success_of step_id error states = record {
  step_id = step_id;
  status = StepStatus.succeeded;
  job_id = old_job (state_of step_id states);
  error = error;
}

pub state_of-mark_step :
    (step_id : String) (error : Option String) (states : StepStates)
    → state_of step_id (mark_step step_id Outcome.succeeded error states)
      ≡ some (success_of step_id error states)
unfolding mark_step
state_of-mark_step step_id error states =
    rw (Laws.find-upsert step_key (success_of step_id error states) step_id states, eq_refl step_id)
      refl

-- Marking the step of a job that has ended, which was queued before, keeps the order.
pub mark-IsOrdered :
    (steps : List WorkflowStep) (step_id : String) (error : Option String) (states : StepStates)
    → is_started (state_of step_id states) ≡ true
    → IsOrdered steps states
    → IsOrdered steps (mark_step step_id Outcome.succeeded error states)
unfolding mark_step
mark-IsOrdered steps step_id error states queued h = record {
  at = λ before after s split started.
      all_done_in_mono states _ s.depends_on keeps
        (h.at before after s split (was_started s.id started));
}
  where
    marked : StepState
    marked = record {
      step_id = step_id;
      status = StepStatus.succeeded;
      job_id = old_job (state_of step_id states);
      error = error;
    }

    found :
        (k : String)
        → state_of k (Table.upsert step_key marked states)
          ≡ (if step_id == k then some marked else state_of k states)
    found k = Laws.find-upsert step_key marked k states

    keeps :
        (k : String)
        → is_done (state_of k states) ≡ true
        → is_done (state_of k (Table.upsert step_key marked states)) ≡ true
    keeps k done = elim (Bool-cases (step_id == k)) [
      | inl e ↦ rw (found k, e) refl
      | inr n ↦ rw (found k, n) done
    ]

    was_started :
        (k : String)
        → is_started (state_of k (Table.upsert step_key marked states)) ≡ true
        → is_started (state_of k states) ≡ true
    was_started k started = elim (Bool-cases (step_id == k)) [
      | inl e ↦ subst (λ j. is_started (state_of j states) ≡ true) ((eq_iff step_id k).0 e) queued
      | inr n ↦ rw (found k, n) at started
    ]
