-- ===== src/Workflows/Service/Leaves.antt =====
-- The steps that the loop of `advance` (kernel/workflow_service.py) leaves waiting.
use achilles.Prelude.{
  Supply, String, ◌≡◌, refl, sym, ap, subst, ◌∙◌, true, false, Option, none, some, List, [], ◌∷◌,
  ◌++◌, eq_refl, Result, ok, raised, Bool-cases, inl, inr,
}
use achilles.Jobs
use achilles.Jobs.{JobRecord}
use achilles.Table
use achilles.Table.Laws
use achilles.Workflows.Dag.{WorkflowStep, subset}
use achilles.Workflows.Instances.{StepState, step_key}
use achilles.Workflows.Service.{
  Progress, is_pending, queued_state, job_for_step, record_job, queue_step, visit, visit_all,
  and_then,
}
use achilles.Workflows.Service.Order.{state_of, is_waiting, Moves, visit_all-Moves}

waiting_before :
    (known : List String) (steps : List WorkflowStep) (k : String) (old new : Option StepState)
    → Moves known steps k old new
    → is_waiting new ≡ true
    → is_waiting old ≡ true
waiting_before known steps k old new (Moves.same e) h = subst (λ s. is_waiting s ≡ true) e h
waiting_before known steps k old new (Moves.queues _ _ _ _ _ _ _ waits e) h = waits

-- A step that still waits after its own round was not ready.
visit_leaves :
    (supply : Supply) (instance_id : String) (known : List String) (step : WorkflowStep)
    (p q : Progress)
    → visit supply instance_id known step p (state_of step.id p.states) ≡ (ok tt, q)
    → is_waiting (state_of step.id q.states) ≡ true
    → subset step.depends_on known ≡ false
unfolding record_job
visit_leaves supply instance_id known step p q h waits =
    elim (Bool-cases (subset step.depends_on known)) [
      | inr n ↦ n
      | inl ready ↦ go (state_of step.id p.states) refl h ready
    ]
  where
    job :
        (c : Result (JobRecord × Jobs.Rows))
        → record_job step p c ≡ (ok tt, q)
        → subset step.depends_on known ≡ false
    job (raised e) r = cc
    job (ok (record', jobs)) r =
        let now : q.states ≡ Table.upsert step_key (queued_state step.id record'.id) p.states =
          sym (ap (λ (x : Result (Unit {0}) × Progress). x.1.states) r) in
        let stored : state_of step.id q.states ≡ some (queued_state step.id record'.id) =
          rw
            (
              now,
              Laws.find-upsert step_key (queued_state step.id record'.id) step.id p.states,
              eq_refl step.id,
            )
            refl in
        cc (rw stored at waits)

    go :
        (s : Option StepState)
        → state_of step.id p.states ≡ s
        → visit supply instance_id known step p s ≡ (ok tt, q)
        → subset step.depends_on known ≡ true
        → subset step.depends_on known ≡ false
    go none f r ready = unfold visit in cc (r)
    go (some s) f r ready =
        unfold visit queue_step in
        elim (Bool-cases (is_pending s.status)) [
          | inr n ↦
              let at_q : ◌≡◌ {A = Result (Unit {0}) × Progress} (ok tt, p) (ok tt, q) = rw n at r in
              let same : state_of step.id q.states ≡ some s =
                sym (ap (λ (x : Result (Unit {0}) × Progress). state_of step.id x.1.states) at_q)
                ∙ f in
              cc (n, rw same at waits)
          | inl w ↦ job (job_for_step supply instance_id step p.drawn p.jobs) (rw (w, ready) at r)
        ]

pub visit_all_leaves :
    (supply : Supply) (instance_id : String) (known : List String) (steps : List WorkflowStep)
    (p q : Progress) (before after : List WorkflowStep) (s : WorkflowStep)
    → visit_all supply instance_id known steps p ≡ (ok tt, q)
    → steps ≡ before ++ s ∷ after
    → is_waiting (state_of s.id q.states) ≡ true
    → subset s.depends_on known ≡ false
unfolding visit_all
visit_all_leaves supply instance_id known [] p q [] after s h split waits = cc
visit_all_leaves supply instance_id known [] p q (x ∷ before) after s h split waits = cc
visit_all_leaves supply instance_id known (step ∷ steps) p q before after s h split waits =
    go (visit supply instance_id known step p (state_of step.id p.states)) refl h before split
      (λ mid b. visit_all_leaves supply instance_id known steps mid q b after s)
  where
    go :
        (r : Result (Unit {0}) × Progress)
        → visit supply instance_id known step p (state_of step.id p.states) ≡ r
        → and_then r (λ x. visit_all supply instance_id known steps x) ≡ (ok tt, q)
        → (b : List WorkflowStep) → step ∷ steps ≡ b ++ s ∷ after
        → ((mid : Progress) (b : List WorkflowStep)
            → visit_all supply instance_id known steps mid ≡ (ok tt, q)
            → steps ≡ b ++ s ∷ after
            → is_waiting (state_of s.id q.states) ≡ true
            → subset s.depends_on known ≡ false)
        → subset s.depends_on known ≡ false
    go (raised e, mid) f r b split' ih = cc
    go (ok tt, mid) f r (x ∷ b) split' ih = ih mid b r (cc) waits
    go (ok tt, mid) f r [] split' ih =
        let here : step ≡ s = cc in
        subst (λ x. subset x.depends_on known ≡ false) here
          (visit_leaves supply instance_id known step p mid f (
            subst (λ x. is_waiting (state_of x.id mid.states) ≡ true) (sym here)
              (waiting_before known steps s.id (state_of s.id mid.states) (state_of s.id q.states)
                (visit_all-Moves supply instance_id known steps mid q s.id r) waits)))
