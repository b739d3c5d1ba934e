-- ===== src/Workflows/Service/Order.antt =====
-- The loop of `advance` (kernel/workflow_service.py): what a round does to the state of a step.
use achilles.Prelude.{
  Supply, String, ◌≡◌, refl, sym, ap, subst, ◌∙◌, Bool, true, false, not, Option, none, some, List,
  [], ◌∷◌, ◌++◌, ◌==◌, eq_iff, Result, ok, raised, Bool-cases, inl, inr,
}
use achilles.Jobs
use achilles.Jobs.{JobRecord}
use achilles.Table
use achilles.Table.Laws
use achilles.Workflows.Dag.{WorkflowStep, subset}
use achilles.Workflows.Instances.{StepState, StepStates, step_key}
use achilles.Workflows.Service.{
  Progress, is_pending, is_succeeded, queued_state, job_for_step, record_job, queue_step, visit,
  visit_all, and_then,
}

-- The state of a step in the dict.
abbrev pub state_of : String → StepStates → Option StepState
state_of k states = Table.find step_key k states

abbrev pub is_waiting : Option StepState → Bool
is_waiting none = false
is_waiting (some s) = is_pending s.status

abbrev pub is_started : Option StepState → Bool
is_started none = false
is_started (some s) = not (is_pending s.status)

abbrev pub is_done : Option StepState → Bool
is_done none = false
is_done (some s) = is_succeeded s.status

-- What one round may do to the state of step `k`: nothing, or queue it, if it is the round's own step,
-- waits, and depends on steps of `known` only.
pub data Moves (known : List String) (steps : List WorkflowStep) (k : String)
    (old new : Option StepState) : Type 0 where
  same : new ≡ old → Moves known steps k old new
  queues :
      (before after : List WorkflowStep) (step : WorkflowStep) (job_id : String)
      → steps ≡ before ++ step ∷ after
      → step.id ≡ k
      → subset step.depends_on known ≡ true
      → is_waiting old ≡ true
      → new ≡ some (queued_state k job_id)
      → Moves known steps k old new

queue-Moves :
    (supply : Supply) (instance_id : String) (known : List String) (step : WorkflowStep)
    (p q : Progress) (k : String)
    → subset step.depends_on known ≡ true
    → is_waiting (state_of step.id p.states) ≡ true
    → queue_step supply instance_id step p ≡ (ok tt, q)
    → Moves known (step ∷ []) k (state_of k p.states) (state_of k q.states)
unfolding queue_step
queue-Moves supply instance_id known step p q k ready waiting h =
    go (job_for_step supply instance_id step p.drawn p.jobs) h
  where
    go :
        (c : Result (JobRecord × Jobs.Rows))
        → record_job step p c ≡ (ok tt, q)
        → Moves known (step ∷ []) k (state_of k p.states) (state_of k q.states)
    go (raised e) r = cc
    go (ok (job, jobs)) r = elim (Bool-cases (step.id == k)) [
      | inl e ↦
          Moves.queues [] [] step job.id refl ((eq_iff step.id k).0 e) ready
            (subst (λ j. is_waiting (state_of j p.states) ≡ true) ((eq_iff step.id k).0 e) waiting)
            (stored e)
      | inr n ↦ Moves.same (other n)
    ]
      where
        now : q.states ≡ Table.upsert step_key (queued_state step.id job.id) p.states
        now = sym (ap (λ (x : Result (Unit {0}) × Progress). x.1.states) r)

        stored : step.id == k ≡ true → state_of k q.states ≡ some (queued_state k job.id)
        stored e =
            rw
              (
                now,
                Laws.find-upsert step_key (queued_state step.id job.id) k p.states,
                e,
                (eq_iff step.id k).0 e,
              )
              refl

        other : step.id == k ≡ false → state_of k q.states ≡ state_of k p.states
        other n =
            rw (now, Laws.find-upsert step_key (queued_state step.id job.id) k p.states, n) refl

pub visit-Moves :
    (supply : Supply) (instance_id : String) (known : List String) (step : WorkflowStep)
    (p q : Progress) (k : String)
    → visit supply instance_id known step p (state_of step.id p.states) ≡ (ok tt, q)
    → Moves known (step ∷ []) k (state_of k p.states) (state_of k q.states)
visit-Moves supply instance_id known step p q k h = go (state_of step.id p.states) refl h
  where
    unmoved :
        (r : Result (Unit {0}) × Progress)
        → r ≡ (ok tt, q)
        → r.1 ≡ p
        → Moves known (step ∷ []) k (state_of k p.states) (state_of k q.states)
    unmoved r e f =
        let at_q : q ≡ p = sym (ap (λ (x : Result (Unit {0}) × Progress). x.1) e) ∙ f in
        Moves.same (ap (λ (x : Progress). state_of k x.states) at_q)

    go :
        (s : Option StepState)
        → state_of step.id p.states ≡ s
        → visit supply instance_id known step p s ≡ (ok tt, q)
        → Moves known (step ∷ []) k (state_of k p.states) (state_of k q.states)
    go none f r = unfold visit in cc (r)
    go (some s) f r =
        unfold visit in
        elim (Bool-cases (is_pending s.status)) [
          | inr n ↦ unmoved (ok tt, p) (rw n at r) refl
          | inl w ↦ elim (Bool-cases (subset step.depends_on known)) [
            | inr n ↦ unmoved (ok tt, p) (rw (w, n) at r) refl
            | inl ready ↦
                queue-Moves supply instance_id known step p q k ready (rw f w) (rw (w, ready) at r)
          ]
        ]

Moves-skip :
    (known : List String) (s : WorkflowStep) (steps : List WorkflowStep) (k : String)
    (old new : Option StepState)
    → Moves known steps k old new
    → Moves known (s ∷ steps) k old new
Moves-skip known s steps k old new (Moves.same e) = Moves.same e
Moves-skip known s steps k old new (Moves.queues before after step job_id split id ready waits e) =
    Moves.queues (s ∷ before) after step job_id (ap (λ l. s ∷ l) split) id ready waits e

-- A step that has been queued is not queued again.
Moves-cons :
    (known : List String) (s : WorkflowStep) (steps : List WorkflowStep) (k : String)
    (old mid new : Option StepState)
    → Moves known (s ∷ []) k old mid
    → Moves known steps k mid new
    → Moves known (s ∷ steps) k old new
Moves-cons known s steps k old mid new (Moves.same e) m =
    subst (λ x. Moves known (s ∷ steps) k x new) e (Moves-skip known s steps k mid new m)
Moves-cons known s steps k old mid new
      (Moves.queues before after step job_id split id ready waits e) (Moves.same f) =
    first before split
  where
    first :
        (b : List WorkflowStep) → (s ∷ []) ≡ b ++ step ∷ after → Moves known (s ∷ steps) k old new
    first [] q = Moves.queues [] steps s job_id refl (cc) (cc) waits (f ∙ e)
    first (x ∷ []) q = cc
    first (x ∷ y ∷ b) q = cc
Moves-cons known s steps k old mid new (Moves.queues _ _ _ job_id _ _ _ _ e)
      (Moves.queues _ _ _ _ _ _ _ waits _) =
    cc (ap is_waiting e)

pub visit_all-Moves :
    (supply : Supply) (instance_id : String) (known : List String) (steps : List WorkflowStep)
    (p q : Progress) (k : String)
    → visit_all supply instance_id known steps p ≡ (ok tt, q)
    → Moves known steps k (state_of k p.states) (state_of k q.states)
unfolding visit_all
visit_all-Moves supply instance_id known [] p q k h =
    Moves.same (sym (ap (λ (x : Result (Unit {0}) × Progress). state_of k x.1.states) h))
visit_all-Moves supply instance_id known (step ∷ steps) p q k h =
    go (visit supply instance_id known step p (state_of step.id p.states)) refl h
      (λ mid. visit_all-Moves supply instance_id known steps mid q k)
  where
    go :
        (r : Result (Unit {0}) × Progress)
        → visit supply instance_id known step p (state_of step.id p.states) ≡ r
        → and_then r (λ x. visit_all supply instance_id known steps x) ≡ (ok tt, q)
        → ((mid : Progress)
            → visit_all supply instance_id known steps mid ≡ (ok tt, q)
            → Moves known steps k (state_of k mid.states) (state_of k q.states))
        → Moves known (step ∷ steps) k (state_of k p.states) (state_of k q.states)
    go (raised e, mid) f r ih = cc
    go (ok tt, mid) f r ih =
        Moves-cons known step steps k (state_of k p.states) (state_of k mid.states)
          (state_of k q.states) (visit-Moves supply instance_id known step p mid k f) (ih mid r)
