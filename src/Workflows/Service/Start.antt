-- ===== src/Workflows/Service/Start.antt =====
-- What `start` (kernel/workflow_service.py) makes of a definition.
use achilles.Prelude.{
  Supply, ◌+◌, String, ◌≡◌, refl, sym, ap, subst, ◌∙◌, true, false, Option, some, List, [], ◌∷◌,
  ◌++◌, ◌==◌, eq_iff, if◌then◌else◌, Result, ok, raised, Bool-cases, inl, inr, ◌⊎◌,
}
use achilles.Jobs
use achilles.Jobs.{JobRecord}
use achilles.Table
use achilles.Table.Laws
use achilles.Workflows.Dag.{WorkflowStep}
use achilles.Workflows.Definitions
use achilles.Workflows.Definitions.{WorkflowDefinitionRecord}
use achilles.Workflows.Instances
use achilles.Workflows.Instances.{
  StepStatus, InstanceStatus, StepState, StepStates, WorkflowInstanceRecord, step_key,
}
use achilles.Workflows.Service.{
  Kernel, Progress, pending_state, queued_state, job_for_step, record_job, queue_step, and_then,
  start_step, start_all, initial_states, store_states, start_created, start,
}
use achilles.Workflows.Service.Order.{state_of, is_started}
use achilles.Workflows.Service.Loop.{step_id_of, all_done_in, IsOrdered, unique_step}
use achilles.Workflows.Service.Advance.{store_stores}

-- What the loop of `start` may do to the state of step `k`: nothing, or queue it, if it depends on
-- nothing.
data Starts (steps : List WorkflowStep) (k : String) (old new : Option StepState) : Type 0 where
  same : new ≡ old → Starts steps k old new
  queues :
      (before after : List WorkflowStep) (step : WorkflowStep)
      → steps ≡ before ++ step ∷ after
      → step.id ≡ k
      → step.depends_on ≡ []
      → Starts steps k old new

queue_step_others :
    (supply : Supply) (instance_id : String) (step : WorkflowStep) (p q : Progress) (k : String)
    → queue_step supply instance_id step p ≡ (ok tt, q)
    → step.id == k ≡ false
    → state_of k q.states ≡ state_of k p.states
unfolding queue_step
queue_step_others supply instance_id step p q k h n =
    go (job_for_step supply instance_id step p.drawn p.jobs) h
  where
    go :
        (c : Result (JobRecord × Jobs.Rows))
        → record_job step p c ≡ (ok tt, q)
        → state_of k q.states ≡ state_of k p.states
    go (raised e) r = cc
    go (ok (job, jobs)) r =
        let now : q.states ≡ Table.upsert step_key (queued_state step.id job.id) p.states =
          sym (ap (λ (x : Result (Unit {0}) × Progress). x.1.states) r) in
        rw (now, Laws.find-upsert step_key (queued_state step.id job.id) k p.states, n) refl

start_step-Starts :
    (supply : Supply) (instance_id : String) (step : WorkflowStep) (deps : List String)
    (p q : Progress) (k : String)
    → step.depends_on ≡ deps
    → start_step supply instance_id step deps p ≡ (ok tt, q)
    → Starts (step ∷ []) k (state_of k p.states) (state_of k q.states)
unfolding start_step
start_step-Starts supply instance_id step (d ∷ ds) p q k e h =
    Starts.same (sym (ap (λ (x : Result (Unit {0}) × Progress). state_of k x.1.states) h))
start_step-Starts supply instance_id step [] p q k e h = elim (Bool-cases (step.id == k)) [
  | inl y ↦ Starts.queues [] [] step refl ((eq_iff step.id k).0 y) e
  | inr n ↦ Starts.same (queue_step_others supply instance_id step p q k h n)
]

Starts-cons :
    (s : WorkflowStep) (steps : List WorkflowStep) (k : String) (old mid new : Option StepState)
    → Starts (s ∷ []) k old mid
    → Starts steps k mid new
    → Starts (s ∷ steps) k old new
Starts-cons s steps k old mid new first (Starts.queues before after step split id free) =
    Starts.queues (s ∷ before) after step (ap (λ l. s ∷ l) split) id free
Starts-cons s steps k old mid new (Starts.same e) (Starts.same f) = Starts.same (f ∙ e)
Starts-cons s steps k old mid new (Starts.queues [] after step split id free) (Starts.same f) =
    Starts.queues [] steps s refl (cc) (cc)
Starts-cons s steps k old mid new (Starts.queues (x ∷ []) after step split id free)
      (Starts.same f) =
    cc (split)
Starts-cons s steps k old mid new (Starts.queues (x ∷ y ∷ b) after step split id free)
      (Starts.same f) =
    cc (split)

start_all-Starts :
    (supply : Supply) (instance_id : String) (steps : List WorkflowStep) (p q : Progress)
    (k : String)
    → start_all supply instance_id steps p ≡ (ok tt, q)
    → Starts steps k (state_of k p.states) (state_of k q.states)
unfolding start_all
start_all-Starts supply instance_id [] p q k h =
    Starts.same (sym (ap (λ (x : Result (Unit {0}) × Progress). state_of k x.1.states) h))
start_all-Starts supply instance_id (step ∷ steps) p q k h =
    go (start_step supply instance_id step step.depends_on p) refl h
      (λ mid. start_all-Starts supply instance_id steps mid q k)
  where
    go :
        (c : Result (Unit {0}) × Progress)
        → start_step supply instance_id step step.depends_on p ≡ c
        → and_then c (λ x. start_all supply instance_id steps x) ≡ (ok tt, q)
        → ((mid : Progress)
            → start_all supply instance_id steps mid ≡ (ok tt, q)
            → Starts steps k (state_of k mid.states) (state_of k q.states))
        → Starts (step ∷ steps) k (state_of k p.states) (state_of k q.states)
    go (raised e, mid) f g ih = cc
    go (ok tt, mid) f g ih =
        Starts-cons step steps k (state_of k p.states) (state_of k mid.states) (state_of k q.states)
          (start_step-Starts supply instance_id step step.depends_on p mid k refl f) (ih mid g)

initial_states_wait :
    (steps : List WorkflowStep) (states : StepStates) (k : String)
    → ((j : String) → is_started (state_of j states) ≡ false)
    → is_started (state_of k (initial_states states steps)) ≡ false
unfolding initial_states
initial_states_wait [] states k h = h k
initial_states_wait (s ∷ steps) states k h =
    initial_states_wait steps (Table.upsert step_key (pending_state s) states) k
      (λ j. one j (Bool-cases (s.id == j)))
  where
    found :
        (j : String)
        → state_of j (Table.upsert step_key (pending_state s) states)
          ≡ (if s.id == j then some (pending_state s) else state_of j states)
    found j = Laws.find-upsert step_key (pending_state s) j states

    one :
        (j : String)
        → (s.id == j ≡ true) ⊎ (s.id == j ≡ false)
        → is_started (state_of j (Table.upsert step_key (pending_state s) states)) ≡ false
    one j (inl y) = rw (found j, y) refl
    one j (inr n) = rw (found j, n) (h j)

nothing : (j : String) → is_started (state_of j []) ≡ false
unfolding Table.find
nothing j = refl

-- An instance that is started is running, and only steps that depend on nothing have been queued.
pub start-IsOrdered :
    (supply : Supply) (definition_id : String) (k k' : Kernel)
    (definition : WorkflowDefinitionRecord) (new : WorkflowInstanceRecord) (jobs : List JobRecord)
    → Definitions.get definition_id k.definitions ≡ some definition
    → Table.IsKeyed step_id_of definition.steps
    → start supply definition_id k ≡ (ok (new, jobs), k')
    → (new.status ≡ InstanceStatus.running) × IsOrdered definition.steps new.step_states
unfolding start start_created Instances.create
start-IsOrdered supply definition_id k k' d new jobs found keyed h =
    go
      (Instances.create (supply.uuid k.drawn) (supply.clock k.drawn) d.id
        (initial_states [] d.steps) k.instances)
      refl (rw found at h)
  where
    queued :
        (created : WorkflowInstanceRecord) (instances : Instances.Rows)
        (c : Result (Unit {0}) × Progress)
        → created.step_states ≡ initial_states [] d.steps
        → start_all supply created.id d.steps (record {
          states = created.step_states;
          new_jobs = [];
          jobs = k.jobs;
          drawn = k.drawn + 1;
        })
          ≡ c
        → store_states supply created.id InstanceStatus.running c
            (record k { instances = instances })
          ≡ (ok (new, jobs), k')
        → (new.status ≡ InstanceStatus.running) × IsOrdered d.steps new.step_states
    queued created instances (r, q) first ran f =
        let (returned, _, stored) =
          store_stores supply created.id InstanceStatus.running (r, q)
            (record k { instances = instances }) k' new jobs f in
        let whole = ran ∙ ap (λ x. (x, q)) returned in
        (
          stored.status_is,
          record {
            at = λ before after s split started.
                ordered before after s split
                  (subst (λ l. is_started (state_of s.id l) ≡ true) stored.states started)
                  (subst (λ l. Starts d.steps s.id (state_of s.id l) (state_of s.id q.states)) first
                    (start_all-Starts supply created.id d.steps _ q s.id whole));
          },
        )
      where
        ordered :
            (before after : List WorkflowStep) (s : WorkflowStep)
            → d.steps ≡ before ++ s ∷ after
            → is_started (state_of s.id q.states) ≡ true
            → Starts d.steps s.id
                (state_of s.id (initial_states [] d.steps))
                (state_of s.id q.states)
            → all_done_in new.step_states s.depends_on ≡ true
        ordered before after s split started (Starts.same e) =
            let waits : is_started (state_of s.id (initial_states [] d.steps)) ≡ false =
              initial_states_wait d.steps [] s.id (λ j. nothing j) in
            cc (waits, started, ap is_started e)
        ordered before after s split started (Starts.queues b a t split' id free) =
            let one : t ≡ s = unique_step d.steps keyed before after b a s t split split' id in
            let nothing_first : s.depends_on ≡ [] =
              sym (ap (λ (x : WorkflowStep). x.depends_on) one) ∙ free in
            rw nothing_first refl

    go :
        (c : Result (WorkflowInstanceRecord × Instances.Rows))
        → Instances.create
            (supply.uuid k.drawn)
            (supply.clock k.drawn)
            d.id
            (initial_states [] d.steps)
            k.instances
          ≡ c
        → start_created supply d.steps k c ≡ (ok (new, jobs), k')
        → (new.status ≡ InstanceStatus.running) × IsOrdered d.steps new.step_states
    go (raised e) f g = cc
    go (ok (created, instances)) f g =
        let (_, _, as_given) = Laws.add_ok Instances.key _ created k.instances f in
        queued created instances _ (ap (λ (x : WorkflowInstanceRecord). x.step_states) as_given)
          refl g
