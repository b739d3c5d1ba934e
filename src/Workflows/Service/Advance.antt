-- ===== src/Workflows/Service/Advance.antt =====
-- What `advance` (kernel/workflow_service.py) does to an instance.
use achilles.Prelude.{
  Supply, ◌>>=◌, ℕ, ◌+◌, String, ◌≡◌, refl, sym, ap, subst, ◌∙◌, true, Option, none, some, List, [],
  ◌==◌, eq_refl, if◌then◌else◌, Result, ok, raised, fetched, Bool-cases, inl, inr,
}
use achilles.Jobs.{JobRecord}
use achilles.Table
use achilles.Table.Laws
use achilles.Workflows.Definitions
use achilles.Workflows.Definitions.{WorkflowDefinitionRecord}
use achilles.Workflows.Instances
use achilles.Workflows.Instances.{
  StepStatus, InstanceStatus, StepState, StepStates, WorkflowInstanceRecord, step_key,
}
use achilles.Workflows.Service.{
  Kernel, Progress, Answer, Outcome, old_job, succeeded_ids, mark_step, visit_all, all_done,
  store_states, finish_advance, advance,
}
use achilles.Workflows.Service.Order.{state_of, is_started, is_waiting}
use achilles.Workflows.Service.Loop.{
  step_id_of, IsOrdered, IsExhausted, loop-IsOrdered, loop-IsExhausted, loop_keeps, success_of,
  state_of-mark_step, mark-IsOrdered,
}

-- What a stored instance looks like.
pub record IsStored (instance_id : String) (status : InstanceStatus) (p : Progress)
    (answered : WorkflowInstanceRecord) (new_jobs : List JobRecord) (instances : Instances.Rows)
    : Type 0 where
  pub states : answered.step_states ≡ p.states
  pub status_is : answered.status ≡ status
  pub kept : Instances.get instance_id instances ≡ some answered
  pub jobs : new_jobs ≡ p.new_jobs

update_stores :
    (now : ℕ) (instance_id : String) (status : InstanceStatus) (p : Progress)
    (rows rows' : Instances.Rows) (r : WorkflowInstanceRecord)
    → Instances.update now instance_id status p.states rows ≡ ok (r, rows')
    → IsStored instance_id status p r p.new_jobs rows'
unfolding Instances.update Instances.get
update_stores now instance_id status p rows rows' r h =
    elim (Bool-cases (Table.exists (λ x. x.id == instance_id) rows)) [
      | inr n ↦ cc (n, h)
      | inl e ↦ go (Table.find Instances.key instance_id rows) refl (rw e at h)
    ]
  where
    write : WorkflowInstanceRecord → WorkflowInstanceRecord
    write = Instances.write now status p.states

    after : Instances.Rows
    after = Table.update (λ x. x.id == instance_id) write rows

    there :
        Table.find Instances.key instance_id after
        ≡ Laws.updated (λ x. x.id == instance_id) write (Table.find Instances.key instance_id rows)
    there =
        Laws.find-update Instances.key (λ x. x.id == instance_id) write (λ x. refl) instance_id rows

    go :
        (o : Option WorkflowInstanceRecord)
        → Table.find Instances.key instance_id rows ≡ o
        → ◌≡◌ {A = Result (WorkflowInstanceRecord × Instances.Rows)}
            (fetched (Table.find Instances.key instance_id after) >>= (λ x. ok (x, after)))
            (ok (r, rows'))
        → IsStored instance_id status p r p.new_jobs rows'
    go none e f = cc (rw (there, e) at f)
    go (some x) e f =
        let here : Table.find Instances.key instance_id after ≡ some (write x) =
          rw (there, e, Laws.find-key Instances.key instance_id rows x e, eq_refl instance_id)
            refl in
        let answer : ◌≡◌ {A = Result (WorkflowInstanceRecord × Instances.Rows)}
            (ok (write x, after)) (ok (r, rows')) =
          rw here at f in
        record {
          states = cc (answer);
          status_is = cc (answer);
          kept = cc (here, answer);
          jobs = refl;
        }

pub store_stores :
    (supply : Supply) (instance_id : String) (status : InstanceStatus)
    (c : Result (Unit {0}) × Progress) (k k' : Kernel) (r : WorkflowInstanceRecord)
    (js : List JobRecord)
    → store_states supply instance_id status c k ≡ (ok (r, js), k')
    → (c.0 ≡ ok tt) × (k'.jobs ≡ c.1.jobs) × IsStored instance_id status c.1 r js k'.instances
unfolding store_states
store_stores supply instance_id status (raised e, p) k k' r js h = cc
store_stores supply instance_id status (ok tt, p) k k' r js h =
    go (Instances.update (supply.clock p.drawn) instance_id status p.states k.instances) refl h
  where
    go :
        (u : Result (WorkflowInstanceRecord × Instances.Rows))
        → Instances.update (supply.clock p.drawn) instance_id status p.states k.instances ≡ u
        → ◌≡◌ {A = Answer}
            (elim u [
              | raised e ↦ (raised e, record k { jobs = p.jobs; drawn = p.drawn + 1 })
              | ok (instance', instances) ↦ (
                ok (instance', p.new_jobs),
                record k { instances = instances; jobs = p.jobs; drawn = p.drawn + 1 },
              )
            ])
            (ok (r, js), k')
        → (ok tt ≡ ok tt) × (k'.jobs ≡ p.jobs) × IsStored instance_id status p r js k'.instances
    go (raised e) f g = cc
    go (ok (instance', instances)) f g =
        let stored : IsStored instance_id status p instance' p.new_jobs instances =
          update_stores (supply.clock p.drawn) instance_id status p k.instances instances instance'
            f in
        let at_instances : instances ≡ k'.instances = ap (λ (x : Answer). x.1.instances) g in
        (
          refl,
          sym (ap (λ (x : Answer). x.1.jobs) g),
          record {
            states = cc (g, stored.states);
            status_is = cc (g, stored.status_is);
            kept = cc (g, stored.kept, at_instances);
            jobs = cc (g);
          },
        )

module _ (supply : Supply) (instance_id step_id : String) (error : Option String) (k k' : Kernel)
    (old new : WorkflowInstanceRecord) (definition : WorkflowDefinitionRecord)
    (new_jobs : List JobRecord) (found : Instances.get instance_id k.instances ≡ some old)
    (runs : old.status ≡ InstanceStatus.running)
    (defined : Definitions.get old.definition_id k.definitions ≡ some definition) where
  -- The step's state is stored as succeeded, with the error given and the job it was queued with, and
  -- the instance stored is ordered and exhausted: each step that was ever
  -- queued depends on successes only, no step is left waiting whose dependencies have all succeeded,
  -- and the instance is completed exactly when every step has succeeded. This holds of an instance
  -- that was ordered, whose step had been queued, when the call returns.
  pub success_queues_what_is_due :
      Table.IsKeyed step_id_of definition.steps
      → Table.IsKeyed step_key old.step_states
      → IsOrdered definition.steps old.step_states
      → is_started (state_of step_id old.step_states) ≡ true
      → advance supply instance_id step_id Outcome.succeeded error k ≡ (ok (new, new_jobs), k')
      → (state_of step_id new.step_states
          ≡ some (record {
            step_id = step_id;
            status = StepStatus.succeeded;
            job_id = old_job (state_of step_id old.step_states);
            error = error;
          }))
        × IsOrdered definition.steps new.step_states
        × IsExhausted definition.steps new.step_states
        × (new.status ≡ (
            if all_done new.step_states then InstanceStatus.completed else InstanceStatus.running))
        × (Instances.get old.id k'.instances ≡ some new)
  unfolding advance
  success_queues_what_is_due keyed_steps keyed_states ordered queued h =
      go (visit_all supply old.id (succeeded_ids marked) definition.steps at_start) refl
        (rw (found, runs, defined) at h)
    where
      marked : StepStates
      marked = mark_step step_id Outcome.succeeded error old.step_states

      recorded : state_of step_id marked ≡ some (success_of step_id error old.step_states)
      recorded = state_of-mark_step step_id error old.step_states

      at_start : Progress
      at_start = record { states = marked; new_jobs = []; jobs = k.jobs; drawn = k.drawn }

      go :
          (c : Result (Unit {0}) × Progress)
          → visit_all supply old.id (succeeded_ids marked) definition.steps at_start ≡ c
          → finish_advance supply old.id c k ≡ (ok (new, new_jobs), k')
          → (state_of step_id new.step_states
              ≡ some (record {
                step_id = step_id;
                status = StepStatus.succeeded;
                job_id = old_job (state_of step_id old.step_states);
                error = error;
              }))
            × IsOrdered definition.steps new.step_states
            × IsExhausted definition.steps new.step_states
            × (new.status ≡ (
                if all_done new.step_states
                then InstanceStatus.completed
                else InstanceStatus.running))
            × (Instances.get old.id k'.instances ≡ some new)
      go c e f =
          let (returned, _, stored) =
            store_stores supply old.id
              (if all_done c.1.states then InstanceStatus.completed else InstanceStatus.running) c k
              k' new new_jobs f in
          let ran : visit_all supply old.id (succeeded_ids marked) definition.steps at_start
              ≡ (ok tt, c.1) =
            rw (e, sym returned) refl in
          let keyed : Table.IsKeyed step_key marked =
            Laws.IsKeyed-upsert step_key _ old.step_states keyed_states in
          (
            ap (state_of step_id) stored.states
                ∙ loop_keeps supply old.id definition.steps at_start c.1 keyed_steps keyed ran
                    step_id (ap is_waiting recorded)
                ∙ recorded,
            subst (λ s. IsOrdered definition.steps s) (sym stored.states)
                (loop-IsOrdered supply old.id definition.steps at_start c.1 keyed_steps keyed ran
                  (mark-IsOrdered definition.steps step_id error old.step_states queued ordered)),
            subst (λ s. IsExhausted definition.steps s) (sym stored.states)
                (loop-IsExhausted supply old.id definition.steps at_start c.1 keyed_steps keyed
                  ran),
            stored.status_is
                ∙ ap (λ s. if all_done s then InstanceStatus.completed else InstanceStatus.running)
                    (sym stored.states),
            stored.kept,
          )

  -- A failed step fails the instance, queues nothing and changes no job, and no later call changes
  -- the instance or queues anything.
  pub failure_is_final :
      advance supply instance_id step_id Outcome.failed error k ≡ (ok (new, new_jobs), k')
      → (new.status ≡ InstanceStatus.failed)
        × (new_jobs ≡ [])
        × (k'.jobs ≡ k.jobs)
        × ((later : Supply) (step : String) (outcome : Outcome) (message : Option String)
            → advance later old.id step outcome message k' ≡ (ok (new, []), k'))
  unfolding advance
  failure_is_final h =
      let (_, rows, stored) =
        store_stores supply old.id InstanceStatus.failed
          (ok tt, record { states = marked; new_jobs = []; jobs = k.jobs; drawn = k.drawn }) k k'
          new new_jobs f in
      (
        stored.status_is,
        stored.jobs,
        rows,
        λ later step outcome message. rw (stored.kept, stored.status_is) refl,
      )
    where
      marked : StepStates
      marked = mark_step step_id Outcome.failed error old.step_states

      f :
          store_states supply old.id InstanceStatus.failed
            (ok tt, record { states = marked; new_jobs = []; jobs = k.jobs; drawn = k.drawn })
            k
          ≡ (ok (new, new_jobs), k')
      f = rw (found, runs, defined) at h
