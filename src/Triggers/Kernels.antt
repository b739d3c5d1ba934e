-- ===== src/Triggers/Kernels.antt =====
-- What the starts of a poll write (src/sovereign_ai/kernel/trigger_scheduler.py), and what it is for a
-- trigger to be fired among them.
use achilles.Prelude.{
  ℕ, ◌+◌, String, ◌≡◌, ap, ◌∙◌, false, Option, some, List, ◌++◌, Result, ok, raised, value_error,
  Supply,
}
use mathlib.Core.List.{append_assoc}
use achilles.Jobs.{JobRecord}
use achilles.Triggers.{RecurringTriggerRecord, time_at}
use achilles.Triggers.Scheduler.{after_reading}
use achilles.Workflows.Instances.{WorkflowInstanceRecord}
use achilles.Workflows.Service
use achilles.Workflows.Service.{Kernel}

module _ (supply : Supply) (now : Option ℕ) where
  -- The tables of the workflows change by starts, and the clock is read.
  pub data Kernels (k : Kernel) : Kernel → Type 0 where
    here : Kernels k k
    reads : {m : Kernel} → Kernels k m → Kernels k (after_reading now m)
    starts :
        {m m' : Kernel} (definition_id : String)
        (answer : Result (WorkflowInstanceRecord × List JobRecord))
        → Kernels k m
        → Service.start supply definition_id m ≡ (answer, m')
        → Kernels k m'

  pub Kernels-trans : {k l m : Kernel} → Kernels k l → Kernels l m → Kernels k m
  Kernels-trans kl Kernels.here = kl
  Kernels-trans kl (Kernels.reads lm) = Kernels.reads (Kernels-trans kl lm)
  Kernels-trans kl (Kernels.starts d answer lm e) = Kernels.starts d answer (Kernels-trans kl lm) e

  -- A trigger that was fired between two states of the tables: its workflow was started and what the
  -- start wrote was kept, its jobs were submitted and it is put off by its interval, from `now` or the
  -- reading of the clock behind the start; or the start raised ValueError, and the trigger is disabled.
  pub data IsFired (first last : Kernel) (r new : RecurringTriggerRecord)
      (submitted : List JobRecord) : Type 0 where
    started :
        (k k' : Kernel) (instance' : WorkflowInstanceRecord) (jobs before after : List JobRecord)
        → Kernels first k
        → Service.start supply r.workflow_definition_id k ≡ (ok (instance', jobs), k')
        → Kernels k' last
        → submitted ≡ before ++ jobs ++ after
        → new ≡ record r {
          last_run_at = some (time_at now (supply.clock k'.drawn));
          next_run_at = time_at now (supply.clock k'.drawn) + r.interval_seconds;
        }
        → IsFired first last r new submitted
    disabled :
        (k k' : Kernel)
        → Kernels first k
        → Service.start supply r.workflow_definition_id k ≡ (raised value_error, k')
        → Kernels k' last
        → new ≡ record r { enabled = false }
        → IsFired first last r new submitted

  pub later_submissions :
      (k l m : Kernel) (r new : RecurringTriggerRecord) (jobs more : List JobRecord)
      → Kernels l m
      → IsFired k l r new jobs
      → IsFired k m r new (jobs ++ more)
  later_submissions first l m r new submitted more lm
        (IsFired.started k k' instance' jobs before after c e d f g) =
      IsFired.started k k' instance' jobs before (after ++ more) c e (Kernels-trans d lm)
        (ap (λ l. l ++ more) f ∙ append_assoc (before ++ jobs) after more) g
  later_submissions first l m r new submitted more lm (IsFired.disabled k k' c e d g) =
      IsFired.disabled k k' c e (Kernels-trans d lm) g

  pub earlier_starts :
      (j k l : Kernel) (r new : RecurringTriggerRecord) (jobs : List JobRecord)
      → Kernels j k
      → IsFired k l r new jobs
      → IsFired j l r new jobs
  earlier_starts j first l r new submitted jk
        (IsFired.started k k' instance' jobs before after c e d f g) =
      IsFired.started k k' instance' jobs before after (Kernels-trans jk c) e d f g
  earlier_starts j first l r new submitted jk (IsFired.disabled k k' c e d g) =
      IsFired.disabled k k' (Kernels-trans jk c) e d g
