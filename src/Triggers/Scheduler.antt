-- ===== src/Triggers/Scheduler.antt =====
-- TriggerScheduler.tick (src/sovereign_ai/kernel/trigger_scheduler.py): one poll. The callback that
-- submits a job to the dispatcher is a parameter, with a state of its own.
use achilles.Prelude.{
  ℕ, ◌+◌, String, false, Option, none, some, List, [], ◌∷◌, ◌++◌, Result, ok, raised, value_error,
  Supply,
}
use achilles.Jobs.{JobRecord}
use achilles.Triggers
use achilles.Triggers.{RecurringTriggerRecord}
use achilles.Workflows.Service
use achilles.Workflows.Service.{Kernel, Answer}

-- The tables, and the variables of the loop.
pub record TriggerScheduler (D : Type 0) : Type 0 where
  pub triggers : Triggers.Rows
  pub kernel : Kernel
  pub dispatcher : D
  pub submitted : List JobRecord

-- The clock is read where no `now` is given.
abbrev pub after_reading : Option ℕ → Kernel → Kernel
after_reading none k = record k { drawn = k.drawn + 1 }
after_reading (some now) k = k

module _ {D : Type 0} where
  abbrev pub and_then :
      Result (Unit {0}) × TriggerScheduler D
      → (TriggerScheduler D → Result (Unit {0}) × TriggerScheduler D)
      → Result (Unit {0}) × TriggerScheduler D
  and_then (raised e, s) next = (raised e, s)
  and_then (ok u, s) next = next s

  abbrev pub with_rows :
      TriggerScheduler D
      → Result (RecurringTriggerRecord × Triggers.Rows)
      → Result (Unit {0}) × TriggerScheduler D
  with_rows s (raised e) = (raised e, s)
  with_rows s (ok (trigger, rows)) = (ok tt, record s { triggers = rows })

  abbrev pub with_dispatcher :
      JobRecord
      → TriggerScheduler D
      → Result (Unit {0}) × D
      → Result (Unit {0}) × TriggerScheduler D
  with_dispatcher job s (raised e, d) = (raised e, record s { dispatcher = d })
  with_dispatcher job s (ok u, d) =
      (ok tt, record s { dispatcher = d; submitted = s.submitted ++ job ∷ [] })

module _ {D : Type 0} (supply : Supply)
    (submit_callback : JobRecord → D → Result (Unit {0}) × D) where
  -- `self._submit_callback(job); submitted.append(job)`, for each job
  unfoldable pub submit_all :
      List JobRecord → TriggerScheduler D → Result (Unit {0}) × TriggerScheduler D
  submit_all [] s = (ok tt, s)
  submit_all (job ∷ jobs) s =
      and_then (with_dispatcher job s (submit_callback job s.dispatcher)) (λ t. submit_all jobs t)

  -- `self.triggers.set_enabled(trigger.id, False)`
  unfoldable pub disable : String → TriggerScheduler D → Result (Unit {0}) × TriggerScheduler D
  disable trigger_id s = with_rows s (Triggers.set_enabled trigger_id false s.triggers)

  -- `self.triggers.mark_ran(trigger.id, now=now)`, and the submissions behind it
  unfoldable pub reschedule :
      Option ℕ
      → String
      → List JobRecord
      → TriggerScheduler D
      → Result (Unit {0}) × TriggerScheduler D
  unfolding submit_all
  reschedule now trigger_id jobs s =
      and_then
        (with_rows (record s { kernel = after_reading now s.kernel })
          (Triggers.mark_ran now (supply.clock s.kernel.drawn) trigger_id s.triggers))
        (λ t. submit_all jobs t)

  -- What follows `self.workflows.start`: only a ValueError is caught (`start` raises none of its
  -- subclasses).
  unfoldable pub after_start :
      Option ℕ → String → Answer → TriggerScheduler D → Result (Unit {0}) × TriggerScheduler D
  unfolding disable reschedule
  after_start now trigger_id (raised value_error, k) s =
      disable trigger_id (record s { kernel = k })
  after_start now trigger_id (raised e, k) s = (raised e, record s { kernel = k })
  after_start now trigger_id (ok (started, jobs), k) s =
      reschedule now trigger_id jobs (record s { kernel = k })

  -- One round of the loop over the triggers that are due.
  unfoldable pub fire :
      Option ℕ
      → RecurringTriggerRecord
      → TriggerScheduler D
      → Result (Unit {0}) × TriggerScheduler D
  unfolding after_start
  fire now trigger s =
      after_start now trigger.id (Service.start supply trigger.workflow_definition_id s.kernel) s

  unfoldable pub fire_all :
      Option ℕ → Triggers.Rows → TriggerScheduler D → Result (Unit {0}) × TriggerScheduler D
  unfolding fire
  fire_all now [] s = (ok tt, s)
  fire_all now (trigger ∷ triggers) s =
      and_then (fire now trigger s) (λ s'. fire_all now triggers s')

  -- A poll, at a given `now` or at its own readings of the clock: one for `due`, and one for each
  -- `mark_ran`.
  unfoldable pub tick : Option ℕ → TriggerScheduler D → Result (Unit {0}) × TriggerScheduler D
  unfolding fire_all
  tick now s =
      fire_all now (Triggers.due now (supply.clock s.kernel.drawn) s.triggers)
        (record s { kernel = after_reading now s.kernel; submitted = [] })
