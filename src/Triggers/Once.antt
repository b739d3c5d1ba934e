-- ===== src/Triggers/Once.antt =====
-- A poll fires each trigger that is due, and no other (kernel/triggers.py and
-- trigger_scheduler.py).
use achilles.Prelude.{ℕ, String, ◌≡◌, Option, some, List, ◌++◌, Result, Supply}
use achilles.Jobs.{JobRecord}
use achilles.Table
use achilles.Table.Found
use achilles.Table.Laws
use achilles.Triggers
use achilles.Triggers.{RecurringTriggerRecord, Rows}
use achilles.Triggers.Kernels.{Kernels, IsFired}
use achilles.Triggers.Scheduler.{TriggerScheduler}
use achilles.Workflows.Service
use achilles.Workflows.Service.{Kernel}

module _ {D : Type 0} (supply : Supply) (submit_callback : JobRecord → D → Result (Unit {0}) × D)
    (now : Option ℕ) where
  abbrev Submission : Type 0
  Submission = Result (Unit {0}) × TriggerScheduler D

  -- One round leaves the other triggers alone, and what was submitted.
  abbrev Aside : String → TriggerScheduler D → TriggerScheduler D → Type 0
  Aside k s s' =
      (Triggers.get k s'.triggers ≡ Triggers.get k s.triggers)
      × Kernels supply now s.kernel s'.kernel
      × (more : List JobRecord) × (s'.submitted ≡ s.submitted ++ more)

  -- What has been fired so far.
  abbrev FiredIn : Kernel → String → RecurringTriggerRecord → TriggerScheduler D → Type 0
  FiredIn first k r s =
      (new : RecurringTriggerRecord) × (Triggers.get k s.triggers ≡ some new)
      × IsFired supply now first s.kernel r new s.submitted
