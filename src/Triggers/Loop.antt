-- ===== src/Triggers/Loop.antt =====
-- The polling task of TriggerScheduler (src/sovereign_ai/kernel/trigger_scheduler.py): start, shutdown and
-- _loop. How long it sleeps between two polls shows in the clock's readings only.
use achilles.Prelude.{ℕ, zero, suc, Bool, true, false, Result, none, Supply}
use achilles.Jobs.{JobRecord}
use achilles.Triggers.Scheduler.{TriggerScheduler, tick}

-- Whether `self._task` is set.
abbrev pub start : Bool → Bool
start has_task = true

abbrev pub shutdown : Bool → Bool
shutdown has_task = false

module _ {D : Type 0} (supply : Supply)
    (submit_callback : JobRecord → D → Result (Unit {0}) × D) where
  -- One poll; what it raises is logged.
  abbrev pub poll : TriggerScheduler D → TriggerScheduler D
  poll s = (tick supply submit_callback none s).1

  unfoldable pub loop : ℕ → TriggerScheduler D → TriggerScheduler D
  loop zero s = s
  loop (suc polls) s = loop polls (poll s)
