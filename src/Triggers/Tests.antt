-- ===== src/Triggers/Tests.antt =====
-- Runs and witnesses for the triggers.
use achilles.Prelude.{
  ◌≡◌, refl, true, false, none, some, List, [], ◌∷◌, Result, ok, raised, value_error, Supply,
}
use achilles.Jobs
use achilles.Jobs.{JobRecord}
use achilles.Prelude.Order.{insertion_sort}
use achilles.Json
use achilles.Table
use achilles.Triggers
use achilles.Triggers.{RecurringTriggerRecord}
use achilles.Triggers.Scheduler.{TriggerScheduler, tick}
use achilles.Workflows.Definitions
use achilles.Workflows.Definitions.{WorkflowDefinitionRecord}
use achilles.Workflows.Dag.{WorkflowStep}
use achilles.Workflows.Instances
use achilles.Workflows.Service
use achilles.Workflows.Service.{Kernel}

abbrev supply : Supply
supply = record { uuid = λ n. "u0"; clock = λ n. n }

abbrev fetch_step : WorkflowStep
fetch_step = record {
  id = "fetch";
  job_kind = Jobs.chat;
  request_template = Json.end;
  depends_on = [];
}

abbrev definition : WorkflowDefinitionRecord
definition = record {
  id = "d1";
  name = "daily";
  version = 1;
  steps = fetch_step ∷ [];
  created_at = 0;
}

abbrev hourly : RecurringTriggerRecord
hourly = record {
  id = "t1";
  workflow_definition_id = "d1";
  interval_seconds = 3600;
  enabled = true;
  next_run_at = 3600;
  last_run_at = none;
  created_at = 0;
}

-- Its definition does not exist.
abbrev orphan : RecurringTriggerRecord
orphan = record hourly { id = "t2"; workflow_definition_id = "d2"; next_run_at = 10 }

abbrev scheduler : TriggerScheduler (List JobRecord)
scheduler = record {
  triggers = hourly ∷ orphan ∷ [];
  kernel = record { definitions = definition ∷ []; instances = []; jobs = []; drawn = 0 };
  dispatcher = [];
  submitted = [];
}

abbrev submit : JobRecord → List JobRecord → Result (Unit {0}) × List JobRecord
submit job queue = (ok tt, job ∷ queue)

abbrev hourly_after : RecurringTriggerRecord
hourly_after = record hourly { next_run_at = 7300; last_run_at = some 3700 }

zero_interval_is_refused : Triggers.create "t3" 5 "d1" 0 true [] ≡ (raised value_error)
unfolding Triggers.create
zero_interval_is_refused = refl

triggers_after_poll :
    (tick supply submit (some 3700) scheduler).1.triggers
    ≡ hourly_after ∷ record orphan { enabled = false } ∷ []
unfolding tick Triggers.due Triggers.mark_ran Triggers.set_enabled Service.start Definitions.get
    Instances.create Instances.update Instances.get Jobs.create Table.select Table.exists Table.find
    Table.add Table.update Table.upsert insertion_sort
triggers_after_poll = refl

abbrev after_poll : TriggerScheduler (List JobRecord)
after_poll = (tick supply submit (some 3700) scheduler).1

-- Without a `now` the clock is read for `due`, and again for the `mark_ran`.
poll_reads_clock :
    (tick supply submit none
      (record scheduler { triggers = record hourly { next_run_at = 0 } ∷ [] })).1.triggers
    ≡ record hourly { next_run_at = 3604; last_run_at = some 4 } ∷ []
unfolding tick Triggers.due Triggers.mark_ran Triggers.set_enabled Service.start Definitions.get
    Instances.create Instances.update Instances.get Jobs.create Table.select Table.exists Table.find
    Table.add Table.update Table.upsert insertion_sort
poll_reads_clock = refl
