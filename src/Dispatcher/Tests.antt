-- ===== src/Dispatcher/Tests.antt =====
-- Runs and witnesses for the dispatcher: a pool of one worker, whose first job is cancelled.
use achilles.Prelude.{
  String, ◌≡◌, ◌≤◌, ◌+◌, refl, true, false, some, none, [], ◌∷◌, ok, arith, length, get_elem?,
}
use achilles.Json
use achilles.Table
use achilles.Jobs
use achilles.Jobs.{JobRecord, JobKind, JobStatus}
use achilles.Runs
use achilles.Dispatcher.{
  Worker, JobDispatcher, Answer, submit, worker_get, cancel, cancel_arrives, executor_ends, task_of,
  Step, Reach,
}
use achilles.Dispatcher.Lifetime
use achilles.Dispatcher.Lifetime.Restart.{IsHeld, IsThere, IsCancelled, restart_revives}
use achilles.Dispatcher.Pool.{alive, cancel_costs_worker}
use achilles.Dispatcher.Queue.{queue_bounded}
use achilles.Dispatcher.Stall.{StillWaits, stalled_for_ever}

abbrev job : JobRecord
job = record {
  id = "j1";
  kind = JobKind.agent;
  status = JobStatus.queued;
  request = Json.end;
  result = none;
  error = none;
  cancellation_requested = false;
  created_at = 1;
  updated_at = 1;
  started_at = none;
  finished_at = none;
  metadata = Json.end;
}

abbrev start : JobDispatcher
start = record {
  jobs = job ∷ [];
  runs = [];
  queue = [];
  queue_max = 1;
  active_tasks = [];
  workers = Worker.idle ∷ [];
}

abbrev run : Runs.RunRecord
run = Runs.fresh_run "r1" 2 "j1" 1 Json.end Json.end

abbrev waiting : JobDispatcher
waiting = record start { runs = run ∷ []; queue = ("r1", job) ∷ [] }

submit_runs : submit "r1" 2 3 4 job start ≡ (ok run, waiting)
unfolding submit Runs.create Runs.next_attempt Table.exists Table.add Table.find Table.maximum
submit_runs = refl

abbrev busy : JobDispatcher
busy = record start {
  jobs = Jobs.run_now 6 job ∷ [];
  runs = Runs.run_now 5 run ∷ [];
  active_tasks = ("j1", 0) ∷ [];
  workers = Worker.executing "r1" job ∷ [];
}

worker_get_runs : worker_get 5 6 0 (get_elem? waiting.workers 0) waiting ≡ busy
unfolding worker_get Runs.get Runs.mark_running Jobs.mark_running Table.find Table.update
worker_get_runs = refl

executor_ends_runs :
    (executor_ends 7 8 0 (Answer.returned Json.end) (get_elem? busy.workers 0) busy).workers
    ≡ Worker.idle ∷ []
unfolding executor_ends
executor_ends_runs = refl

cancel_costs_worker_example :
    let d' = (cancel "j1" busy).1 in
    let after = cancel_arrives 7 8 0 (get_elem? d'.workers 0) d' in
    ((cancel "j1" busy).0 ≡ true)
    × (alive after.workers + 1 ≡ alive busy.workers)
    × (get_elem? after.workers 0 ≡ some Worker.dead)
unfolding task_of
cancel_costs_worker_example = cancel_costs_worker busy 7 8 0 "r1" job refl refl

queue_bounded_example :
    length (submit "r1" 2 3 4 job start).1.queue ≤ (submit "r1" 2 3 4 job start).1.queue_max
queue_bounded_example =
    queue_bounded {d = start} (omega arith)
      (Reach.next Reach.here (Step.submits start "r1" 2 3 4 job))

abbrev dead : JobDispatcher
dead = record waiting { workers = Worker.dead ∷ [] }

stalled_for_ever_example : StillWaits dead (submit "r2" 9 9 9 job dead).1
stalled_for_ever_example =
    stalled_for_ever {d = dead} refl (Reach.next Reach.here (Step.submits dead "r2" 9 9 9 job))

abbrev restarted : JobDispatcher
restarted = Lifetime.start 2 (Lifetime.shutdown (λ w. 7) (λ w. 8) busy)

restart_runs : restarted.workers ≡ Worker.idle ∷ Worker.idle ∷ []
unfolding Lifetime.start Lifetime.shutdown
restart_runs = refl

restart_revives_example :
    (alive restarted.workers ≡ 2)
    × (restarted.active_tasks ≡ [])
    × (restarted.queue ≡ [])
    × ((run_id : String)
        → IsHeld run_id busy.workers
        → IsThere run_id busy
        → IsCancelled run_id restarted)
restart_revives_example = restart_revives (λ w. 7) (λ w. 8) 2 busy
