-- ===== src/Dispatcher.antt =====
-- src/sovereign_ai/kernel/dispatcher.py: a fixed pool of workers over a bounded queue. What a worker
-- does between two awaits is one function; the executor's answer is an argument.
pub mod Lifetime
pub mod Pool
pub mod Queue
pub mod Stall
mod Tests
use achilles.Prelude.{
  ℕ, suc, String, Bool, true, false, Option, none, some, List, [], ◌∷◌, ◌++◌, ◌==◌, ltb,
  if◌then◌else◌, Result, ok, raised, runtime_error, length, get_elem?, set,
}
use achilles.Json.{Fields}
use achilles.Jobs
use achilles.Jobs.{JobRecord, Outcome}
use achilles.Runs
use achilles.Runs.{RunRecord}

-- A worker coroutine. `cancelling` is one whose task was cancelled while it awaited the executor;
-- the CancelledError is raised when it next runs. `dead` is one whose coroutine has ended.
pub data Worker : Type 0 where
  idle : Worker
  executing : String → JobRecord → Worker
  cancelling : String → JobRecord → Worker
  dead : Worker

pub record JobDispatcher : Type 0 where
  pub jobs : Jobs.Rows
  pub runs : Runs.Rows
  pub queue : List (String × JobRecord)
  pub queue_max : ℕ
  pub active_tasks : List (String × ℕ)
  pub workers : List Worker

-- self._active_tasks.get(job_id)
unfoldable pub task_of : String → List (String × ℕ) → Option ℕ
task_of job_id [] = none
task_of job_id ((k, w) ∷ tasks) = if k == job_id then some w else task_of job_id tasks

-- self._active_tasks.pop(job_id, None)
unfoldable pub drop_task : String → List (String × ℕ) → List (String × ℕ)
drop_task job_id [] = []
drop_task job_id ((k, w) ∷ tasks) =
    if k == job_id then drop_task job_id tasks else (k, w) ∷ drop_task job_id tasks

unfoldable pub put_task : String → ℕ → List (String × ℕ) → List (String × ℕ)
unfolding drop_task
put_task job_id w tasks = (job_id, w) ∷ drop_task job_id tasks

-- A fresh run, and three readings of the clock.
unfoldable pub enqueue :
    (run_at job_at : ℕ) → RunRecord → JobRecord → JobDispatcher → Result RunRecord × JobDispatcher
enqueue run_at job_at run job d =
    if ltb (length d.queue) d.queue_max
    then (ok run, record d { queue = d.queue ++ (run.id, job) ∷ [] })
    else (
      raised runtime_error,
      record d {
        runs =
            Runs.finish run_at run.id Outcome.failed none
              (some "dispatcher queue is full; try again shortly") d.runs;
        jobs =
            Jobs.finish job_at job.id Outcome.failed none
              (some "dispatcher queue is full; try again shortly") d.jobs;
      },
    )

unfoldable pub after_create :
    (run_at job_at : ℕ)
    → JobRecord
    → JobDispatcher
    → Result (RunRecord × Runs.Rows)
    → Result RunRecord × JobDispatcher
unfolding enqueue
after_create run_at job_at job d (raised e) = (raised e, d)
after_create run_at job_at job d (ok (run, rows)) =
    enqueue run_at job_at run job (record d { runs = rows })

unfoldable pub submit :
    (run_id : String) (created_at run_at job_at : ℕ)
    → JobRecord
    → JobDispatcher
    → Result RunRecord × JobDispatcher
unfolding after_create
submit run_id created_at run_at job_at job d = after_create run_at job_at job d (
    Runs.create run_id created_at job.id (Runs.next_attempt job.id d.runs) job.request job.metadata
      d.runs)

-- `_run_one` up to the await: a run that is gone is skipped.
unfoldable pub begin_run :
    (run_at job_at : ℕ) (w : ℕ)
    → String
    → JobRecord
    → Option RunRecord
    → JobDispatcher
    → JobDispatcher
unfolding put_task
begin_run run_at job_at w run_id job none d = d
begin_run run_at job_at w run_id job (some run) d = record d {
  runs = Runs.mark_running run_at run_id d.runs;
  jobs = Jobs.mark_running job_at job.id d.jobs;
  active_tasks = put_task job.id w d.active_tasks;
  workers = set d.workers w (Worker.executing run_id job);
}

unfoldable pub take_next :
    (run_at job_at : ℕ) (w : ℕ) → List (String × JobRecord) → JobDispatcher → JobDispatcher
unfolding begin_run
take_next run_at job_at w [] d = d
take_next run_at job_at w ((run_id, job) ∷ rest) d =
    begin_run run_at job_at w run_id job (Runs.get run_id d.runs) (record d { queue = rest })

-- `await self._queue.get()` in worker `w`, which waits while the queue is empty.
unfoldable pub worker_get :
    (run_at job_at : ℕ) (w : ℕ) → Option Worker → JobDispatcher → JobDispatcher
unfolding take_next
worker_get run_at job_at w (some Worker.idle) d = take_next run_at job_at w d.queue d
worker_get run_at job_at w _ d = d

-- What the executor's await ends with.
pub data Answer : Type 0 where
  returned : Fields → Answer
  threw : String → Answer

abbrev pub answer_outcome : Answer → Outcome
answer_outcome (Answer.returned result) = Outcome.succeeded
answer_outcome (Answer.threw error) = Outcome.failed

abbrev pub answer_result : Answer → Option Fields
answer_result (Answer.returned result) = some result
answer_result (Answer.threw error) = none

abbrev pub answer_error : Answer → Option String
answer_error (Answer.returned result) = none
answer_error (Answer.threw error) = some error

-- The rest of `_run_one`; the worker's loop goes on, or ends with the CancelledError.
unfoldable pub close_run :
    (run_at job_at : ℕ) (w : ℕ)
    → String
    → JobRecord
    → Outcome
    → Option Fields
    → Option String
    → Worker
    → JobDispatcher
    → JobDispatcher
unfolding drop_task
close_run run_at job_at w run_id job outcome result error then_worker d = record d {
  runs = Runs.finish run_at run_id outcome result error d.runs;
  jobs = Jobs.finish job_at job.id outcome result error d.jobs;
  active_tasks = drop_task job.id d.active_tasks;
  workers = set d.workers w then_worker;
}

unfoldable pub executor_ends :
    (run_at job_at : ℕ) (w : ℕ) → Answer → Option Worker → JobDispatcher → JobDispatcher
unfolding close_run
executor_ends run_at job_at w a (some (Worker.executing run_id job)) d =
    close_run run_at job_at w run_id job (answer_outcome a) (answer_result a) (answer_error a)
      Worker.idle d
executor_ends run_at job_at w a _ d = d

-- The handler of CancelledError re-raises it, through `_worker_loop`.
unfoldable pub cancel_arrives :
    (run_at job_at : ℕ) (w : ℕ) → Option Worker → JobDispatcher → JobDispatcher
unfolding close_run
cancel_arrives run_at job_at w (some (Worker.cancelling run_id job)) d =
    close_run run_at job_at w run_id job Outcome.cancelled none (some "cancelled by user")
      Worker.dead d
cancel_arrives run_at job_at w _ d = d

-- task.cancel(): only a task that is not done takes it.
unfoldable pub cancelled_worker : Worker → Worker
cancelled_worker (Worker.executing run_id job) = Worker.cancelling run_id job
cancelled_worker other = other

unfoldable pub cancel_task : ℕ → Option Worker → JobDispatcher → JobDispatcher
unfolding cancelled_worker
cancel_task w none d = d
cancel_task w (some worker) d = record d { workers = set d.workers w (cancelled_worker worker) }

unfoldable pub cancel_found : Option ℕ → JobDispatcher → Bool × JobDispatcher
unfolding cancel_task
cancel_found none d = (false, d)
cancel_found (some w) d = (true, cancel_task w (get_elem? d.workers w) d)

unfoldable pub cancel : String → JobDispatcher → Bool × JobDispatcher
unfolding cancel_found
cancel job_id d = cancel_found (task_of job_id d.active_tasks) d

-- One turn of the event loop.
pub data Step : JobDispatcher → JobDispatcher → Type 0 where
  submits :
      (d : JobDispatcher) (run_id : String) (created_at run_at job_at : ℕ) (job : JobRecord)
      → Step d (submit run_id created_at run_at job_at job d).1
  gets :
      (d : JobDispatcher) (run_at job_at w : ℕ)
      → Step d (worker_get run_at job_at w (get_elem? d.workers w) d)
  ends :
      (d : JobDispatcher) (run_at job_at w : ℕ) (a : Answer)
      → Step d (executor_ends run_at job_at w a (get_elem? d.workers w) d)
  arrives :
      (d : JobDispatcher) (run_at job_at w : ℕ)
      → Step d (cancel_arrives run_at job_at w (get_elem? d.workers w) d)
  cancels : (d : JobDispatcher) (job_id : String) → Step d (cancel job_id d).1

pub data Reach (d : JobDispatcher) : JobDispatcher → Type 0 where
  here : Reach d d
  next : {mid d' : JobDispatcher} → Reach d mid → Step mid d' → Reach d d'
