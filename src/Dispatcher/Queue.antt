-- ===== src/Dispatcher/Queue.antt =====
-- Admission to the queue, and cancelling what still waits in it (kernel/dispatcher.py).
use achilles.Prelude.{
  ℕ, ◌≤◌, String, ◌≡◌, refl, Bool, true, false, Option, none, some, List, [], ◌∷◌, ◌++◌, arith,
  length, length-append, get_elem?, Result, ok, raised, runtime_error, ◌==◌, eq_refl, inl, inr, ltb,
  Bool-cases,
}
use achilles.Jobs.{JobRecord, JobStatus, Outcome}
use achilles.Runs
use achilles.Runs.{RunRecord}
use achilles.Runs.Attempts.{next_attempt_creates}
use achilles.Table.Laws
use achilles.Jobs
use achilles.Dispatcher.{
  Worker, JobDispatcher, task_of, after_create, submit, begin_run, take_next, worker_get, Answer,
  executor_ends, cancel_arrives, cancel_task, cancel_found, cancel, Step, Reach,
}
use achilles.Dispatcher.Pool.{get_elem?-set_self}

abbrev Fits : JobDispatcher → Type 0
Fits d = length d.queue ≤ d.queue_max

after_create-Fits :
    (run_at job_at : ℕ) (job : JobRecord) (d : JobDispatcher) (c : Result (RunRecord × Runs.Rows))
    → Fits d
    → Fits (after_create run_at job_at job d c).1
unfolding after_create
after_create-Fits run_at job_at job d (raised e) h = h
after_create-Fits run_at job_at job d (ok (run, rows)) h =
    elim (Bool-cases (ltb (length d.queue) d.queue_max)) [
      | inl e ↦ rw e (ground (arith, length-append d.queue ((run.id, job) ∷ [])))
      | inr e ↦ rw e h
    ]

begin_run-Fits :
    (run_at job_at w : ℕ) (run_id : String) (job : JobRecord) (found : Option RunRecord)
    (d : JobDispatcher)
    → Fits d
    → Fits (begin_run run_at job_at w run_id job found d)
unfolding begin_run
begin_run-Fits run_at job_at w run_id job none d h = h
begin_run-Fits run_at job_at w run_id job (some run) d h = h

take_next-Fits :
    (run_at job_at w : ℕ) (q : List (String × JobRecord)) (d : JobDispatcher)
    → length q ≤ d.queue_max
    → Fits d
    → Fits (take_next run_at job_at w q d)
unfolding take_next
take_next-Fits run_at job_at w [] d h k = k
take_next-Fits run_at job_at w ((run_id, job) ∷ rest) d h k =
    begin_run-Fits run_at job_at w run_id job (Runs.get run_id d.runs) (record d { queue = rest })
      (omega arith)

worker_get-Fits :
    (d : JobDispatcher) (run_at job_at w : ℕ) (x : Option Worker)
    → Fits d
    → Fits (worker_get run_at job_at w x d)
unfolding worker_get
worker_get-Fits d run_at job_at w (some Worker.idle) h =
    take_next-Fits run_at job_at w d.queue d h h
worker_get-Fits d run_at job_at w (some (Worker.executing run_id job)) h = h
worker_get-Fits d run_at job_at w (some (Worker.cancelling run_id job)) h = h
worker_get-Fits d run_at job_at w (some Worker.dead) h = h
worker_get-Fits d run_at job_at w none h = h

executor_ends-Fits :
    (d : JobDispatcher) (run_at job_at w : ℕ) (a : Answer) (x : Option Worker)
    → Fits d
    → Fits (executor_ends run_at job_at w a x d)
unfolding executor_ends
executor_ends-Fits d run_at job_at w a (some (Worker.executing run_id job)) h = h
executor_ends-Fits d run_at job_at w a (some Worker.idle) h = h
executor_ends-Fits d run_at job_at w a (some (Worker.cancelling run_id job)) h = h
executor_ends-Fits d run_at job_at w a (some Worker.dead) h = h
executor_ends-Fits d run_at job_at w a none h = h

cancel_arrives-Fits :
    (d : JobDispatcher) (run_at job_at w : ℕ) (x : Option Worker)
    → Fits d
    → Fits (cancel_arrives run_at job_at w x d)
unfolding cancel_arrives
cancel_arrives-Fits d run_at job_at w (some (Worker.cancelling run_id job)) h = h
cancel_arrives-Fits d run_at job_at w (some Worker.idle) h = h
cancel_arrives-Fits d run_at job_at w (some (Worker.executing run_id job)) h = h
cancel_arrives-Fits d run_at job_at w (some Worker.dead) h = h
cancel_arrives-Fits d run_at job_at w none h = h

cancel-Fits : (d : JobDispatcher) (found : Option ℕ) → Fits d → Fits (cancel_found found d).1
unfolding cancel_found
cancel-Fits d none h = h
cancel-Fits d (some w) h = go (get_elem? d.workers w)
  where
    go : (x : Option Worker) → Fits (cancel_task w x d)
    go none = h
    go (some x) = h

Step-Fits : {d d' : JobDispatcher} → Step d d' → Fits d → Fits d'
unfolding submit cancel
Step-Fits (Step.submits d run_id created_at run_at job_at job) h =
    after_create-Fits run_at job_at job d
      (Runs.create run_id created_at job.id (Runs.next_attempt job.id d.runs) job.request
        job.metadata d.runs)
      h
Step-Fits (Step.gets d run_at job_at w) h =
    worker_get-Fits d run_at job_at w (get_elem? d.workers w) h
Step-Fits (Step.ends d run_at job_at w a) h =
    executor_ends-Fits d run_at job_at w a (get_elem? d.workers w) h
Step-Fits (Step.arrives d run_at job_at w) h =
    cancel_arrives-Fits d run_at job_at w (get_elem? d.workers w) h
Step-Fits (Step.cancels d job_id) h = cancel-Fits d (task_of job_id d.active_tasks) h

-- However submissions, workers and cancellations interleave, the queue never holds more than its
-- capacity.
pub queue_bounded :
    {d d' : JobDispatcher}
    → length d.queue ≤ d.queue_max
    → Reach d d'
    → length d'.queue ≤ d'.queue_max
queue_bounded h Reach.here = h
queue_bounded h (Reach.next reach step) = Step-Fits step (queue_bounded h reach)

abbrev queue_full : Option String
queue_full = some "dispatcher queue is full; try again shortly"

-- What `submit` promises of the new run, by whether there was room.
abbrev pub Submitted :
    ℕ → ℕ → JobDispatcher → RunRecord → JobRecord → Bool → Result RunRecord × JobDispatcher → Type 0
Submitted run_at job_at d run job true r =
    (r.0 ≡ ok run)
    × (r.1.queue ≡ d.queue ++ (run.id, job) ∷ [])
    × (Runs.get run.id r.1.runs ≡ some run)
    × (r.1.jobs ≡ d.jobs)
Submitted run_at job_at d run job false r =
    (r.0 ≡ raised runtime_error)
    × (r.1.queue ≡ d.queue)
    × (Runs.get run.id r.1.runs ≡ some (Runs.close run_at Outcome.failed none queue_full run))
    × (r.1.jobs ≡ Jobs.finish job_at job.id Outcome.failed none queue_full d.jobs)

get_last :
    (run : RunRecord) (rows : Runs.Rows)
    → Runs.get run.id rows ≡ none
    → Runs.get run.id (rows ++ run ∷ []) ≡ some run
unfolding Runs.get
get_last run rows fresh =
    rw (Laws.find-append Runs.key run.id rows run, fresh) (ground (arith, eq_refl run.id))

get-finish_last :
    (now : ℕ) (run : RunRecord) (rows : Runs.Rows)
    → Runs.get run.id rows ≡ none
    → Runs.get run.id (Runs.finish now run.id Outcome.failed none queue_full (rows ++ run ∷ []))
      ≡ some (Runs.close now Outcome.failed none queue_full run)
unfolding Runs.finish Runs.get
get-finish_last now run rows fresh =
    rw
      (
        Laws.find-update Runs.key (λ r. r.id == run.id)
            (Runs.close now Outcome.failed none queue_full) (λ r. refl) run.id (rows ++ run ∷ []),
        get_last run rows fresh,
      )
      (ground (arith, eq_refl run.id))

-- Under a fresh id `submit` stores the next attempt of the job. With room in the queue it is
-- enqueued and returned, and the job is left alone; with none, `submit` raises, the queue is left
-- alone, and the attempt and the job are recorded as failed.
pub submit-Submitted :
    (run_id : String) (created_at run_at job_at : ℕ) (job : JobRecord) (d : JobDispatcher)
    → Runs.get run_id d.runs ≡ none
    → Submitted run_at job_at d
        (Runs.fresh_run run_id created_at job.id
          (Runs.next_attempt job.id d.runs)
          job.request
          job.metadata)
        job
        (ltb (length d.queue) d.queue_max)
        (submit run_id created_at run_at job_at job d)
unfolding submit after_create
submit-Submitted run_id created_at run_at job_at job d fresh =
    rw ((next_attempt_creates run_id created_at job.id job.request job.metadata d.runs fresh).0)
      (elim (Bool-cases (ltb (length d.queue) d.queue_max)) [
        | inl e ↦ rw e (refl, refl, get_last run d.runs fresh, refl)
        | inr e ↦ rw e (refl, refl, get-finish_last run_at run d.runs fresh, refl)
      ])
  where
    run : RunRecord
    run =
        Runs.fresh_run run_id created_at job.id (Runs.next_attempt job.id d.runs) job.request
          job.metadata

-- Cancelling a job that waits in the queue has no effect on the dispatcher: the answer is False, and
-- the next idle worker executes the job all the same.
pub queued_cancel_ignored :
    (d : JobDispatcher) (run_at job_at w : ℕ) (run_id : String) (job : JobRecord)
    (rest : List (String × JobRecord)) (run : RunRecord)
    → task_of job.id d.active_tasks ≡ none
    → d.queue ≡ (run_id, job) ∷ rest
    → Runs.get run_id d.runs ≡ some run
    → get_elem? d.workers w ≡ some Worker.idle
    → let d' = (cancel job.id d).1 in
      ((cancel job.id d).0 ≡ false)
      × (get_elem? (worker_get run_at job_at w (get_elem? d'.workers w) d').workers w
          ≡ some (Worker.executing run_id job))
unfolding cancel worker_get
queued_cancel_ignored d run_at job_at w run_id job rest run no_task waiting found idle =
    rw (no_task, cancel_found, idle, waiting, take_next, found, begin_run)
      (refl, get_elem?-set_self d.workers w Worker.idle (Worker.executing run_id job) idle)
