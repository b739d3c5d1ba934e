-- ===== src/Dispatcher/Pool.antt =====
-- The worker pool (kernel/dispatcher.py) shrinks with every cancelled run, and never grows again.
use achilles.Prelude.{
  ℕ, zero, suc, ◌+◌, ◌≤◌, String, ◌≡◌, refl, true, Option, none, some, List, [], ◌∷◌, arith, length,
  get_elem?, set, Result, ok, raised, inl, inr, ltb, Bool-cases,
}
use achilles.Jobs.{JobRecord}
use achilles.Runs
use achilles.Runs.{RunRecord}
use achilles.Dispatcher.{
  Worker, JobDispatcher, task_of, after_create, submit, begin_run, take_next, worker_get, Answer,
  executor_ends, cancel_arrives, cancelled_worker, cancel_task, cancel_found, cancel, Step, Reach,
}

abbrev pub live : Worker → ℕ
live Worker.dead = 0
live _ = 1

-- How many workers of the pool still run their loop.
abbrev pub alive : List Worker → ℕ
alive [] = 0
alive (w ∷ ws) = live w + alive ws

pub alive-set :
    (ws : List Worker) (w : ℕ) (old new : Worker)
    → get_elem? ws w ≡ some old
    → alive (set ws w new) + live old ≡ alive ws + live new
alive-set [] w old new h = cc
alive-set (x ∷ ws) zero old new h = ground arith
alive-set (x ∷ ws) (suc w) old new h = omega (arith, alive-set ws w old new h)

pub get_elem?-set_self :
    (ws : List Worker) (w : ℕ) (old new : Worker)
    → get_elem? ws w ≡ some old
    → get_elem? (set ws w new) w ≡ some new
get_elem?-set_self [] w old new h = cc
get_elem?-set_self (x ∷ ws) zero old new h = refl
get_elem?-set_self (x ∷ ws) (suc w) old new h = get_elem?-set_self ws w old new h

-- `d'` has no more live workers than `d`.
abbrev NoMore : JobDispatcher → JobDispatcher → Type 0
NoMore d d' = alive d'.workers ≤ alive d.workers

submit_workers :
    (d : JobDispatcher) (run_id : String) (created_at run_at job_at : ℕ) (job : JobRecord)
    → (submit run_id created_at run_at job_at job d).1.workers ≡ d.workers
unfolding submit
submit_workers d run_id created_at run_at job_at job = go (
    Runs.create run_id created_at job.id (Runs.next_attempt job.id d.runs) job.request job.metadata
      d.runs)
  where
    go :
        (c : Result (RunRecord × Runs.Rows))
        → (after_create run_at job_at job d c).1.workers ≡ d.workers
    go (raised e) = refl
    go (ok (run, rows)) = elim (Bool-cases (ltb (length d.queue) d.queue_max)) [
      | inl e ↦ rw e
      | inr e ↦ rw e
    ]

begin_shrinks :
    (run_at job_at w : ℕ) (run_id : String) (job : JobRecord) (found : Option RunRecord)
    (d : JobDispatcher)
    → get_elem? d.workers w ≡ some Worker.idle
    → NoMore d (begin_run run_at job_at w run_id job found d)
unfolding begin_run
begin_shrinks run_at job_at w run_id job none d h = omega arith
begin_shrinks run_at job_at w run_id job (some run) d h =
    omega (arith, alive-set d.workers w Worker.idle (Worker.executing run_id job) h)

take_shrinks :
    (run_at job_at w : ℕ) (q : List (String × JobRecord)) (d : JobDispatcher)
    → get_elem? d.workers w ≡ some Worker.idle
    → NoMore d (take_next run_at job_at w q d)
unfolding take_next
take_shrinks run_at job_at w [] d h = omega arith
take_shrinks run_at job_at w ((run_id, job) ∷ rest) d h =
    begin_shrinks run_at job_at w run_id job (Runs.get run_id d.runs) (record d { queue = rest }) h

get_shrinks :
    (d : JobDispatcher) (run_at job_at w : ℕ) (x : Option Worker)
    → get_elem? d.workers w ≡ x
    → NoMore d (worker_get run_at job_at w x d)
unfolding worker_get
get_shrinks d run_at job_at w (some Worker.idle) h = take_shrinks run_at job_at w d.queue d h
get_shrinks d run_at job_at w (some (Worker.executing run_id job)) h = omega arith
get_shrinks d run_at job_at w (some (Worker.cancelling run_id job)) h = omega arith
get_shrinks d run_at job_at w (some Worker.dead) h = omega arith
get_shrinks d run_at job_at w none h = omega arith

ends_shrinks :
    (d : JobDispatcher) (run_at job_at w : ℕ) (a : Answer) (x : Option Worker)
    → get_elem? d.workers w ≡ x
    → NoMore d (executor_ends run_at job_at w a x d)
unfolding executor_ends
ends_shrinks d run_at job_at w a (some (Worker.executing run_id job)) h =
    omega (arith, alive-set d.workers w (Worker.executing run_id job) Worker.idle h)
ends_shrinks d run_at job_at w a (some Worker.idle) h = omega arith
ends_shrinks d run_at job_at w a (some (Worker.cancelling run_id job)) h = omega arith
ends_shrinks d run_at job_at w a (some Worker.dead) h = omega arith
ends_shrinks d run_at job_at w a none h = omega arith

arrives_shrinks :
    (d : JobDispatcher) (run_at job_at w : ℕ) (x : Option Worker)
    → get_elem? d.workers w ≡ x
    → NoMore d (cancel_arrives run_at job_at w x d)
unfolding cancel_arrives
arrives_shrinks d run_at job_at w (some (Worker.cancelling run_id job)) h =
    omega (arith, alive-set d.workers w (Worker.cancelling run_id job) Worker.dead h)
arrives_shrinks d run_at job_at w (some Worker.idle) h = omega arith
arrives_shrinks d run_at job_at w (some (Worker.executing run_id job)) h = omega arith
arrives_shrinks d run_at job_at w (some Worker.dead) h = omega arith
arrives_shrinks d run_at job_at w none h = omega arith

live-cancelled_worker : (x : Worker) → live (cancelled_worker x) ≡ live x
unfolding cancelled_worker
live-cancelled_worker (Worker.executing run_id job) = refl
live-cancelled_worker _ = refl

cancel_shrinks : (d : JobDispatcher) (found : Option ℕ) → NoMore d (cancel_found found d).1
unfolding cancel_found
cancel_shrinks d none = omega arith
cancel_shrinks d (some w) = go (get_elem? d.workers w) refl
  where
    go : (x : Option Worker) → get_elem? d.workers w ≡ x → NoMore d (cancel_task w x d)
    go none h = omega arith
    go (some x) h =
        omega (arith, alive-set d.workers w x (cancelled_worker x) h, live-cancelled_worker x)

Step-shrinks : {d d' : JobDispatcher} → Step d d' → NoMore d d'
unfolding cancel
Step-shrinks (Step.submits d run_id created_at run_at job_at job) = rw submit_workers (omega arith)
Step-shrinks (Step.gets d run_at job_at w) =
    get_shrinks d run_at job_at w (get_elem? d.workers w) refl
Step-shrinks (Step.ends d run_at job_at w a) =
    ends_shrinks d run_at job_at w a (get_elem? d.workers w) refl
Step-shrinks (Step.arrives d run_at job_at w) =
    arrives_shrinks d run_at job_at w (get_elem? d.workers w) refl
Step-shrinks (Step.cancels d job_id) = cancel_shrinks d (task_of job_id d.active_tasks)

-- Whatever happens, the number of live workers never grows: nothing replaces a worker that ended.
pub pool_never_grows : {d d' : JobDispatcher} → Reach d d' → alive d'.workers ≤ alive d.workers
pool_never_grows Reach.here = omega arith
pool_never_grows (Reach.next reach step) = omega (arith, pool_never_grows reach, Step-shrinks step)

-- Cancelling the job that a worker executes ends that worker for good: once the CancelledError has
-- arrived, the pool has one live worker fewer, and the worker is dead.
pub cancel_costs_worker :
    (d : JobDispatcher) (run_at job_at w : ℕ) (run_id : String) (job : JobRecord)
    → task_of job.id d.active_tasks ≡ some w
    → get_elem? d.workers w ≡ some (Worker.executing run_id job)
    → let d' = (cancel job.id d).1 in
      let after = cancel_arrives run_at job_at w (get_elem? d'.workers w) d' in
      ((cancel job.id d).0 ≡ true)
      × (alive after.workers + 1 ≡ alive d.workers)
      × (get_elem? after.workers w ≡ some Worker.dead)
unfolding cancel cancel_arrives
cancel_costs_worker d run_at job_at w run_id job task h =
    let was : Worker = Worker.executing run_id job in
    let told : Worker = Worker.cancelling run_id job in
    let mid = get_elem?-set_self d.workers w was told h in
    rw (task, cancel_found, h, cancel_task, mid)
      (
        refl,
        omega (
          arith,
          alive-set d.workers w was told h,
          alive-set (set d.workers w told) w told Worker.dead mid,
        ),
        get_elem?-set_self (set d.workers w told) w told Worker.dead mid,
      )
