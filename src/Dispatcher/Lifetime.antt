-- ===== src/Dispatcher/Lifetime.antt =====
-- The start and the end of the pool (JobDispatcher.start and shutdown, kernel/dispatcher.py). An executor
-- lets the CancelledError through.
pub mod Restart
use Prim.Native.Nat.{max}
use achilles.Prelude.{ℕ, zero, suc, List, [], ◌∷◌, none, some}
use achilles.Jobs.{Outcome}
use achilles.Dispatcher.{Worker, JobDispatcher, close_run}

-- [create_task(...) for i in range(n)]
abbrev pub idle_workers : ℕ → List Worker
idle_workers zero = []
idle_workers (suc n) = Worker.idle ∷ idle_workers n

abbrev pub pool_of : ℕ → List Worker → List Worker
pool_of max_concurrency [] = idle_workers (max 1 max_concurrency)
pool_of max_concurrency (w ∷ ws) = w ∷ ws

-- A pool that has workers is left alone, whether or not they are alive.
unfoldable pub start : (max_concurrency : ℕ) → JobDispatcher → JobDispatcher
start max_concurrency d = record d { workers = pool_of max_concurrency d.workers }

module _ (run_at job_at : ℕ → ℕ) where
  -- The CancelledError arrives in the workers from `w` on.
  unfoldable pub cancel_from : (w : ℕ) → List Worker → JobDispatcher → JobDispatcher
  unfolding close_run
  cancel_from w [] d = d
  cancel_from w (Worker.idle ∷ ws) d = cancel_from (suc w) ws d
  cancel_from w (Worker.dead ∷ ws) d = cancel_from (suc w) ws d
  cancel_from w (Worker.executing run_id job ∷ ws) d = cancel_from (suc w) ws (
      close_run (run_at w) (job_at w) w run_id job Outcome.cancelled none (some "cancelled by user")
        Worker.dead d)
  cancel_from w (Worker.cancelling run_id job ∷ ws) d = cancel_from (suc w) ws (
      close_run (run_at w) (job_at w) w run_id job Outcome.cancelled none (some "cancelled by user")
        Worker.dead d)

  unfoldable pub shutdown : JobDispatcher → JobDispatcher
  unfolding cancel_from
  shutdown d = record (cancel_from 0 d.workers d) { workers = []; active_tasks = [] }
