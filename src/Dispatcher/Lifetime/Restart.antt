-- ===== src/Dispatcher/Lifetime/Restart.antt =====
-- What a shutdown closes, and what a start after it finds (kernel/dispatcher.py).
use Prim.Native.Nat.{max}
use achilles.Prelude.{
  ℕ, zero, suc, String, ◌≡◌, refl, ◌∙◌, true, ◌==◌, eq_refl, none, some, List, [], ◌∷◌, arith,
  Bool-cases, inl, inr, ◌⊎◌, if◌then◌else◌,
}
use achilles.Jobs.{JobStatus, JobRecord, Outcome}
use achilles.Runs
use achilles.Runs.{RunRecord}
use achilles.Table.Laws
use achilles.Dispatcher.{Worker, JobDispatcher, close_run}
use achilles.Dispatcher.Pool.{alive}
use achilles.Dispatcher.Lifetime.{idle_workers, start, cancel_from, shutdown}

-- The worker has the run in its hands.
abbrev pub Holds : String → Worker → Type 0
Holds run_id Worker.idle = ⊥
Holds run_id Worker.dead = ⊥
Holds run_id (Worker.executing k job) = k ≡ run_id
Holds run_id (Worker.cancelling k job) = k ≡ run_id

-- One of the workers holds the run.
abbrev pub IsHeld : String → List Worker → Type 0
IsHeld run_id [] = ⊥
IsHeld run_id (w ∷ ws) = Holds run_id w ⊎ IsHeld run_id ws

abbrev pub IsThere : String → JobDispatcher → Type 0
IsThere run_id d = (r : RunRecord) × (Runs.get run_id d.runs ≡ some r)

abbrev pub IsCancelled : String → JobDispatcher → Type 0
IsCancelled run_id d =
    (r : RunRecord) × (Runs.get run_id d.runs ≡ some r)
    × (r.status ≡ JobStatus.cancelled)
    × (r.error ≡ some "cancelled by user")

abbrev closed : (run_at job_at w : ℕ) (k : String) (job : JobRecord) → JobDispatcher → JobDispatcher
closed run_at job_at w k job d =
    close_run run_at job_at w k job Outcome.cancelled none (some "cancelled by user") Worker.dead d

module _ (run_at job_at w : ℕ) (k : String) (job : JobRecord) (run_id : String)
    (d : JobDispatcher) where
  get-closed :
      Runs.get run_id (closed run_at job_at w k job d).runs
      ≡ Laws.updated
          (λ r. r.id == k)
          (Runs.close run_at Outcome.cancelled none (some "cancelled by user"))
          (Runs.get run_id d.runs)
  unfolding close_run Runs.finish Runs.get
  get-closed = Laws.find-update Runs.key (λ r. r.id == k) _ (λ r. refl) run_id d.runs

  closed-IsThere : IsThere run_id d → IsThere run_id (closed run_at job_at w k job d)
  closed-IsThere (r, found) = (
    (if r.id == k
        then Runs.close run_at Outcome.cancelled none (some "cancelled by user") r
        else r),
    get-closed ∙ rw found refl,
  )

  closed-IsCancelled : IsCancelled run_id d → IsCancelled run_id (closed run_at job_at w k job d)
  closed-IsCancelled (r, found, status, error) = elim (Bool-cases (r.id == k)) [
    | inl same ↦ (
      Runs.close run_at Outcome.cancelled none (some "cancelled by user") r,
      get-closed ∙ rw (found, same) refl,
      refl,
      refl,
    )
    | inr other ↦ (r, get-closed ∙ rw (found, other) refl, status, error)
  ]

  close_held : k ≡ run_id → IsThere run_id d → IsCancelled run_id (closed run_at job_at w k job d)
  close_held e (r, found) =
      let at_key : r.id ≡ run_id =
        Laws.find-key Runs.key run_id d.runs r (unfold Runs.get in found) in
      let same : r.id == k ≡ true = rw (e, at_key) (eq_refl run_id) in
      (
        Runs.close run_at Outcome.cancelled none (some "cancelled by user") r,
        get-closed ∙ rw (found, same) refl,
        refl,
        refl,
      )

module _ (run_at job_at : ℕ → ℕ) (run_id : String) where
  from-IsCancelled :
      (w : ℕ) (ws : List Worker) (d : JobDispatcher)
      → IsCancelled run_id d
      → IsCancelled run_id (cancel_from run_at job_at w ws d)
  unfolding cancel_from
  from-IsCancelled w [] d h = h
  from-IsCancelled w (Worker.idle ∷ ws) d h = from-IsCancelled (suc w) ws d h
  from-IsCancelled w (Worker.dead ∷ ws) d h = from-IsCancelled (suc w) ws d h
  from-IsCancelled w (Worker.executing k job ∷ ws) d h =
      from-IsCancelled (suc w) ws _ (closed-IsCancelled (run_at w) (job_at w) w k job run_id d h)
  from-IsCancelled w (Worker.cancelling k job ∷ ws) d h =
      from-IsCancelled (suc w) ws _ (closed-IsCancelled (run_at w) (job_at w) w k job run_id d h)

  cancel_from-IsCancelled :
      (w : ℕ) (ws : List Worker) (d : JobDispatcher)
      → IsHeld run_id ws
      → IsThere run_id d
      → IsCancelled run_id (cancel_from run_at job_at w ws d)
  unfolding cancel_from
  cancel_from-IsCancelled w [] d h there = absurd h
  cancel_from-IsCancelled w (Worker.idle ∷ ws) d (inl h) there = absurd h
  cancel_from-IsCancelled w (Worker.idle ∷ ws) d (inr h) there =
      cancel_from-IsCancelled (suc w) ws d h there
  cancel_from-IsCancelled w (Worker.dead ∷ ws) d (inl h) there = absurd h
  cancel_from-IsCancelled w (Worker.dead ∷ ws) d (inr h) there =
      cancel_from-IsCancelled (suc w) ws d h there
  cancel_from-IsCancelled w (Worker.executing k job ∷ ws) d (inl h) there =
      from-IsCancelled (suc w) ws _ (close_held (run_at w) (job_at w) w k job run_id d h there)
  cancel_from-IsCancelled w (Worker.executing k job ∷ ws) d (inr h) there =
      cancel_from-IsCancelled (suc w) ws _ h
        (closed-IsThere (run_at w) (job_at w) w k job run_id d there)
  cancel_from-IsCancelled w (Worker.cancelling k job ∷ ws) d (inl h) there =
      from-IsCancelled (suc w) ws _ (close_held (run_at w) (job_at w) w k job run_id d h there)
  cancel_from-IsCancelled w (Worker.cancelling k job ∷ ws) d (inr h) there =
      cancel_from-IsCancelled (suc w) ws _ h
        (closed-IsThere (run_at w) (job_at w) w k job run_id d there)

cancel_from_queue :
    (run_at job_at : ℕ → ℕ) (w : ℕ) (ws : List Worker) (d : JobDispatcher)
    → (cancel_from run_at job_at w ws d).queue ≡ d.queue
unfolding cancel_from close_run
cancel_from_queue run_at job_at w [] d = refl
cancel_from_queue run_at job_at w (Worker.idle ∷ ws) d =
    cancel_from_queue run_at job_at (suc w) ws d
cancel_from_queue run_at job_at w (Worker.dead ∷ ws) d =
    cancel_from_queue run_at job_at (suc w) ws d
cancel_from_queue run_at job_at w (Worker.executing k job ∷ ws) d =
    cancel_from_queue run_at job_at (suc w) ws _
cancel_from_queue run_at job_at w (Worker.cancelling k job ∷ ws) d =
    cancel_from_queue run_at job_at (suc w) ws _

alive-idle : (n : ℕ) → alive (idle_workers n) ≡ n
alive-idle zero = refl
alive-idle (suc n) = omega (arith, alive-idle n)

-- A shutdown records each run that a worker holds, and that has a row, as cancelled by the user. A start
-- after it finds the queue as it was, and has all its workers alive, none of them busy.
pub restart_revives :
    (run_at job_at : ℕ → ℕ) (n : ℕ) (d : JobDispatcher)
    → let d' = start n (shutdown run_at job_at d) in
      (alive d'.workers ≡ max 1 n)
      × (d'.active_tasks ≡ [])
      × (d'.queue ≡ d.queue)
      × ((run_id : String) → IsHeld run_id d.workers → IsThere run_id d → IsCancelled run_id d')
unfolding start shutdown
restart_revives run_at job_at n d = (
  alive-idle (max 1 n),
  refl,
  cancel_from_queue run_at job_at 0 d.workers d,
  λ run_id held there. cancel_from-IsCancelled run_at job_at run_id 0 d.workers d held there,
)
