-- ===== src/Dispatcher/Stall.antt =====
-- A dispatcher (kernel/dispatcher.py) whose workers have all ended accepts work and never does it.
use achilles.Prelude.{
  ℕ, zero, suc, ◌≤◌, String, ◌≡◌, refl, sym, ◌∙◌, false, Option, none, some, List, [], ◌∷◌, ◌++◌,
  arith, length, get_elem?, Result, ok, raised, inl, inr, ltb, Bool-cases, ◌==◌, eq_iff, ◌⊎◌,
}
use achilles.Jobs.{JobRecord, Outcome}
use achilles.Runs
use achilles.Runs.{RunRecord}
use achilles.Table
use achilles.Table.Laws
use achilles.Dispatcher.{
  Worker, JobDispatcher, task_of, enqueue, after_create, submit, worker_get, Answer, executor_ends,
  cancel_arrives, cancel_task, cancel_found, cancel, Step, Reach,
}
use achilles.Dispatcher.Pool.{alive, live, pool_never_grows}
use mathlib.Core.List.{append-nil, append_assoc}

live-le-alive :
    (ws : List Worker) (w : ℕ) (x : Worker) → get_elem? ws w ≡ some x → live x ≤ alive ws
live-le-alive [] w x h = cc
live-le-alive (y ∷ ws) zero x h = ground arith
live-le-alive (y ∷ ws) (suc w) x h = omega (arith, live-le-alive ws w x h)

-- Everything that waits in `d` still waits in `d'`, at the same place, as runs that have not begun.
pub record StillWaits (d d' : JobDispatcher) : Type 0 where
  pub extra : List (String × JobRecord)
  pub queue : d'.queue ≡ d.queue ++ extra
  pub runs : (k : String) (r : RunRecord) → Runs.get k d.runs ≡ some r → Runs.get k d'.runs ≡ some r

StillWaits-same : (d d' : JobDispatcher) → d'.queue ≡ d.queue → d'.runs ≡ d.runs → StillWaits d d'
StillWaits-same d d' q r = record {
  extra = [];
  queue = q ∙ sym (append-nil d.queue);
  runs = λ k x h. rw r h;
}

StillWaits-trans : {a b c : JobDispatcher} → StillWaits a b → StillWaits b c → StillWaits a c
StillWaits-trans {a} {b} {c} p q = record {
  extra = p.extra ++ q.extra;
  queue = q.queue ∙ rw (p.queue) (append_assoc a.queue p.extra q.extra);
  runs = λ k x h. q.runs k x (p.runs k x h);
}

create_keeps :
    (id : String) (now : ℕ) (job : JobRecord) (n : ℕ) (rows : Runs.Rows) (run : RunRecord)
    (rows' : Runs.Rows)
    → Runs.create id now job.id n job.request job.metadata rows ≡ ok (run, rows')
    → (k : String) (r : RunRecord) → Runs.get k rows ≡ some r
    → (Runs.get k rows' ≡ some r) × (run.id == k ≡ false)
unfolding Runs.create Runs.get
create_keeps id now job n rows run rows' h k r found =
    elim (Bool-cases (Table.exists (Runs.is_attempt job.id n) rows)) [
      | inl e ↦ cc (rw e at h)
      | inr e ↦ added (rw e at h)
    ]
  where
    added :
        Table.add Runs.key (Runs.fresh_run id now job.id n job.request job.metadata) rows
          ≡ ok (run, rows')
        → (Table.find Runs.key k rows' ≡ some r) × (run.id == k ≡ false)
    added a =
        let (new, _, same) = Laws.add_ok Runs.key _ run rows a in
        (Laws.find-add_old Runs.key _ run rows k r a found, ground (arith, eq_iff run.id k, same))

finish_keeps :
    (now : ℕ) (id : String) (outcome : Outcome) (error : Option String) (rows : Runs.Rows)
    (k : String) (r : RunRecord)
    → Runs.get k rows ≡ some r
    → id == k ≡ false
    → Runs.get k (Runs.finish now id outcome none error rows) ≡ some r
unfolding Runs.get Runs.finish
finish_keeps now id outcome error rows k r found ne =
    rw
      (
        Laws.find-update Runs.key (λ x. x.id == id) (Runs.close now outcome none error) (λ x. refl)
            k rows,
        found,
      )
      (ground (arith, eq_iff r.id id, eq_iff id k, Laws.find-key Runs.key k rows r found))

enqueue_waits :
    (run_at job_at : ℕ) (run : RunRecord) (job : JobRecord) (rows : Runs.Rows) (d : JobDispatcher)
    → ((k : String) (r : RunRecord)
        → Runs.get k d.runs ≡ some r
        → (Runs.get k rows ≡ some r) × (run.id == k ≡ false))
    → StillWaits d (enqueue run_at job_at run job (record d { runs = rows })).1
unfolding enqueue
enqueue_waits run_at job_at run job rows d kept =
    elim (Bool-cases (ltb (length d.queue) d.queue_max)) [
      | inl e ↦ rw e (record {
        extra = (run.id, job) ∷ [];
        queue = refl;
        runs = λ k r found. (kept k r found).0;
      })
      | inr e ↦ rw e (record {
        extra = [];
        queue = sym (append-nil d.queue);
        runs = λ k r found.
            finish_keeps run_at run.id Outcome.failed _ rows k r (kept k r found).0
              (kept k r found).1;
      })
    ]

submit_waits :
    (d : JobDispatcher) (run_id : String) (created_at run_at job_at : ℕ) (job : JobRecord)
    → StillWaits d (submit run_id created_at run_at job_at job d).1
unfolding submit
submit_waits d run_id created_at run_at job_at job =
    go
      (Runs.create run_id created_at job.id (Runs.next_attempt job.id d.runs) job.request
        job.metadata d.runs)
      refl
  where
    go :
        (c : Result (RunRecord × Runs.Rows))
        → Runs.create run_id created_at job.id
            (Runs.next_attempt job.id d.runs)
            job.request
            job.metadata
            d.runs
          ≡ c
        → StillWaits d (after_create run_at job_at job d c).1
    go (raised e) h = StillWaits-same d d refl refl
    go (ok (run, rows)) h =
        enqueue_waits run_at job_at run job rows d
          (create_keeps run_id created_at job (Runs.next_attempt job.id d.runs) d.runs run rows h)

cancel_waits : (d : JobDispatcher) (found : Option ℕ) → StillWaits d (cancel_found found d).1
unfolding cancel_found
cancel_waits d none = StillWaits-same d d refl refl
cancel_waits d (some w) = go (get_elem? d.workers w)
  where
    go : (x : Option Worker) → StillWaits d (cancel_task w x d)
    go none = StillWaits-same d d refl refl
    go (some x) = StillWaits-same d _ refl refl

module _ (d : JobDispatcher) (none_alive : alive d.workers ≡ 0) where
  only_dead : (w : ℕ) (x : Worker) → get_elem? d.workers w ≡ some x → x ≡ Worker.dead
  only_dead w Worker.dead h = refl
  only_dead w Worker.idle h = absurd (omega (arith, live-le-alive d.workers w Worker.idle h))
  only_dead w (Worker.executing run_id job) h =
      absurd (omega (arith, live-le-alive d.workers w (Worker.executing run_id job) h))
  only_dead w (Worker.cancelling run_id job) h =
      absurd (omega (arith, live-le-alive d.workers w (Worker.cancelling run_id job) h))

  no_worker :
      (w : ℕ) (x : Option Worker) → get_elem? d.workers w ≡ x → (x ≡ none) ⊎ (x ≡ some Worker.dead)
  no_worker w none h = inl refl
  no_worker w (some x) h = inr (rw (only_dead w x h))

  get_waits :
      (run_at job_at w : ℕ) → StillWaits d (worker_get run_at job_at w (get_elem? d.workers w) d)
  unfolding worker_get
  get_waits run_at job_at w = elim (no_worker w (get_elem? d.workers w) refl) [
    | inl e ↦ rw e (StillWaits-same d d refl refl)
    | inr e ↦ rw e (StillWaits-same d d refl refl)
  ]

  ends_waits :
      (run_at job_at w : ℕ) (a : Answer)
      → StillWaits d (executor_ends run_at job_at w a (get_elem? d.workers w) d)
  unfolding executor_ends
  ends_waits run_at job_at w a = elim (no_worker w (get_elem? d.workers w) refl) [
    | inl e ↦ rw e (StillWaits-same d d refl refl)
    | inr e ↦ rw e (StillWaits-same d d refl refl)
  ]

  arrives_waits :
      (run_at job_at w : ℕ)
      → StillWaits d (cancel_arrives run_at job_at w (get_elem? d.workers w) d)
  unfolding cancel_arrives
  arrives_waits run_at job_at w = elim (no_worker w (get_elem? d.workers w) refl) [
    | inl e ↦ rw e (StillWaits-same d d refl refl)
    | inr e ↦ rw e (StillWaits-same d d refl refl)
  ]

stalled-Step : {d d' : JobDispatcher} → alive d.workers ≡ 0 → Step d d' → StillWaits d d'
unfolding cancel
stalled-Step z (Step.submits d run_id created_at run_at job_at job) =
    submit_waits d run_id created_at run_at job_at job
stalled-Step z (Step.gets d run_at job_at w) = get_waits d z run_at job_at w
stalled-Step z (Step.ends d run_at job_at w a) = ends_waits d z run_at job_at w a
stalled-Step z (Step.arrives d run_at job_at w) = arrives_waits d z run_at job_at w
stalled-Step z (Step.cancels d job_id) = cancel_waits d (task_of job_id d.active_tasks)

-- Once no worker is alive, every run that waits in the queue keeps its place and its row for ever,
-- whatever is submitted or cancelled afterwards: none of them begins.
pub stalled_for_ever : {d d' : JobDispatcher} → alive d.workers ≡ 0 → Reach d d' → StillWaits d d'
stalled_for_ever {d} z Reach.here = StillWaits-same d d refl refl
stalled_for_ever z (Reach.next reach step) =
    StillWaits-trans (stalled_for_ever z reach)
      (stalled-Step (omega (arith, pool_never_grows reach)) step)
