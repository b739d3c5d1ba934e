-- ===== src/Jobs/Lifecycle.antt =====
-- The life of a job row (kernel/jobs.py).
use achilles.Prelude.{
  ℕ, zero, suc, String, ◌≡◌, refl, Bool, true, false, not, ◌&&◌, Option, none, some, [], ◌∷◌, ◌==◌,
  arith, All, is_some, ok, length, take, ◌≤◌, ◌⊎◌, ◌≢◌, sym, ap, ◌∙◌, inl, inr, Bool-cases,
  if◌then◌else◌,
}
use achilles.Json.{Fields}
use achilles.Table
use achilles.Table.Laws
use achilles.Table.Queries
use achilles.Jobs.{
  JobKind, JobStatus, Outcome, JobRecord, Rows, key, is_queued, is_live, get, create, run_now,
  mark_running, close, finish, ask_cancel, request_cancel, interrupt, recover_interrupted,
}

-- A row has an end time exactly when it is over, and a start time if it is running but not while it
-- is queued.
pub record IsCoherent (r : JobRecord) : Type 0 where
  pub ended : is_some r.finished_at ≡ not (is_live r.status)
  pub started : r.status ≡ JobStatus.running → is_some r.started_at ≡ true
  pub waiting : r.status ≡ JobStatus.queued → r.started_at ≡ none

-- The statements that any callers may run on the table.
pub data Step : Rows → Rows → Type 0 where
  creates :
      (rows rows' : Rows) (id : String) (now : ℕ) (kind : JobKind) (request metadata : Fields)
      (r : JobRecord)
      → create id now kind request metadata rows ≡ ok (r, rows')
      → Step rows rows'
  marks_running :
      (rows : Rows) (now : ℕ) (job_id : String) → Step rows (mark_running now job_id rows)
  finishes :
      (rows : Rows) (now : ℕ) (job_id : String) (status : Outcome) (result : Option Fields)
      (error : Option String)
      → Step rows (finish now job_id status result error rows)
  requests_cancel :
      (rows : Rows) (now : ℕ) (job_id : String) → Step rows (request_cancel now job_id rows).1
  recovers : (rows : Rows) (now : ℕ) → Step rows (recover_interrupted now rows).1

pub data Reach (rows : Rows) : Rows → Type 0 where
  here : Reach rows rows
  next : {mid rows' : Rows} → Reach rows mid → Step mid rows' → Reach rows rows'

run_now-IsCoherent :
    (now : ℕ) (r : JobRecord)
    → is_queued r.status ≡ true
    → IsCoherent r
    → IsCoherent (run_now now r)
run_now-IsCoherent now r q c = ground arith

close-IsCoherent :
    (now : ℕ) (status : Outcome) (result : Option Fields) (error : Option String) (r : JobRecord)
    → IsCoherent (close now status result error r)
close-IsCoherent now status result error r = ground arith

IsCoherent-Step : {rows rows' : Rows} → Step rows rows' → All IsCoherent rows → All IsCoherent rows'
unfolding create mark_running finish request_cancel recover_interrupted
IsCoherent-Step (Step.creates rows rows' id now kind request metadata r h) c =
    Laws.All-add key IsCoherent _ r rows h (ground arith) c
IsCoherent-Step (Step.marks_running rows now job_id) c =
    Queries.All-update IsCoherent (λ r. r.id == job_id && is_queued r.status) (run_now now)
      (λ r p q. run_now-IsCoherent now r (ground arith) q) rows c
IsCoherent-Step (Step.finishes rows now job_id status result error) c =
    Queries.All-update IsCoherent (λ r. r.id == job_id) (close now status result error)
      (λ r p q. close-IsCoherent now status result error r) rows c
IsCoherent-Step (Step.requests_cancel rows now job_id) c =
    Queries.All-update IsCoherent (λ r. r.id == job_id && is_live r.status) (ask_cancel now)
      (λ r p q. ground arith) rows c
IsCoherent-Step (Step.recovers rows now) c =
    Queries.All-update IsCoherent (λ r. is_live r.status) (interrupt now) (λ r p q. ground arith)
      rows c

-- From an empty journal, whatever statements run in whatever order, every row has an end time
-- exactly when its job is over, a start time while it runs, and none while it is queued.
pub journal-IsCoherent : {rows : Rows} → Reach [] rows → All IsCoherent rows
journal-IsCoherent Reach.here = tt
journal-IsCoherent (Reach.next reach step) = IsCoherent-Step step (journal-IsCoherent reach)

-- Row `k` is there, and its job is over.
abbrev pub IsOver : String → Rows → Type 0
IsOver k rows = (r : JobRecord) × (get k rows ≡ some r) × (is_live r.status ≡ false)

update-IsOver :
    (p : JobRecord → Bool) (g : JobRecord → JobRecord) (k : String) (rows : Rows)
    → ((r : JobRecord) → (g r).id ≡ r.id)
    → ((r : JobRecord) → p r ≡ true → is_live r.status ≡ false → is_live (g r).status ≡ false)
    → IsOver k rows
    → IsOver k (Table.update p g rows)
unfolding get
update-IsOver p g k rows same keeps (r, found, n) = elim (Bool-cases (p r)) [
  | inl e ↦ (g r, rw (Laws.find-update key p g same k rows, found, e), keeps r e n)
  | inr e ↦ (r, rw (Laws.find-update key p g same k rows, found, e), n)
]

IsOver-Step : (k : String) {rows rows' : Rows} → Step rows rows' → IsOver k rows → IsOver k rows'
unfolding create mark_running finish request_cancel recover_interrupted
IsOver-Step k (Step.creates rows rows' id now kind request metadata r h) (x, found, n) =
    (x, unfold get in Laws.find-add_old key _ r rows k x h found, n)
IsOver-Step k (Step.marks_running rows now job_id) o =
    update-IsOver (λ r. r.id == job_id && is_queued r.status) (run_now now) k rows (λ r. refl)
      (λ r p n. ground arith) o
IsOver-Step k (Step.finishes rows now job_id status result error) o =
    update-IsOver (λ r. r.id == job_id) (close now status result error) k rows (λ r. refl)
      (λ r p n. ground arith) o
IsOver-Step k (Step.requests_cancel rows now job_id) o =
    update-IsOver (λ r. r.id == job_id && is_live r.status) (ask_cancel now) k rows (λ r. refl)
      (λ r p n. n) o
IsOver-Step k (Step.recovers rows now) o =
    update-IsOver (λ r. is_live r.status) (interrupt now) k rows (λ r. refl) (λ r p n. refl) o

-- A job that is over never runs again, whatever statements run afterwards: `finish` may replace its
-- outcome, but nothing makes it queued or running.
pub no_job_restarts :
    (k : String) {rows rows' : Rows} → IsOver k rows → Reach rows rows' → IsOver k rows'
no_job_restarts k o Reach.here = o
no_job_restarts k o (Reach.next reach step) = IsOver-Step k step (no_job_restarts k o reach)

-- A row that a restart leaves: interrupted if it was queued or running, with the restart as its
-- error and its end time, and untouched if it was over.
abbrev pub Recovered : ℕ → JobRecord → JobRecord → Type 0
Recovered now old new =
    (((old.status ≡ JobStatus.queued) ⊎ (old.status ≡ JobStatus.running))
      × (new ≡ record old {
        status = JobStatus.interrupted;
        error = some "kernel restarted before completion";
        updated_at = now;
        finished_at = some now;
      }))
    ⊎ ((old.status ≢ JobStatus.queued) × (old.status ≢ JobStatus.running) × (new ≡ old))

recovered :
    (now : ℕ) (r : JobRecord) → Recovered now r (if is_live r.status then interrupt now r else r)
recovered now r = go r.status refl
  where
    go : (s : JobStatus) → r.status ≡ s → Recovered now r (if is_live s then interrupt now r else r)
    go JobStatus.queued e = inl (inl e, refl)
    go JobStatus.running e = inl (inr e, refl)
    go JobStatus.succeeded e = inr ((λ q. cc (q, e)), (λ q. cc (q, e)), refl)
    go JobStatus.failed e = inr ((λ q. cc (q, e)), (λ q. cc (q, e)), refl)
    go JobStatus.cancelled e = inr ((λ q. cc (q, e)), (λ q. cc (q, e)), refl)
    go JobStatus.interrupted e = inr ((λ q. cc (q, e)), (λ q. cc (q, e)), refl)

Recovered-over :
    (now : ℕ) (old new : JobRecord)
    → Recovered now old new
    → (new.status ≢ JobStatus.queued) × (new.status ≢ JobStatus.running)
Recovered-over now old new (inl (_, e)) = ((λ q. cc (q, e)), (λ q. cc (q, e)))
Recovered-over now old new (inr (n, m, e)) = (
  (λ q. n (sym (ap (λ (x : JobRecord). x.status) e) ∙ q)),
  (λ q. m (sym (ap (λ (x : JobRecord). x.status) e) ∙ q)),
)

none_left :
    (now : ℕ) (rows : Rows)
    → All
        (λ r. (r.status ≢ JobStatus.queued) × (r.status ≢ JobStatus.running))
        (Table.update (λ r. is_live r.status) (interrupt now) rows)
unfolding Table.update
none_left now [] = tt
none_left now (r ∷ rows) = (
  Recovered-over now r (if is_live r.status then interrupt now r else r) (recovered now r),
  none_left now rows,
)

-- After a restart's recovery no job is queued or running and no row is lost. The row of each job
-- that was queued or running is interrupted, with the restart as its error and the time of the
-- recovery as its end, its other fields kept; each row of a job that was over is untouched.
pub recovery_complete :
    (now : ℕ) (rows : Rows) (k : String) (old : JobRecord)
    → get k rows ≡ some old
    → All
        (λ r. (r.status ≢ JobStatus.queued) × (r.status ≢ JobStatus.running))
        (recover_interrupted now rows).1
      × (length (recover_interrupted now rows).1 ≡ length rows)
      × ((new : JobRecord) × (get k (recover_interrupted now rows).1 ≡ some new)
          × Recovered now old new)
unfolding recover_interrupted get
recovery_complete now rows k old found = (
  none_left now rows,
  Queries.length-update (λ r. is_live r.status) (interrupt now) rows,
  (
    (if is_live old.status then interrupt now old else old),
    Laws.find-update key (λ r. is_live r.status) (interrupt now) (λ r. refl) k rows
        ∙ ap (Laws.updated (λ r. is_live r.status) (interrupt now)) found,
    recovered now old,
  ),
)

length-take_le : (n : ℕ) (rows : Rows) → length (take n rows) ≤ n
length-take_le zero rows = omega arith
length-take_le (suc n) [] = omega arith
length-take_le (suc n) (r ∷ rows) = omega (arith, length-take_le n rows)
