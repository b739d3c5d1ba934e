-- ===== src/Jobs/Tests.antt =====
-- Runs and witnesses for the job journal.
use achilles.Prelude.{◌≡◌, ◌≢◌, refl, false, some, none, [], ◌∷◌, ok, All, length}
use achilles.Json
use achilles.Table
use achilles.Jobs.{
  JobKind, JobStatus, JobRecord, Rows, create, mark_running, get, interrupt, recover_interrupted,
  run_now,
}
use achilles.Jobs.Lifecycle.{
  IsCoherent, Reach, Step, journal-IsCoherent, Recovered, recovery_complete,
}

abbrev job : JobRecord
job = record {
  id = "j1";
  kind = JobKind.chat;
  status = JobStatus.queued;
  request = Json.end;
  result = none;
  error = none;
  cancellation_requested = false;
  created_at = 5;
  updated_at = 5;
  started_at = none;
  finished_at = none;
  metadata = Json.end;
}

abbrev rows : Rows
rows = job ∷ []

create_runs : create "j1" 5 JobKind.chat Json.end Json.end [] ≡ ok (job, rows)
unfolding create Table.add Table.find
create_runs = refl

mark_running_runs : mark_running 6 "j1" rows ≡ run_now 6 job ∷ []
unfolding mark_running Table.update
mark_running_runs = refl

abbrev created : Reach [] rows
created =
    Reach.next Reach.here
      (Step.creates [] rows "j1" 5 JobKind.chat Json.end Json.end job create_runs)

journal-IsCoherent_example : All IsCoherent (mark_running 6 "j1" rows)
journal-IsCoherent_example =
    journal-IsCoherent (Reach.next created (Step.marks_running rows 6 "j1"))

abbrev over : Rows
over = interrupt 9 job ∷ []

recovery_complete_example :
    All
      (λ r. (r.status ≢ JobStatus.queued) × (r.status ≢ JobStatus.running))
      (recover_interrupted 9 rows).1
    × (length (recover_interrupted 9 rows).1 ≡ 1)
    × ((new : JobRecord) × (get "j1" (recover_interrupted 9 rows).1 ≡ some new)
        × Recovered 9 job new)
unfolding get Table.find
recovery_complete_example = recovery_complete 9 rows "j1" job refl
