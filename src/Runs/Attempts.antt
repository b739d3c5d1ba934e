-- ===== src/Runs/Attempts.antt =====
-- Attempts are numbered without gaps or repeats (kernel/runs.py).
use achilles.Prelude.{
  ℕ, ◌+◌, String, ◌≡◌, refl, Bool, false, none, [], ◌∷◌, ◌++◌, ◌==◌, arith, eq_refl, ok,
}
use achilles.Json.{Fields}
use achilles.Table.Laws
use achilles.Table.Found
use achilles.Runs.{RunRecord, Rows, key, get, create, max_attempt, next_attempt, fresh_run}

abbrev of_job : String → RunRecord → Bool
of_job job_id r = r.job_id == job_id

abbrev attempt_of : RunRecord → ℕ
attempt_of r = r.attempt

-- `create` with `next_attempt` and a fresh id never breaks UNIQUE(job_id, attempt); the new attempt
-- has the next number, and numbers of other jobs are as before.
pub next_attempt_creates :
    (id : String) (now : ℕ) (job_id : String) (request metadata : Fields) (rows : Rows)
    → get id rows ≡ none
    → let n = next_attempt job_id rows in
      let run = fresh_run id now job_id n request metadata in
      (create id now job_id n request metadata rows ≡ ok (run, rows ++ run ∷ []))
      × (next_attempt job_id (rows ++ run ∷ []) ≡ n + 1)
      × ((other : String)
          → (job_id == other) ≡ false
          → next_attempt other (rows ++ run ∷ []) ≡ next_attempt other rows)
unfolding create next_attempt get
next_attempt_creates id now job_id request metadata rows fresh =
    let n = max_attempt job_id rows + 1 in
    let run = fresh_run id now job_id n request metadata in
    (
      rw (Found.exists-above (of_job job_id) attempt_of n rows (omega arith))
          (Laws.add_new key run rows fresh),
      rw (Found.maximum-append (of_job job_id) attempt_of rows run)
          (ground (arith, eq_refl job_id)),
      λ other ne. rw (Found.maximum-append (of_job other) attempt_of rows run, ne) refl,
    )
