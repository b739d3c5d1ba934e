-- ===== src/Runs/Tests.antt =====
-- Runs and witnesses for the attempt journal.
use achilles.Prelude.{◌≡◌, refl, [], ◌∷◌}
use achilles.Json
use achilles.Table
use achilles.Runs.{Rows, fresh_run, next_attempt}

abbrev rows : Rows
rows = fresh_run "r1" 5 "j1" 1 Json.end Json.end ∷ []

next_attempt_runs : next_attempt "j1" rows ≡ 2
unfolding next_attempt Table.maximum
next_attempt_runs = refl
