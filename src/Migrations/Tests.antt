-- ===== src/Migrations/Tests.antt =====
-- Tests of MigrationRunner (kernel/migrations.py), on a database whose tables are a list of names.
use achilles.Prelude.{
  Supply, String, ◌≡◌, refl, List, [], ◌∷◌, ◌++◌, map, length, ◌-◌, ◌==◌, if◌then◌else◌, Result, ok,
  raised, value_error, runtime_error,
}
use achilles.Prelude.Order.{insertion_sort}
use achilles.Migrations.{Migration, Database, recorded, range, init, apply_pending}
use achilles.Migrations.Versions.{Ends, apply_pending-Ends}

abbrev supply : Supply
supply = record { uuid = λ n. "id"; clock = λ n. n }

-- A script that names a table creates it; the script "bad" raises.
abbrev create_table : String → List String → Result (Unit {0}) × List String
create_table sql tables =
    if sql == "bad" then (raised runtime_error, tables) else (ok tt, tables ++ sql ∷ [])

abbrev first : Migration
first = record { version = 1; name = "jobs"; sql = "jobs" }

abbrev second : Migration
second = record { version = 2; name = "runs"; sql = "runs" }

abbrev third : Migration
third = record { version = 3; name = "events"; sql = "events" }

abbrev broken : Migration
broken = record { version = 3; name = "events"; sql = "bad" }

abbrev database : Database (List String)
database = record {
  world = "jobs" ∷ [];
  schema_migrations = record { version = 1; name = "jobs"; applied_at = 0 } ∷ [];
  drawn = 1;
}

init_sorts : init (third ∷ first ∷ second ∷ []) ≡ ok (first ∷ second ∷ third ∷ [])
unfolding init insertion_sort
init_sorts = refl

init_refuses_gap : init (third ∷ first ∷ []) ≡ raised value_error
unfolding init insertion_sort
init_refuses_gap = refl

init_refuses_twice : init (first ∷ second ∷ first ∷ []) ≡ raised value_error
unfolding init insertion_sort
init_refuses_twice = refl

stops_at_broken :
    let (r, db) = apply_pending supply create_table (first ∷ second ∷ broken ∷ []) database in
    (r ≡ raised runtime_error) × (db.world ≡ "jobs" ∷ "runs" ∷ [])
unfolding apply_pending
stops_at_broken = (refl, refl)

one_recorded : map recorded database.schema_migrations ≡ range 1 1
unfolding range
one_recorded = refl

apply_pending-Ends_example :
    Ends 1
      (length (first ∷ second ∷ third ∷ []) - 1)
      (apply_pending supply create_table (first ∷ second ∷ third ∷ []) database)
apply_pending-Ends_example =
    apply_pending-Ends supply create_table (third ∷ first ∷ second ∷ [])
      (first ∷ second ∷ third ∷ []) database 1 init_sorts one_recorded
