-- ===== src/Migrations.antt =====
-- MigrationRunner (src/sovereign_ai/kernel/migrations.py): numbered schema changes of one database,
-- and the table of those that it has had. What a script does to the other tables is a parameter.
-- Versions are natural numbers; the constructor refuses a negative one in any case.
use achilles.Prelude.{
  Supply, ℕ, zero, suc, ◌+◌, String, Bool, true, false, not, ◌&&◌, ◌||◌, List, [], ◌∷◌, ◌++◌, map,
  any, length, nat_eq, leb, if◌then◌else◌, Result, ok, raised, ◌>>=◌, value_error, integrity_error,
}
use achilles.Prelude.Order.{sort_by}
pub mod Versions
mod Tests

pub record Migration : Type 0 where
  pub version : ℕ
  pub name : String
  pub sql : String

-- A row of schema_migrations.
pub record SchemaMigration : Type 0 where
  pub version : ℕ
  pub name : String
  pub applied_at : ℕ

abbrev pub Rows : Type 0
Rows = List SchemaMigration

-- The database: the tables that the scripts change, the rows of schema_migrations, and the number of
-- readings of the clock.
pub record Database (W : Type 0) : Type 0 where
  pub world : W
  pub schema_migrations : Rows
  pub drawn : ℕ

abbrev pub version_of : Migration → ℕ
version_of m = m.version

abbrev pub recorded : SchemaMigration → ℕ
recorded r = r.version

-- list(range(first, first + count))
unfoldable pub range : (first count : ℕ) → List ℕ
range first zero = []
range first (suc n) = first ∷ range (suc first) n

-- set(versions)
unfoldable pub to_set : List ℕ → List ℕ
to_set [] = []
to_set (v ∷ versions) =
    if any (λ w. nat_eq w v) versions then to_set versions else v ∷ to_set versions

-- `==` of two lists
unfoldable pub same_list : List ℕ → List ℕ → Bool
same_list [] [] = true
same_list [] (w ∷ ws) = false
same_list (v ∷ vs) [] = false
same_list (v ∷ vs) (w ∷ ws) = nat_eq v w && same_list vs ws

unfoldable pub validate_versions : List ℕ → Result (Unit {0})
unfolding to_set same_list range
validate_versions versions =
    if not (nat_eq (length (to_set versions)) (length versions))
    then raised value_error
    else if not (nat_eq (length versions) 0) && not (same_list versions (range 1 (length versions)))
    then raised value_error
    else ok tt

-- `__init__`: the migrations that the runner keeps.
unfoldable pub init : List Migration → Result (List Migration)
unfolding validate_versions
init migrations =
    let sorted = sort_by version_of migrations in
    validate_versions (map version_of sorted) >>= (λ u. ok sorted)

-- SELECT MAX(version), or 0
unfoldable pub current_version : Rows → ℕ
current_version [] = 0
current_version (r ∷ rows) =
    let rest = current_version rows in if leb rest r.version then r.version else rest

-- INSERT INTO schema_migrations
unfoldable pub insert : SchemaMigration → Rows → Result Rows
insert r rows =
    if any (λ v. nat_eq v r.version) (map recorded rows)
    then raised integrity_error
    else ok (rows ++ r ∷ [])

module _ {W : Type 0} where
  -- What the INSERT leaves.
  abbrev pub store : Database W → Result Rows → Result (Unit {0}) × Database W
  store db (raised e) = (raised e, db)
  store db (ok rows) = (ok tt, record db { schema_migrations = rows })

  -- `applied.append(version)`, put in front of what the later rounds append
  abbrev pub applied : ℕ → Result (List ℕ) × Database W → Result (List ℕ) × Database W
  applied v (raised e, db) = (raised e, db)
  applied v (ok versions, db) = (ok (v ∷ versions), db)

  -- What follows a round of the loop that applies migration `v`.
  abbrev pub go_on :
      ℕ
      → Result (Unit {0}) × Database W
      → (Database W → Result (List ℕ) × Database W)
      → Result (List ℕ) × Database W
  go_on v (raised e, db) next = (raised e, db)
  go_on v (ok u, db) next = applied v (next db)

  module _ (supply : Supply) (executescript : String → W → Result (Unit {0}) × W) where
    -- What follows the script: the row is written only if the script has run.
    abbrev pub record_migration :
        Migration → Database W → Result (Unit {0}) × W → Result (Unit {0}) × Database W
    record_migration m db (raised e, w) = (raised e, record db { world = w })
    record_migration m db (ok u, w) =
        store (record db { world = w; drawn = suc db.drawn })
          (insert
            (record { version = m.version; name = m.name; applied_at = supply.clock db.drawn })
            db.schema_migrations)

    -- The body of the loop, from `with`.
    unfoldable pub apply : Migration → Database W → Result (Unit {0}) × Database W
    unfolding insert
    apply m db = record_migration m db (executescript m.sql db.world)

    unfoldable pub apply_all :
        (current : ℕ) → List Migration → Database W → Result (List ℕ) × Database W
    unfolding apply
    apply_all current [] db = (ok [], db)
    apply_all current (m ∷ ms) db =
        let rest = apply_all current ms db in
        if leb m.version current
        then rest
        else go_on m.version (apply m db) (λ d. apply_all current ms d)

    unfoldable pub apply_pending : List Migration → Database W → Result (List ℕ) × Database W
    unfolding apply_all current_version
    apply_pending ms db = apply_all (current_version db.schema_migrations) ms db
