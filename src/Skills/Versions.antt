-- ===== src/Skills/Versions.antt =====
-- SkillVersionStore (src/sovereign_ai/kernel/skills.py).
use achilles.Prelude.{
  ℕ, ◌+◌, String, Bool, ◌&&◌, ◌==◌, nat_eq, Option, none, some, List, [], ◌∷◌, if◌then◌else◌,
  Result, ok, raised, value_error, integrity_error,
}
use achilles.Prelude.Order.{sort_by, sort_desc}
use achilles.Json.{Items}
use achilles.Table
use achilles.Skills.{SkillVersionRecord, is_objects, all_records, fetch, checked}

abbrev pub Rows : Type 0
Rows = List SkillVersionRecord

abbrev pub key : SkillVersionRecord → String
key r = r.id

-- _record
abbrev pub record_of : SkillVersionRecord → Result SkillVersionRecord
record_of r = if is_objects r.trajectory then ok r else raised value_error

unfoldable pub get : String → Rows → Result (Option SkillVersionRecord)
get version_id rows = fetch record_of (Table.find key version_id rows)

abbrev pub named : String → SkillVersionRecord → Bool
named name r = r.name == name

abbrev pub is_version : String → ℕ → SkillVersionRecord → Bool
is_version name version r = r.name == name && nat_eq r.version version

abbrev pub next_version :
    String → ℕ → String → String → String → Items → String → Rows → SkillVersionRecord
next_version id now name skill_candidate_id evaluation_id trajectory promoted_by rows = record {
  id = id;
  name = name;
  version = Table.maximum (named name) (λ r. r.version) rows + 1;
  skill_candidate_id = skill_candidate_id;
  evaluation_id = evaluation_id;
  trajectory = trajectory;
  promoted_by = promoted_by;
  created_at = now;
}

-- INSERT under UNIQUE(name, version) and the PRIMARY KEY
unfoldable pub insert_version : SkillVersionRecord → Rows → Result Rows
insert_version r rows =
    if Table.exists (is_version r.name r.version) rows
    then raised integrity_error
    else Table.insert key r rows

-- `create` once the INSERT has answered: the row is stored before it is read back.
abbrev pub read_back : String → Result Rows → Rows → Result SkillVersionRecord × Rows
read_back id (raised e) rows = (raised e, rows)
read_back id (ok rows') rows = (checked (get id rows'), rows')

unfoldable pub create :
    (id : String) (now : ℕ) (name skill_candidate_id evaluation_id : String) (trajectory : Items)
    (promoted_by : String)
    → Rows
    → Result SkillVersionRecord × Rows
unfolding get insert_version
create id now name skill_candidate_id evaluation_id trajectory promoted_by rows =
    read_back id
      (insert_version
        (next_version id now name skill_candidate_id evaluation_id trajectory promoted_by rows)
        rows)
      rows

abbrev pub first_of : Rows → Option SkillVersionRecord
first_of [] = none
first_of (r ∷ rows) = some r

-- ORDER BY version DESC LIMIT 1
unfoldable pub latest : String → Rows → Result (Option SkillVersionRecord)
latest name rows =
    fetch record_of (first_of (sort_desc (λ r. r.version) (Table.select (named name) rows)))

unfoldable pub list_versions : String → Rows → Result Rows
unfolding all_records
list_versions name rows =
    all_records record_of (sort_by (λ r. r.version) (Table.select (named name) rows))
