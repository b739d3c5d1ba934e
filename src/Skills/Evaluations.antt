-- ===== src/Skills/Evaluations.antt =====
-- AgentEvaluationStore (src/sovereign_ai/kernel/skills.py).
use achilles.Prelude.{
  ℕ, String, ◌==◌, leb, Option, none, some, List, [], ◌∷◌, if◌then◌else◌, Result,
}
use achilles.Prelude.Order.{sort_by}
use achilles.Json
use achilles.Json.{Fields}
use achilles.Table
use achilles.Skills.{EvaluationVerdict, AgentEvaluationRecord}

abbrev pub Rows : Type 0
Rows = List AgentEvaluationRecord

abbrev pub key : AgentEvaluationRecord → String
key r = r.id

-- evidence or {}
abbrev pub given : Option Fields → Fields
given none = Json.end
given (some fs) = fs

unfoldable pub create :
    (id : String) (now : ℕ) (skill_candidate_id : String) (verdict : EvaluationVerdict)
    (evaluated_by : String) (evidence : Option Fields)
    → Rows
    → Result (AgentEvaluationRecord × Rows)
create id now skill_candidate_id verdict evaluated_by evidence rows =
    Table.add key
      (record {
        id = id;
        skill_candidate_id = skill_candidate_id;
        verdict = verdict;
        evidence = given evidence;
        evaluated_by = evaluated_by;
        created_at = now;
      })
      rows

unfoldable pub get : String → Rows → Option AgentEvaluationRecord
get evaluation_id rows = Table.find key evaluation_id rows

abbrev pub newer : AgentEvaluationRecord → Option AgentEvaluationRecord → AgentEvaluationRecord
newer r none = r
newer r (some later) = if leb r.created_at later.created_at then later else r

-- ORDER BY created_at DESC, rowid DESC LIMIT 1
unfoldable pub newest : Rows → Option AgentEvaluationRecord
newest [] = none
newest (r ∷ rows) = some (newer r (newest rows))

unfoldable pub latest_for_candidate : String → Rows → Option AgentEvaluationRecord
unfolding newest
latest_for_candidate skill_candidate_id rows =
    newest (Table.select (λ r. r.skill_candidate_id == skill_candidate_id) rows)

unfoldable pub list_for_candidate : String → Rows → Rows
list_for_candidate skill_candidate_id rows =
    sort_by (λ r. r.created_at)
      (Table.select (λ r. r.skill_candidate_id == skill_candidate_id) rows)
