-- ===== src/Skills.antt =====
-- The stores of src/sovereign_ai/kernel/skills.py: skill candidates, their evaluations, and the
-- versions that they are promoted to.
pub mod Candidates
pub mod Evaluations
pub mod Versions
pub mod Service
pub mod Numbers
pub mod Change
pub mod Calls
pub mod Reach
pub mod Latest
pub mod Evidence
pub mod Promotion
mod Tests
use achilles.Prelude.{
  ℕ, ◌+◌, String, Bool, true, false, ◌&&◌, ◌==◌, leb, nat_eq, Option, none, some, List, [], ◌∷◌,
  if◌then◌else◌, Result, ok, raised, value_error, integrity_error, fetched, ◌>>=◌,
}
use achilles.Prelude.Order.{sort_by, sort_desc}
use achilles.Json
use achilles.Json.{Json, Items, Fields, nil, cons, object}
use achilles.Table

pub data CandidateStatus : Type 0 where
  proposed evaluated promoted rejected : CandidateStatus

abbrev pub same_status : CandidateStatus → CandidateStatus → Bool
same_status CandidateStatus.proposed CandidateStatus.proposed = true
same_status CandidateStatus.evaluated CandidateStatus.evaluated = true
same_status CandidateStatus.promoted CandidateStatus.promoted = true
same_status CandidateStatus.rejected CandidateStatus.rejected = true
same_status _ _ = false

pub data EvaluationVerdict : Type 0 where
  pass fail : EvaluationVerdict

-- `trajectory` is what the column holds; the class wants a list of objects.
pub record SkillCandidateRecord : Type 0 where
  pub id : String
  pub source_run_id : String
  pub objective : String
  pub trajectory : Items
  pub proposed_by : String
  pub status : CandidateStatus
  pub created_at : ℕ
  pub updated_at : ℕ

pub record AgentEvaluationRecord : Type 0 where
  pub id : String
  pub skill_candidate_id : String
  pub verdict : EvaluationVerdict
  pub evidence : Fields
  pub evaluated_by : String
  pub created_at : ℕ

pub record SkillVersionRecord : Type 0 where
  pub id : String
  pub name : String
  pub version : ℕ
  pub skill_candidate_id : String
  pub evaluation_id : String
  pub trajectory : Items
  pub promoted_by : String
  pub created_at : ℕ

-- The test of `list[dict[str, Any]]` when a record is built.
unfoldable pub is_objects : Items → Bool
is_objects nil = true
is_objects (cons (object fs) items) = is_objects items
is_objects (cons v items) = false

-- The records of rows, where the first that is refused raises.
unfoldable pub all_records {ℓ} : {A : Type ℓ} → (A → Result A) → List A → Result (List A)
all_records record_of [] = ok []
all_records record_of (r ∷ rows) = do
  first ← record_of r
  rest ← all_records record_of rows
  ok (first ∷ rest)

-- The row under an id, as a record.
abbrev pub fetch {ℓ} : {A : Type ℓ} → (A → Result A) → Option A → Result (Option A)
fetch record_of none = ok none
fetch record_of (some r) = do found ← record_of r; ok (some found)

-- `record = self.get(id)`, `assert record is not None`
abbrev pub checked {ℓ} : {A : Type ℓ} → Result (Option A) → Result A
checked found = do o ← found; fetched o
