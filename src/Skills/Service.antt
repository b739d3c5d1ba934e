-- ===== src/Skills/Service.antt =====
-- SkillService (src/sovereign_ai/kernel/skill_service.py), over the stores of the skills and the runs.
use achilles.Prelude.{
  ℕ, String, Bool, true, false, Option, none, some, if◌then◌else◌, Result, ok, raised, value_error,
  skill_promotion_error, ◌>>=◌,
}
use achilles.Json
use achilles.Json.{Json, Items, Fields, nil, cons, array}
use achilles.Jobs.{JobStatus}
use achilles.Runs
use achilles.Runs.{RunRecord}
use achilles.Skills.{
  CandidateStatus, EvaluationVerdict, SkillCandidateRecord, AgentEvaluationRecord,
  SkillVersionRecord,
}
use achilles.Skills.Candidates
use achilles.Skills.Evaluations
use achilles.Skills.Versions

pub record Skills : Type 0 where
  pub candidates : Candidates.Rows
  pub evaluations : Evaluations.Rows
  pub versions : Versions.Rows

abbrev pub with_candidates {ℓ} : {A : Type ℓ} → Skills → A × Candidates.Rows → A × Skills
with_candidates s (a, rows) = (a, record s { candidates = rows })

-- (run.result or {}).get("steps"), where it is a list that is not empty
abbrev pub steps_of : Option Fields → Option Items
steps_of none = none
steps_of (some result) = elim (Json.get result "steps") [
  | some (array (cons v items)) ↦ some (cons v items)
  | _ ↦ none
]

abbrev pub is_succeeded : JobStatus → Bool
is_succeeded JobStatus.succeeded = true
is_succeeded _ = false

abbrev pub propose_steps :
    String
    → ℕ
    → String
    → String
    → String
    → Option Items
    → Skills
    → Result SkillCandidateRecord × Skills
propose_steps id now run_id objective proposed_by none s = (raised value_error, s)
propose_steps id now run_id objective proposed_by (some steps) s =
    with_candidates s (Candidates.create id now run_id objective steps proposed_by s.candidates)

unfoldable pub propose_from_run :
    (id : String) (now : ℕ) (runs : Runs.Rows) (run_id objective proposed_by : String)
    → Skills
    → Result SkillCandidateRecord × Skills
unfolding Runs.get Candidates.create
propose_from_run id now runs run_id objective proposed_by s = elim (Runs.get run_id runs) [
  | none ↦ (raised value_error, s)
  | some run ↦
      if is_succeeded run.status
      then propose_steps id now run_id objective proposed_by (steps_of run.result) s
      else (raised value_error, s)
]

-- What follows the INSERT of an evaluation. An exception of `set_status` leaves it stored.
abbrev pub evaluated_now :
    ℕ
    → SkillCandidateRecord
    → AgentEvaluationRecord
    → Skills
    → Result AgentEvaluationRecord × Skills
evaluated_now later candidate evaluation s = elim candidate.status [
  | CandidateStatus.proposed ↦
      let (done, rows) =
        Candidates.set_status later candidate.id CandidateStatus.evaluated s.candidates in
      (done >>= (λ _. ok evaluation), record s { candidates = rows })
  | _ ↦ (ok evaluation, s)
]

abbrev pub evaluate_candidate :
    (id : String) (now later : ℕ)
    → EvaluationVerdict
    → String
    → Option Fields
    → SkillCandidateRecord
    → Skills
    → Result AgentEvaluationRecord × Skills
evaluate_candidate id now later verdict evaluated_by evidence candidate s =
    elim (Evaluations.create id now candidate.id verdict evaluated_by evidence s.evaluations) [
      | raised e ↦ (raised e, s)
      | ok (evaluation, rows) ↦
          evaluated_now later candidate evaluation (record s { evaluations = rows })
    ]

unfoldable pub record_evaluation :
    (id : String) (now later : ℕ) (candidate_id : String) (verdict : EvaluationVerdict)
    (evaluated_by : String) (evidence : Option Fields)
    → Skills
    → Result AgentEvaluationRecord × Skills
unfolding Candidates.get Evaluations.create Candidates.set_status
record_evaluation id now later candidate_id verdict evaluated_by evidence s =
    elim (Candidates.get candidate_id s.candidates) [
      | raised e ↦ (raised e, s)
      | ok none ↦ (raised value_error, s)
      | ok (some candidate) ↦
          evaluate_candidate id now later verdict evaluated_by evidence candidate s
    ]

-- What follows the INSERT of a version. An exception of `set_status` leaves it stored.
abbrev pub promoted_now :
    ℕ
    → SkillCandidateRecord
    → Result SkillVersionRecord
    → Skills
    → Result SkillVersionRecord × Skills
promoted_now later candidate (raised e) s = (raised e, s)
promoted_now later candidate (ok version) s =
    let (done, rows) =
      Candidates.set_status later candidate.id CandidateStatus.promoted s.candidates in
    (done >>= (λ _. ok version), record s { candidates = rows })

-- The two writes of a promotion.
unfoldable pub admit :
    (id : String) (now later : ℕ) (name promoted_by : String)
    → SkillCandidateRecord
    → AgentEvaluationRecord
    → Skills
    → Result SkillVersionRecord × Skills
unfolding Versions.create Candidates.set_status
admit id now later name promoted_by candidate evaluation s =
    let (stored, rows) =
      Versions.create id now name candidate.id evaluation.id candidate.trajectory promoted_by
        s.versions in
    promoted_now later candidate stored (record s { versions = rows })

abbrev pub passed : Option AgentEvaluationRecord → Option AgentEvaluationRecord
passed none = none
passed (some e) = elim e.verdict [ EvaluationVerdict.pass ↦ some e | EvaluationVerdict.fail ↦ none ]

abbrev pub promote_passed :
    (id : String) (now later : ℕ) (name promoted_by : String)
    → SkillCandidateRecord
    → Option AgentEvaluationRecord
    → Skills
    → Result SkillVersionRecord × Skills
promote_passed id now later name promoted_by candidate none s = (raised skill_promotion_error, s)
promote_passed id now later name promoted_by candidate (some e) s =
    admit id now later name promoted_by candidate e s

abbrev pub is_open : CandidateStatus → Bool
is_open CandidateStatus.promoted = false
is_open CandidateStatus.rejected = false
is_open _ = true

unfoldable pub promote :
    (id : String) (now later : ℕ) (candidate_id name promoted_by : String)
    → Skills
    → Result SkillVersionRecord × Skills
unfolding Candidates.get Evaluations.latest_for_candidate admit
promote id now later candidate_id name promoted_by s =
    elim (Candidates.get candidate_id s.candidates) [
      | raised e ↦ (raised e, s)
      | ok none ↦ (raised value_error, s)
      | ok (some candidate) ↦
          if is_open candidate.status
          then promote_passed id now later name promoted_by candidate
              (passed (Evaluations.latest_for_candidate candidate_id s.evaluations)) s
          else (raised skill_promotion_error, s)
    ]

abbrev pub reject_candidate :
    ℕ → SkillCandidateRecord → CandidateStatus → Skills → Result SkillCandidateRecord × Skills
reject_candidate now candidate CandidateStatus.promoted s = (raised skill_promotion_error, s)
reject_candidate now candidate _ s =
    with_candidates s (Candidates.set_status now candidate.id CandidateStatus.rejected s.candidates)

unfoldable pub reject :
    (now : ℕ) (candidate_id : String) → Skills → Result SkillCandidateRecord × Skills
unfolding Candidates.get Candidates.set_status
reject now candidate_id s = elim (Candidates.get candidate_id s.candidates) [
  | raised e ↦ (raised e, s)
  | ok none ↦ (raised value_error, s)
  | ok (some candidate) ↦ reject_candidate now candidate candidate.status s
]
