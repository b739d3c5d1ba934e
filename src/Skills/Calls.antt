-- ===== src/Skills/Calls.antt =====
-- Each call of SkillService (src/sovereign_ai/kernel/skill_service.py) is a step of the pipeline.
use achilles.Prelude.{
  ℕ, String, ◌≡◌, refl, sym, ap, ◌∙◌, ◌≢◌, inl, inr, true, Option, none, some, [], ◌∷◌, ◌++◌, ok,
  Result-cases, Option-cases, Bool-cases, subst,
}
use achilles.Json.{Items, Fields}
use achilles.Runs
use achilles.Table
use achilles.Table.Laws
use achilles.Table.Found
use achilles.Skills.{
  CandidateStatus, EvaluationVerdict, SkillCandidateRecord, AgentEvaluationRecord, is_objects,
}
use achilles.Skills.Candidates
use achilles.Skills.Evaluations
use achilles.Skills.Service.{
  Skills, steps_of, is_succeeded, is_open, passed, propose_steps, propose_from_run, evaluated_now,
  evaluate_candidate, record_evaluation, admit, promote_passed, promote, reject, reject_candidate,
}
use achilles.Skills.Numbers
use achilles.Skills.Change.{Change, get_found, set_status-marked}

propose_steps-Change :
    (id : String) (now : ℕ) (run_id objective proposed_by : String) (steps : Option Items)
    (s : Skills)
    → Change s (propose_steps id now run_id objective proposed_by steps s).1
unfolding Candidates.create
propose_steps-Change id now run_id objective proposed_by none s = Change.nothing
propose_steps-Change id now run_id objective proposed_by (some steps) s =
    let c = Candidates.fresh_candidate id now run_id objective steps proposed_by in
    elim (Found.insert-cases Candidates.key c s.candidates) [
      | inl (e, refused) ↦ rw (Candidates.create, refused) Change.nothing
      | inr (new, stored) ↦ rw (Candidates.create, stored) (Change.proposed c refl new)
    ]

pub propose-Change :
    (id : String) (now : ℕ) (runs : Runs.Rows) (run_id objective proposed_by : String) (s : Skills)
    → Change s (propose_from_run id now runs run_id objective proposed_by s).1
unfolding propose_from_run
propose-Change id now runs run_id objective proposed_by s =
    elim (Option-cases (Runs.get run_id runs)) [
      | inl unknown ↦ rw (propose_from_run, unknown) Change.nothing
      | inr (run, found) ↦
          rw (propose_from_run, found)
            (elim (Bool-cases (is_succeeded run.status)) [
              | inl done ↦
                  rw done (
                    propose_steps-Change id now run_id objective proposed_by (steps_of run.result)
                      s)
              | inr not_done ↦ rw not_done Change.nothing
            ])
    ]

module _ (s : Skills) (c : SkillCandidateRecord)
    (found : Table.find Candidates.key c.id s.candidates ≡ some c) where
  -- What a call does for the candidate that it found.
  evaluated-Change :
      (later : ℕ) (e : AgentEvaluationRecord)
      → e.skill_candidate_id ≡ c.id
      → Table.find Evaluations.key e.id s.evaluations ≡ none
      → (status : CandidateStatus) → c.status ≡ status
      → Change s (evaluated_now later c e (record s { evaluations = s.evaluations ++ e ∷ [] })).1
  evaluated-Change later e of_c new CandidateStatus.proposed is =
      rw (is, set_status-marked later c.id CandidateStatus.evaluated s.candidates c found)
        (Change.first_evaluated c e later is found of_c new)
  evaluated-Change later e of_c new CandidateStatus.evaluated is =
      rw is (Change.evaluated c e (rw of_c found) new)
  evaluated-Change later e of_c new CandidateStatus.promoted is =
      rw is (Change.evaluated c e (rw of_c found) new)
  evaluated-Change later e of_c new CandidateStatus.rejected is =
      rw is (Change.evaluated c e (rw of_c found) new)

  evaluate-Change :
      (id : String) (now later : ℕ) (verdict : EvaluationVerdict) (evaluated_by : String)
      (evidence : Option Fields)
      → Change s (evaluate_candidate id now later verdict evaluated_by evidence c s).1
  evaluate-Change id now later verdict evaluated_by evidence =
      elim (Result-cases
        (Evaluations.create id now c.id verdict evaluated_by evidence s.evaluations)) [
          | inl (e, refused) ↦ rw (evaluate_candidate, refused) Change.nothing
          | inr ((e, rows), stored) ↦ rw (evaluate_candidate, stored) (go e rows stored)
        ]
    where
      created :
          (e : AgentEvaluationRecord) (rows : Evaluations.Rows)
          → Evaluations.create id now c.id verdict evaluated_by evidence s.evaluations
            ≡ ok (e, rows)
          → (Table.find Evaluations.key e.id s.evaluations ≡ none)
            × (e.skill_candidate_id ≡ c.id)
            × (rows ≡ s.evaluations ++ e ∷ [])
      created e rows stored =
          unfold Evaluations.create in
          let (new, at_end, same) = Laws.add_ok Evaluations.key _ e s.evaluations stored in
          (
            subst
                (λ (x : AgentEvaluationRecord).
                  Table.find Evaluations.key x.id s.evaluations ≡ none)
                (sym same) new,
            ap (λ (x : AgentEvaluationRecord). x.skill_candidate_id) same,
            at_end ∙ ap (λ x. s.evaluations ++ x ∷ []) (sym same),
          )

      go :
          (e : AgentEvaluationRecord) (rows : Evaluations.Rows)
          → Evaluations.create id now c.id verdict evaluated_by evidence s.evaluations
            ≡ ok (e, rows)
          → Change s (evaluated_now later c e (record s { evaluations = rows })).1
      go e rows stored =
          let (new, of_c, at_end) = created e rows stored in
          rw at_end (evaluated-Change later e of_c new c.status refl)

  promoted-Change :
      (id : String) (now later : ℕ) (name promoted_by : String) (e : AgentEvaluationRecord)
      → is_open c.status ≡ true
      → is_objects c.trajectory ≡ true
      → Evaluations.latest_for_candidate c.id s.evaluations ≡ some e
      → e.verdict ≡ EvaluationVerdict.pass
      → Change s (admit id now later name promoted_by c e s).1
  unfolding admit
  promoted-Change id now later name promoted_by e is fine latest pass =
      elim (Numbers.create-cases id now name c.id e.id c.trajectory promoted_by s.versions fine) [
        | inl (reason, refused) ↦ rw refused Change.nothing
        | inr stored ↦
            rw (stored, set_status-marked later c.id CandidateStatus.promoted s.candidates c found)
              (Change.promoted c e id now later name promoted_by is found latest pass)
      ]

  pub admit-Change :
      (id : String) (now later : ℕ) (name promoted_by : String)
      → is_open c.status ≡ true
      → is_objects c.trajectory ≡ true
      → (latest : Option AgentEvaluationRecord)
      → Evaluations.latest_for_candidate c.id s.evaluations ≡ latest
      → Change s (promote_passed id now later name promoted_by c (passed latest) s).1
  admit-Change id now later name promoted_by is fine none at_latest = Change.nothing
  admit-Change id now later name promoted_by is fine (some e) at_latest = by_verdict e.verdict refl
    where
      by_verdict :
          (v : EvaluationVerdict)
          → e.verdict ≡ v
          → Change s (promote_passed id now later name promoted_by c (passed (some e)) s).1
      by_verdict EvaluationVerdict.fail verdict = rw verdict Change.nothing
      by_verdict EvaluationVerdict.pass verdict =
          rw verdict (promoted-Change id now later name promoted_by e is fine at_latest verdict)

  reject_open :
      (now : ℕ)
      → c.status ≢ CandidateStatus.promoted
      → Change s (record s {
        candidates = (Candidates.set_status now c.id CandidateStatus.rejected s.candidates).1;
      })
  reject_open now is =
      rw (set_status-marked now c.id CandidateStatus.rejected s.candidates c found)
        (Change.rejected c now is found)

  reject_candidate-Change :
      (now : ℕ) (status : CandidateStatus)
      → c.status ≡ status
      → Change s (reject_candidate now c status s).1
  reject_candidate-Change now CandidateStatus.promoted is = Change.nothing
  reject_candidate-Change now CandidateStatus.proposed is = reject_open now (λ e. cc (is, e))
  reject_candidate-Change now CandidateStatus.evaluated is = reject_open now (λ e. cc (is, e))
  reject_candidate-Change now CandidateStatus.rejected is = reject_open now (λ e. cc (is, e))

pub record_evaluation-Change :
    (id : String) (now later : ℕ) (candidate_id : String) (verdict : EvaluationVerdict)
    (evaluated_by : String) (evidence : Option Fields) (s : Skills)
    → Change s (record_evaluation id now later candidate_id verdict evaluated_by evidence s).1
unfolding record_evaluation
record_evaluation-Change id now later candidate_id verdict evaluated_by evidence s =
    elim (Result-cases (Candidates.get candidate_id s.candidates)) [
      | inl (e, refused) ↦ rw (record_evaluation, refused) Change.nothing
      | inr (none, unknown) ↦ rw (record_evaluation, unknown) Change.nothing
      | inr (some c, got) ↦
          let (found, _, _) = get_found candidate_id s.candidates c got in
          rw (record_evaluation, got)
            (evaluate-Change s c found id now later verdict evaluated_by evidence)
    ]

pub promote-Change :
    (id : String) (now later : ℕ) (candidate_id name promoted_by : String) (s : Skills)
    → Change s (promote id now later candidate_id name promoted_by s).1
unfolding promote
promote-Change id now later candidate_id name promoted_by s =
    elim (Result-cases (Candidates.get candidate_id s.candidates)) [
      | inl (e, refused) ↦ rw (promote, refused) Change.nothing
      | inr (none, unknown) ↦ rw (promote, unknown) Change.nothing
      | inr (some c, got) ↦
          let (found, same, fine) = get_found candidate_id s.candidates c got in
          elim (Bool-cases (is_open c.status)) [
            | inr closed ↦ rw (promote, got, closed) Change.nothing
            | inl is ↦
                rw (promote, got, is)
                  (admit-Change s c found id now later name promoted_by is fine
                    (Evaluations.latest_for_candidate candidate_id s.evaluations) (rw same refl))
          ]
    ]

pub reject-Change :
    (now : ℕ) (candidate_id : String) (s : Skills) → Change s (reject now candidate_id s).1
unfolding reject
reject-Change now candidate_id s = elim (Result-cases (Candidates.get candidate_id s.candidates)) [
  | inl (e, refused) ↦ rw (reject, refused) Change.nothing
  | inr (none, unknown) ↦ rw (reject, unknown) Change.nothing
  | inr (some c, got) ↦
      let (found, _, _) = get_found candidate_id s.candidates c got in
      rw (reject, got) (reject_candidate-Change s c found now c.status refl)
]
