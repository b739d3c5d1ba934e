-- ===== src/Skills/Change.antt =====
-- The steps of the pipeline from a proposal to a promotion, and that each call of the service
-- (src/sovereign_ai/kernel/skill_service.py) is one of them.
use achilles.Prelude.{
  ℕ, String, subst, ◌≡◌, refl, sym, ap, ◌∙◌, ◌≢◌, inl, inr, true, none, some, [], ◌∷◌, ◌++◌, ◌==◌,
  ok, Option-cases, Bool-cases,
}
use achilles.Table
use achilles.Table.Laws
use achilles.Table.Found
use achilles.Skills.{
  CandidateStatus, EvaluationVerdict, SkillCandidateRecord, AgentEvaluationRecord, is_objects,
}
use achilles.Skills.Candidates
use achilles.Skills.Evaluations
use achilles.Skills.Versions
use achilles.Skills.Service.{Skills, is_open}

abbrev pub marked : ℕ → String → CandidateStatus → Candidates.Rows → Candidates.Rows
marked now k status rows = Table.update (λ r. r.id == k) (Candidates.with_status now status) rows

-- One step of the pipeline, or none.
pub data Change (s : Skills) : Skills → Type 0 where
  nothing : Change s s
  proposed :
      (c : SkillCandidateRecord)
      → c.status ≡ CandidateStatus.proposed
      → Table.find Candidates.key c.id s.candidates ≡ none
      → Change s (record s { candidates = s.candidates ++ c ∷ [] })
  evaluated :
      (c : SkillCandidateRecord) (e : AgentEvaluationRecord)
      → Table.find Candidates.key e.skill_candidate_id s.candidates ≡ some c
      → Table.find Evaluations.key e.id s.evaluations ≡ none
      → Change s (record s { evaluations = s.evaluations ++ e ∷ [] })
  first_evaluated :
      (c : SkillCandidateRecord) (e : AgentEvaluationRecord) (now : ℕ)
      → c.status ≡ CandidateStatus.proposed
      → Table.find Candidates.key c.id s.candidates ≡ some c
      → e.skill_candidate_id ≡ c.id
      → Table.find Evaluations.key e.id s.evaluations ≡ none
      → Change s (record s {
        candidates = marked now c.id CandidateStatus.evaluated s.candidates;
        evaluations = s.evaluations ++ e ∷ [];
      })
  promoted :
      (c : SkillCandidateRecord) (e : AgentEvaluationRecord) (id : String) (now later : ℕ)
      (name promoted_by : String)
      → is_open c.status ≡ true
      → Table.find Candidates.key c.id s.candidates ≡ some c
      → Evaluations.latest_for_candidate c.id s.evaluations ≡ some e
      → e.verdict ≡ EvaluationVerdict.pass
      → Change s (record s {
        candidates = marked later c.id CandidateStatus.promoted s.candidates;
        versions =
            s.versions
            ++ Versions.next_version id now name c.id e.id c.trajectory promoted_by s.versions ∷ [];
      })
  rejected :
      (c : SkillCandidateRecord) (now : ℕ)
      → c.status ≢ CandidateStatus.promoted
      → Table.find Candidates.key c.id s.candidates ≡ some c
      → Change s (record s { candidates = marked now c.id CandidateStatus.rejected s.candidates })

-- A candidate that is read is a row of the table.
pub get_found :
    (k : String) (rows : Candidates.Rows) (c : SkillCandidateRecord)
    → Candidates.get k rows ≡ ok (some c)
    → (Table.find Candidates.key c.id rows ≡ some c) × (c.id ≡ k) × (is_objects c.trajectory ≡ true)
unfolding Candidates.get
get_found k rows c h = elim (Option-cases (Table.find Candidates.key k rows)) [
  | inl none_there ↦ cc (rw none_there at h)
  | inr (r, found) ↦ elim (Bool-cases (is_objects r.trajectory)) [
    | inr bad ↦ cc (rw (found, bad) at h)
    | inl fine ↦
        let same : r ≡ c = cc (rw (found, fine) at h) in
        let there : Table.find Candidates.key k rows ≡ some c = found ∙ ap (λ x. some x) same in
        let at_key : c.id ≡ k = Laws.find-key Candidates.key k rows c there in
        (
          subst (λ x. Table.find Candidates.key x rows ≡ some c) (sym at_key) there,
          at_key,
          ap (λ (x : SkillCandidateRecord). is_objects x.trajectory) (sym same) ∙ fine,
        )
  ]
]

-- The status of a row that is there is set.
pub set_status-marked :
    (now : ℕ) (k : String) (status : CandidateStatus) (rows : Candidates.Rows)
    (c : SkillCandidateRecord)
    → Table.find Candidates.key k rows ≡ some c
    → (Candidates.set_status now k status rows).1 ≡ marked now k status rows
unfolding Candidates.set_status
set_status-marked now k status rows c found =
    rw (Found.count-found Candidates.key k rows c found) refl
