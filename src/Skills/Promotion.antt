-- ===== src/Skills/Promotion.antt =====
-- When a promotion succeeds, and how its versions are numbered
-- (src/sovereign_ai/kernel/skill_service.py).
use achilles.Prelude.{
  ℕ, String, ◌≡◌, ◌↔◌, ◌⊎◌, refl, true, Option, none, some, ◌==◌, eq_refl, Result, ok, Result-cases,
  Bool-cases, inl, inr,
}
use achilles.Table
use achilles.Table.Laws
use achilles.Table.Found
use achilles.Skills.{
  CandidateStatus, EvaluationVerdict, SkillCandidateRecord, AgentEvaluationRecord,
  SkillVersionRecord, is_objects,
}
use achilles.Skills.Candidates
use achilles.Skills.Evaluations
use achilles.Skills.Versions
use achilles.Skills.Service.{Skills, is_open, passed, admit, promote, promote_passed}
use achilles.Skills.Latest.{IsLatest, latest_for_candidate-IsLatest}
use achilles.Skills.Numbers
use achilles.Skills.Numbers.{IsNumbered}
use achilles.Skills.Change.{Change, get_found}
use achilles.Skills.Reach.{Reach, Reach-kept}

-- The candidate is waiting for a decision, and its latest evaluation passed it: the row that no
-- evaluation of it is younger than, and of those of one time the last that was inserted.
abbrev pub IsPromotable : Skills → String → Type 0
IsPromotable s k =
    (c : SkillCandidateRecord) × (e : AgentEvaluationRecord) × (Candidates.get k s.candidates
      ≡ ok (some c))
    × ((c.status ≡ CandidateStatus.proposed) ⊎ (c.status ≡ CandidateStatus.evaluated))
    × IsLatest k s.evaluations e
    × (e.verdict ≡ EvaluationVerdict.pass)

open_cases :
    (st : CandidateStatus)
    → is_open st ≡ true
    → (st ≡ CandidateStatus.proposed) ⊎ (st ≡ CandidateStatus.evaluated)
open_cases CandidateStatus.proposed h = inl refl
open_cases CandidateStatus.evaluated h = inr refl
open_cases CandidateStatus.promoted h = cc (h)
open_cases CandidateStatus.rejected h = cc (h)

is_open-cases :
    (st : CandidateStatus)
    → (st ≡ CandidateStatus.proposed) ⊎ (st ≡ CandidateStatus.evaluated)
    → is_open st ≡ true
is_open-cases st (inl e) = rw e refl
is_open-cases st (inr e) = rw e refl

set_status_ok :
    (now : ℕ) (status : CandidateStatus) (rows : Candidates.Rows) (c : SkillCandidateRecord)
    → Table.find Candidates.key c.id rows ≡ some c
    → is_objects c.trajectory ≡ true
    → (Candidates.set_status now c.id status rows).0 ≡ ok (Candidates.with_status now status c)
unfolding Candidates.set_status Candidates.get
set_status_ok now status rows c found fine =
    rw
      (
        Found.count-found Candidates.key c.id rows c found,
        Laws.find-update Candidates.key (λ r. r.id == c.id) (Candidates.with_status now status)
            (λ r. refl) c.id rows,
        found,
        eq_refl c.id,
        fine,
      )
      refl

module _ (id : String) (now later : ℕ) (candidate_id name promoted_by : String) (s : Skills) where
  abbrev pub answer : Result SkillVersionRecord
  answer = (promote id now later candidate_id name promoted_by s).0

  promotable_ok :
      Table.find Versions.key id s.versions ≡ none
      → IsPromotable s candidate_id
      → (v : SkillVersionRecord) × (answer ≡ ok v)
  unfolding promote admit
  promotable_ok new (c, e, got, waits, last, verdict) =
      let (found, same, fine) = get_found candidate_id s.candidates c got in
      let is = is_open-cases c.status waits in
      let latest = (latest_for_candidate-IsLatest candidate_id s.evaluations e).1 last in
      (
        Versions.next_version id now name c.id e.id c.trajectory promoted_by s.versions,
        rw
            (
              answer,
              promote,
              got,
              is,
              latest,
              verdict,
              admit,
              Numbers.create_new id now name c.id e.id c.trajectory promoted_by s.versions fine new,
              set_status_ok later CandidateStatus.promoted s.candidates c found fine,
            )
            refl,
      )

  passed_ok :
      (c : SkillCandidateRecord) (latest : Option AgentEvaluationRecord) (v : SkillVersionRecord)
      → (promote_passed id now later name promoted_by c (passed latest) s).0 ≡ ok v
      → (e : AgentEvaluationRecord) × (latest ≡ some e) × (e.verdict ≡ EvaluationVerdict.pass)
  passed_ok c none v h = cc
  passed_ok c (some e) v h = (e, refl, by_verdict e.verdict refl)
    where
      by_verdict : (w : EvaluationVerdict) → e.verdict ≡ w → e.verdict ≡ EvaluationVerdict.pass
      by_verdict EvaluationVerdict.pass is = is
      by_verdict EvaluationVerdict.fail is = cc (rw is at h)

  answer-IsPromotable : (v : SkillVersionRecord) → answer ≡ ok v → IsPromotable s candidate_id
  unfolding promote
  answer-IsPromotable v h = elim (Result-cases (Candidates.get candidate_id s.candidates)) [
    | inl (e, refused) ↦ cc (rw (answer, promote, refused) at h)
    | inr (none, unknown) ↦ cc (rw (answer, promote, unknown) at h)
    | inr (some c, got) ↦ elim (Bool-cases (is_open c.status)) [
      | inr closed ↦ cc (rw (answer, promote, got, closed) at h)
      | inl is ↦
          let (e, latest, verdict) =
            passed_ok c (Evaluations.latest_for_candidate candidate_id s.evaluations) v
              (rw (answer, promote, got, is) at h) in
          (
            c,
            e,
            got,
            open_cases c.status is,
            (latest_for_candidate-IsLatest candidate_id s.evaluations e).0 latest,
            verdict,
          )
    ]
  ]

  -- Under a new id, a promotion returns a version exactly if the candidate is there, is neither promoted
  -- nor rejected, and its latest evaluation passed it.
  pub promote_iff :
      Table.find Versions.key id s.versions ≡ none
      → ((v : SkillVersionRecord) × (answer ≡ ok v)) ↔ IsPromotable s candidate_id
  promote_iff new = ((λ (v, h). answer-IsPromotable v h), promotable_ok new)

change-IsNumbered :
    (k : String) (s s' : Skills) → Change s s' → IsNumbered k s.versions → IsNumbered k s'.versions
change-IsNumbered k s s' Change.nothing h = h
change-IsNumbered k s s' (Change.proposed _ _ _) h = h
change-IsNumbered k s s' (Change.evaluated _ _ _ _) h = h
change-IsNumbered k s s' (Change.first_evaluated _ _ _ _ _ _ _) h = h
change-IsNumbered k s s' (Change.rejected _ _ _ _) h = h
change-IsNumbered k s s' (Change.promoted c e id now later name promoted_by _ _ _ _) h =
    Numbers.append-IsNumbered id now name c.id e.id c.trajectory promoted_by s.versions k h

-- Whatever calls are made, the versions of a name are numbered 1, 2 and so on, in the order of their
-- promotion.
pub Reach-IsNumbered : {s : Skills} → Reach s → (name : String) → IsNumbered name s.versions
unfolding Table.select Table.maximum Numbers.up_to
Reach-IsNumbered r name =
    Reach-kept (λ s. IsNumbered name s.versions) refl (change-IsNumbered name) r
