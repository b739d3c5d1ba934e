-- ===== src/Skills/Evidence.antt =====
-- What stands behind each version of a skill (src/sovereign_ai/kernel/skill_service.py).
use achilles.Prelude.{
  ℕ, String, ◌≡◌, ◌≢◌, refl, ◌∙◌, true, none, some, [], ◌∷◌, ◌++◌, ◌==◌, eq_iff, eq_refl, All,
  All-map, All-append, Bool-cases, inl, inr,
}
use achilles.Table
use achilles.Table.{IsKeyed}
use achilles.Table.Laws
use achilles.Table.Found
use achilles.Skills.{
  CandidateStatus, EvaluationVerdict, SkillCandidateRecord, AgentEvaluationRecord,
  SkillVersionRecord,
}
use achilles.Skills.Candidates
use achilles.Skills.Evaluations
use achilles.Skills.Versions
use achilles.Skills.Service.{Skills, is_open}
use achilles.Skills.Change.{Change, marked}
use achilles.Skills.Reach.{Reach, Reach-kept}
use achilles.Skills.Latest.{latest_found}

abbrev pub candidate_of : SkillVersionRecord → String
candidate_of v = v.skill_candidate_id

-- The candidate is there, is promoted, and has the trajectory; the evaluation is there, is of the
-- candidate, and passed it.
abbrev pub IsJustified : Skills → SkillVersionRecord → Type 0
IsJustified s v =
    (c : SkillCandidateRecord) × (e : AgentEvaluationRecord) × (Table.find Candidates.key
        v.skill_candidate_id s.candidates
      ≡ some c)
    × (c.status ≡ CandidateStatus.promoted)
    × (c.trajectory ≡ v.trajectory)
    × (Table.find Evaluations.key v.evaluation_id s.evaluations ≡ some e)
    × (e.skill_candidate_id ≡ v.skill_candidate_id)
    × (e.verdict ≡ EvaluationVerdict.pass)

-- Every version is justified, and no two are of one candidate.
abbrev pub IsSound : Skills → Type 0
IsSound s =
    IsKeyed Evaluations.key s.evaluations
    × All (IsJustified s) s.versions
    × IsKeyed candidate_of s.versions

module _ (s s' : Skills) where
  -- The promoted candidates and the evaluations of `s` are there in `s'`.
  abbrev Keeps : Type 0
  Keeps =
      ((k : String) (c : SkillCandidateRecord)
        → Table.find Candidates.key k s.candidates ≡ some c
        → c.status ≡ CandidateStatus.promoted
        → Table.find Candidates.key k s'.candidates ≡ some c)
      × ((k : String) (e : AgentEvaluationRecord)
          → Table.find Evaluations.key k s.evaluations ≡ some e
          → Table.find Evaluations.key k s'.evaluations ≡ some e)

  IsJustified-kept : Keeps → (v : SkillVersionRecord) → IsJustified s v → IsJustified s' v
  IsJustified-kept (candidates, evaluations) v (c, e, there, is, same, evidence, of_c, pass) = (
    c,
    e,
    candidates v.skill_candidate_id c there is,
    is,
    same,
    evaluations v.evaluation_id e evidence,
    of_c,
    pass,
  )

-- A candidate that is not promoted can be marked.
marked_kept :
    (now : ℕ) (status : CandidateStatus) (rows : Candidates.Rows) (c : SkillCandidateRecord)
    → Table.find Candidates.key c.id rows ≡ some c
    → c.status ≢ CandidateStatus.promoted
    → (k : String) (d : SkillCandidateRecord) → Table.find Candidates.key k rows ≡ some d
    → d.status ≡ CandidateStatus.promoted
    → Table.find Candidates.key k (marked now c.id status rows) ≡ some d
marked_kept now status rows c found not_promoted k d there is =
    Laws.find-update Candidates.key (λ r. r.id == c.id) (Candidates.with_status now status)
      (λ r. refl) k rows
    ∙ rw there (elim (Bool-cases (d.id == c.id)) [
      | inr other ↦ rw other refl
      | inl same ↦
          let at_k : d.id ≡ k = Laws.find-key Candidates.key k rows d there in
          let d_is_c : some d ≡ some c = cc ((eq_iff d.id c.id).0 same, at_k, found, there) in
          absurd (not_promoted (cc (d_is_c, is)))
    ])

appended_kept :
    (rows : Evaluations.Rows) (x : AgentEvaluationRecord) (k : String) (e : AgentEvaluationRecord)
    → Table.find Evaluations.key k rows ≡ some e
    → Table.find Evaluations.key k (rows ++ x ∷ []) ≡ some e
appended_kept rows x k e h = Found.find-append_old Evaluations.key k rows e x h

-- A candidate that is not promoted has no version.
no_version :
    (s : Skills) (c : SkillCandidateRecord) (versions : Versions.Rows)
    → Table.find Candidates.key c.id s.candidates ≡ some c
    → c.status ≢ CandidateStatus.promoted
    → All (IsJustified s) versions
    → Table.find candidate_of c.id versions ≡ none
unfolding Table.find
no_version s c [] found is h = refl
no_version s c (v ∷ versions) found is ((d, _, there, promoted, _, _, _, _), h) =
    elim (Bool-cases (v.skill_candidate_id == c.id)) [
      | inr other ↦ rw other (no_version s c versions found is h)
      | inl same ↦
          let d_is_c : some d ≡ some c =
            cc ((eq_iff v.skill_candidate_id c.id).0 same, found, there) in
          absurd (is (cc (d_is_c, promoted)))
    ]

open_not_promoted :
    (status : CandidateStatus) → is_open status ≡ true → status ≢ CandidateStatus.promoted
open_not_promoted CandidateStatus.proposed h = λ e. cc (e)
open_not_promoted CandidateStatus.evaluated h = λ e. cc (e)
open_not_promoted CandidateStatus.promoted h = cc
open_not_promoted CandidateStatus.rejected h = cc

-- Each step of the pipeline keeps its state sound.
change-IsSound : (s s' : Skills) → Change s s' → IsSound s → IsSound s'
change-IsSound s s' Change.nothing h = h
change-IsSound s s' (Change.proposed c is new) (keyed, justified, once) = (
  keyed,
  All-map (IsJustified s) (IsJustified s')
      (IsJustified-kept s s' (
        λ k d there _. Found.find-append_old Candidates.key k s.candidates d c there,
        λ k e there. there,
      ))
      s.versions justified,
  once,
)
change-IsSound s s' (Change.evaluated c e found new) (keyed, justified, once) = (
  Laws.IsKeyed-append Evaluations.key e s.evaluations new keyed,
  All-map (IsJustified s) (IsJustified s')
      (IsJustified-kept s s'
        (λ k d there _. there, λ k x there. appended_kept s.evaluations e k x there))
      s.versions justified,
  once,
)
change-IsSound s s' (Change.first_evaluated c e now is found of_c new) (keyed, justified, once) = (
  Laws.IsKeyed-append Evaluations.key e s.evaluations new keyed,
  All-map (IsJustified s) (IsJustified s')
      (IsJustified-kept s s' (
        marked_kept now CandidateStatus.evaluated s.candidates c found (λ p. cc (p, is)),
        λ k x there. appended_kept s.evaluations e k x there,
      ))
      s.versions justified,
  once,
)
change-IsSound s s' (Change.rejected c now is found) (keyed, justified, once) = (
  keyed,
  All-map (IsJustified s) (IsJustified s')
      (IsJustified-kept s s'
        (marked_kept now CandidateStatus.rejected s.candidates c found is, λ k x there. there))
      s.versions justified,
  once,
)
change-IsSound s s' (Change.promoted c e id now later name promoted_by is found latest pass)
      (keyed, justified, once) =
    let not_promoted = open_not_promoted c.status is in
    let v = Versions.next_version id now name c.id e.id c.trajectory promoted_by s.versions in
    let (evidence, of_c) = latest_found c.id s.evaluations e keyed latest in
    (
      keyed,
      All-append (IsJustified s') s.versions (v ∷ [])
          (All-map (IsJustified s) (IsJustified s')
            (IsJustified-kept s s' (
              marked_kept later CandidateStatus.promoted s.candidates c found not_promoted,
              λ k x there. there,
            ))
            s.versions justified)
          (
            (
              Candidates.with_status later CandidateStatus.promoted c,
              e,
              Laws.find-update Candidates.key (λ r. r.id == c.id)
                    (Candidates.with_status later CandidateStatus.promoted) (λ r. refl) c.id
                    s.candidates
                  ∙ rw (found, eq_refl c.id) refl,
              refl,
              refl,
              evidence,
              of_c,
              pass,
            ),
            tt,
          ),
      Laws.IsKeyed-append candidate_of v s.versions
          (no_version s c s.versions found not_promoted justified) once,
    )

-- Whatever calls are made: each version of a skill has a promoted candidate with its trajectory, and
-- an evaluation of that candidate that passed it; and no candidate has two versions.
pub versions_are_justified : {s : Skills} → Reach s → IsSound s
versions_are_justified r = Reach-kept IsSound (tt, tt, tt) change-IsSound r
