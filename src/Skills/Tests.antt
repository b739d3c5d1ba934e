-- ===== src/Skills/Tests.antt =====
-- Runs and witnesses for the skills (src/sovereign_ai/kernel/skill_service.py).
use achilles.Prelude.{
  ℕ, ◌≡◌, ◌↔◌, refl, none, some, [], ◌∷◌, ok, raised, skill_promotion_error, value_error,
}
use achilles.Prelude.Order.{insertion_sort}
use achilles.Json
use achilles.Json.{Items, Fields, field, text, array, object, cons, nil}
use achilles.Jobs.{JobStatus}
use achilles.Runs.{RunRecord}
use achilles.Table
use achilles.Skills.{
  CandidateStatus, EvaluationVerdict, SkillCandidateRecord, AgentEvaluationRecord,
  SkillVersionRecord, is_objects,
}
use achilles.Skills.Candidates
use achilles.Skills.Service.{Skills, propose_from_run, record_evaluation, promote}
use achilles.Skills.Numbers.{IsNumbered}
use achilles.Skills.Reach.{Reach}
use achilles.Skills.Evidence.{IsSound, versions_are_justified}
use achilles.Skills.Promotion.{IsPromotable, promote_iff, Reach-IsNumbered}

abbrev steps : Items
steps = cons (object (field "tool" (text "read_file") Json.end)) nil

abbrev run : RunRecord
run = record {
  id = "r1";
  job_id = "j1";
  attempt = 1;
  status = JobStatus.succeeded;
  request = Json.end;
  result = some (field "steps" (array steps) Json.end);
  error = none;
  created_at = 1;
  updated_at = 2;
  started_at = some 1;
  finished_at = some 2;
  metadata = Json.end;
}

abbrev empty : Skills
empty = record { candidates = []; evaluations = []; versions = [] }

abbrev candidate : CandidateStatus → ℕ → SkillCandidateRecord
candidate status now = record {
  id = "c1";
  source_run_id = "r1";
  objective = "report";
  trajectory = steps;
  proposed_by = "alice";
  status = status;
  created_at = 3;
  updated_at = now;
}

abbrev evaluation : AgentEvaluationRecord
evaluation = record {
  id = "e1";
  skill_candidate_id = "c1";
  verdict = EvaluationVerdict.pass;
  evidence = Json.end;
  evaluated_by = "bob";
  created_at = 4;
}

abbrev version : SkillVersionRecord
version = record {
  id = "v1";
  name = "reporting";
  version = 1;
  skill_candidate_id = "c1";
  evaluation_id = "e1";
  trajectory = steps;
  promoted_by = "carol";
  created_at = 6;
}

abbrev evaluated : Skills
evaluated = record {
  candidates = candidate CandidateStatus.evaluated 5 ∷ [];
  evaluations = evaluation ∷ [];
  versions = [];
}

abbrev promoted : Skills
promoted = record {
  candidates = candidate CandidateStatus.promoted 7 ∷ [];
  evaluations = evaluation ∷ [];
  versions = version ∷ [];
}

propose_runs : propose_from_run "c1" 3 (run ∷ []) "r1" "report" "alice" empty ≡ (
  ok (candidate CandidateStatus.proposed 3),
  record {
    candidates = candidate CandidateStatus.proposed 3 ∷ [];
    evaluations = [];
    versions = [];
  },
)
unfolding propose_from_run Table.insert Table.find Json.get is_objects
propose_runs = refl

promote_runs : promote "v1" 6 7 "c1" "reporting" "carol" evaluated ≡ (ok version, promoted)
unfolding promote Table.insert Table.find Table.exists Table.select Table.maximum Table.update
    Table.count is_objects
promote_runs = refl

-- A second promotion is refused.
promote_again :
    promote "v2" 8 9 "c1" "other" "carol" promoted ≡ (raised skill_promotion_error, promoted)
unfolding promote Table.find is_objects
promote_again = refl

-- Steps that are no objects are stored, and then no candidate can be listed.
abbrev bad_run : RunRecord
bad_run = record run {
  result = some (field "steps" (array (cons (text "read_file") nil)) Json.end);
}

bad_steps_are_stored : propose_from_run "c2" 3 (bad_run ∷ []) "r1" "report" "alice" empty ≡ (
  raised value_error,
  record {
    candidates =
        Candidates.fresh_candidate "c2" 3 "r1" "report" (cons (text "read_file") nil) "alice" ∷ [];
    evaluations = [];
    versions = [];
  },
)
unfolding propose_from_run Table.insert Table.find Json.get is_objects
bad_steps_are_stored = refl

list_is_broken :
    Candidates.list none
      (Candidates.fresh_candidate "c2" 3 "r1" "report" (cons (text "read_file") nil) "alice" ∷ [])
    ≡ raised value_error
unfolding Candidates.list is_objects insertion_sort
list_is_broken = refl

abbrev reached : Skills
reached =
    (promote "v1" 6 7 "c1" "reporting" "carol"
      (record_evaluation "e1" 4 5 "c1" EvaluationVerdict.pass "bob" none
        (propose_from_run "c1" 3 (run ∷ []) "r1" "report" "alice" empty).1).1).1

abbrev history : Reach reached
history = Reach.promotion "v1" 6 7 "c1" "reporting" "carol" (
    Reach.evaluate "e1" 4 5 "c1" EvaluationVerdict.pass "bob" none
      (Reach.propose "c1" 3 (run ∷ []) "r1" "report" "alice" Reach.start))

reached_runs : reached ≡ promoted
unfolding propose_from_run record_evaluation promote Table.insert Table.find Table.exists
    Table.select Table.maximum Table.update Table.count Table.add Json.get is_objects
reached_runs = refl

versions_are_justified_example : IsSound reached
versions_are_justified_example = versions_are_justified history

Reach-IsNumbered_example : IsNumbered "reporting" reached.versions
Reach-IsNumbered_example = Reach-IsNumbered history "reporting"

promote_iff_example :
    ((v : SkillVersionRecord) × ((promote "v1" 6 7 "c1" "reporting" "carol" evaluated).0 ≡ ok v))
    ↔ IsPromotable evaluated "c1"
unfolding Table.find
promote_iff_example = promote_iff "v1" 6 7 "c1" "reporting" "carol" evaluated refl
