-- ===== src/Skills/Reach.antt =====
-- The states that calls of SkillService lead to (src/sovereign_ai/kernel/skill_service.py).
use achilles.Prelude.{ℕ, String, Option, []}
use achilles.Json.{Fields}
use achilles.Runs
use achilles.Skills.{EvaluationVerdict}
use achilles.Skills.Service.{Skills, propose_from_run, record_evaluation, promote, reject}
use achilles.Skills.Change.{Change}
use achilles.Skills.Calls

-- The states that calls of the service lead to, from empty stores.
pub data Reach : Skills → Type 0 where
  start : Reach (record { candidates = []; evaluations = []; versions = [] })
  propose :
      {s : Skills} (id : String) (now : ℕ) (runs : Runs.Rows)
      (run_id objective proposed_by : String)
      → Reach s
      → Reach (propose_from_run id now runs run_id objective proposed_by s).1
  evaluate :
      {s : Skills} (id : String) (now later : ℕ) (candidate_id : String)
      (verdict : EvaluationVerdict) (evaluated_by : String) (evidence : Option Fields)
      → Reach s
      → Reach (record_evaluation id now later candidate_id verdict evaluated_by evidence s).1
  promotion :
      {s : Skills} (id : String) (now later : ℕ) (candidate_id name promoted_by : String)
      → Reach s
      → Reach (promote id now later candidate_id name promoted_by s).1
  rejection :
      {s : Skills} (now : ℕ) (candidate_id : String) → Reach s → Reach (reject now candidate_id s).1

-- A predicate that holds at the start and is kept by each step of the pipeline.
pub Reach-kept :
    (P : Skills → Type 0)
    → P (record { candidates = []; evaluations = []; versions = [] })
    → ((s s' : Skills) → Change s s' → P s → P s')
    → {s : Skills} → Reach s
    → P s
Reach-kept P p step Reach.start = p
Reach-kept P p step (Reach.propose {s} id now runs run_id objective proposed_by r) =
    step s _ (Calls.propose-Change id now runs run_id objective proposed_by s)
      (Reach-kept P p step r)
Reach-kept P p step (Reach.evaluate {s} id now later candidate_id verdict evaluated_by evidence r) =
    step s _
      (Calls.record_evaluation-Change id now later candidate_id verdict evaluated_by evidence s)
      (Reach-kept P p step r)
Reach-kept P p step (Reach.promotion {s} id now later candidate_id name promoted_by r) =
    step s _ (Calls.promote-Change id now later candidate_id name promoted_by s)
      (Reach-kept P p step r)
Reach-kept P p step (Reach.rejection {s} now candidate_id r) =
    step s _ (Calls.reject-Change now candidate_id s) (Reach-kept P p step r)
