-- ===== src/Approvals/Tests.antt =====
-- Runs and witnesses for the approval store.
use achilles.Prelude.{◌≡◌, refl, true, false, some, none, [], ◌∷◌, ok}
use achilles.Json
use achilles.Table
use achilles.Policy.{RiskLevel}
use achilles.Prelude.Order.{insertion_sort}
use achilles.Approvals.{
  ApprovalStatus, ApprovalRequestRecord, Rows, get, decide, create, list_pending, resolve,
  resolve_check, resolve_write, after_check,
}
use achilles.Approvals.Decisions.{Resolved, resolve-Resolved, Reach, Step, decision_is_final}
use achilles.Approvals.Race.{late_resolver_gets_other_decision}

abbrev asked : ApprovalRequestRecord
asked = record {
  id = "a1";
  subject_id = "bob";
  action = "delete";
  scope = "workspace";
  risk = RiskLevel.high;
  reason = "no rule";
  evidence = Json.end;
  status = ApprovalStatus.pending;
  resolver_id = none;
  resolution_reason = none;
  created_at = 10;
  expires_at = 110;
  resolved_at = none;
}

abbrev rows : Rows
rows = asked ∷ []

create_runs :
    create "a1" 10 "bob" "delete" "workspace" RiskLevel.high "no rule" Json.end 100 []
    ≡ ok (asked, rows)
unfolding create Table.add Table.find
create_runs = refl

-- Past its expiry the request is expired, and no longer listed.
list_pending_expires :
    list_pending 111 rows ≡ ([], record asked { status = ApprovalStatus.expired } ∷ [])
unfolding list_pending Table.select Table.update insertion_sort
list_pending_expires = refl

resolve-Resolved_example :
    Resolved 20 21 "a1" "eve" true "fine" rows (resolve 20 21 "a1" "eve" true "fine" rows)
resolve-Resolved_example = resolve-Resolved 20 21 "a1" "eve" true "fine" rows

abbrev denied : Rows
denied = decide 21 "eve" false "no" asked ∷ []

decision_is_final_example :
    get "a1" (resolve_write 30 "a1" "mallory" true "yes" denied)
    ≡ some (decide 21 "eve" false "no" asked)
unfolding get Table.find
decision_is_final_example =
    decision_is_final "a1" (decide 21 "eve" false "no" asked) {rows = denied} refl refl
      (Reach.next Reach.here (Step.writes denied 30 "a1" "mallory" true "yes"))

late_resolver_gets_other_decision_example :
    (after_check 22 "a1" "mallory" true "yes"
      (resolve_write 21 "a1" "eve" false "no" rows)
      (ok asked)).0
    ≡ ok (decide 21 "eve" false "no" asked)
unfolding resolve_check Table.find
late_resolver_gets_other_decision_example =
    late_resolver_gets_other_decision rows "a1" asked 21 22 "eve" "mallory" false true "no" "yes"
      refl
