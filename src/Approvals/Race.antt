-- ===== src/Approvals/Race.antt =====
-- Two callers of `resolve` (kernel/approvals.py), one of them between the other's tests and its
-- UPDATE: the server and the CLI share the database.
use achilles.Prelude.{ℕ, String, ◌≡◌, Bool, true, some, ok, arith, eq_iff}
use achilles.Approvals.{
  ApprovalRequestRecord, Rows, is_pending, get, decide, resolve_check, resolve_write, after_check,
}
use achilles.Approvals.Decisions.{get-resolve_write, get-id}

get-write_open :
    (now : ℕ) (rid who : String) (approve : Bool) (why : String) (rows : Rows)
    (r : ApprovalRequestRecord)
    → get rid rows ≡ some r
    → is_pending r.status ≡ true
    → get rid (resolve_write now rid who approve why rows) ≡ some (decide now who approve why r)
get-write_open now rid who approve why rows r found p =
    rw (get-resolve_write, found) (ground (arith, eq_iff r.id rid, get-id rid rows r found))

-- Two callers have passed the tests on the same pending request. The first one's decision is the
-- one that is stored; the second call does not raise, and returns the first one's decision.
pub late_resolver_gets_other_decision :
    (rows : Rows) (rid : String) (r : ApprovalRequestRecord) (t₁ t₂ : ℕ) (first second : String)
    (approve₁ approve₂ : Bool) (why₁ why₂ : String)
    → resolve_check rid rows ≡ ok r
    → (after_check t₂ rid second approve₂ why₂
        (resolve_write t₁ rid first approve₁ why₁ rows)
        (ok r)).0
      ≡ ok (decide t₁ first approve₁ why₁ r)
unfolding after_check resolve_check
late_resolver_gets_other_decision rows rid r t₁ t₂ first second approve₁ approve₂ why₁ why₂ h =
    rw (get-resolve_write, stored) (ground arith)
  where
    stored :
        get rid (resolve_write t₁ rid first approve₁ why₁ rows)
        ≡ some (decide t₁ first approve₁ why₁ r)
    stored = get-write_open t₁ rid first approve₁ why₁ rows r (ground arith) (ground arith)
