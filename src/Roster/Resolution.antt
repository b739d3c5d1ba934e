-- ===== src/Roster/Resolution.antt =====
-- `resolve_approval` (src/sovereign_ai/kernel/roster.py): what a human's decision does to the
-- delegation that waits for it.
use achilles.Prelude.{
  ℕ, ◌+◌, String, Bool, true, false, ◌==◌, Option, none, some, List, [], ◌∷◌, length, if◌then◌else◌,
  Result, ok, raised, Supply,
}
use achilles.Json
use achilles.Json.{Json, Fields}
use achilles.Approvals
use achilles.Approvals.{ApprovalRequestRecord}
use achilles.Grants
use achilles.Jobs.{JobKind, JobRecord}
use achilles.Roster.{RosterService, Verdict, Proposed, issue, set_status, approve}
use achilles.Roster.Delegations
use achilles.Roster.Delegations.{DelegationStatus, DelegationRecord, RequestedGrant}

abbrev pub Resolved : Type 0
Resolved = Result (ApprovalRequestRecord × Option JobRecord) × RosterService

-- `approval.evidence.get("delegation_id")`, where a missing and an empty text are the same. The
-- service stores texts only under this key.
unfoldable pub delegation_id_of : Option Json → Option String
delegation_id_of (some (Json.text s)) = if s == "" then none else some s
delegation_id_of _ = none

abbrev pub is_awaiting : DelegationStatus → Bool
is_awaiting DelegationStatus.awaiting_approval = true
is_awaiting _ = false

-- The requested grants that are not active, each asked for at its own reading of the clock.
unfoldable pub still_pending :
    Supply → ℕ → String → List RequestedGrant → Grants.Rows → List RequestedGrant
still_pending supply n subject_id [] grants = []
still_pending supply n subject_id (q ∷ qs) grants =
    let rest = still_pending supply (n + 1) subject_id qs grants in
    if Grants.is_active (supply.clock n) subject_id q.action q.scope grants then rest else q ∷ rest

-- The answer to the caller: the approval, with the job if there is one.
abbrev pub answered : ApprovalRequestRecord → Proposed → Resolved
answered approval (raised e, r) = (raised e, r)
answered approval (ok (delegation, job), r) = (ok (approval, job), r)

-- What follows the test of `still_pending`.
unfoldable pub complete :
    Supply
    → ApprovalRequestRecord
    → DelegationRecord
    → List RequestedGrant
    → RosterService
    → Resolved
complete supply approval delegation (q ∷ qs) r = (ok (approval, none), r)
complete supply approval delegation [] r =
    answered approval
      (approve supply JobKind.agent delegation.id delegation.inputs delegation.parent_subject_id r)

-- What follows the new grant.
unfoldable pub after_issue :
    Supply → ApprovalRequestRecord → DelegationRecord → Result Verdict × RosterService → Resolved
unfolding complete still_pending
after_issue supply approval delegation (raised e, r) = (raised e, r)
after_issue supply approval delegation (ok verdict, r) =
    complete supply approval delegation
      (still_pending supply r.drawn delegation.parent_subject_id delegation.requested_grants
        r.grants)
      (record r { drawn = r.drawn + length delegation.requested_grants })

-- A denial: every grant of the delegation is revoked, and it is rejected.
unfoldable pub deny : Supply → ApprovalRequestRecord → DelegationRecord → RosterService → Resolved
deny supply approval delegation r = answered approval (
    set_status supply delegation.id DelegationStatus.rejected none (record r {
      grants = (Grants.revoke_for_delegation (supply.clock r.drawn) delegation.id r.grants).1;
      drawn = r.drawn + 1;
    }))

unfoldable pub decide :
    Supply → String → Bool → ApprovalRequestRecord → DelegationRecord → RosterService → Resolved
unfolding after_issue deny
decide supply resolver_id approved approval delegation r =
    if is_awaiting delegation.status
    then (if approved
        then after_issue supply approval delegation (
            issue supply approval.subject_id approval.action approval.scope resolver_id
              (some approval.id) delegation.id r)
        else deny supply approval delegation r)
    else (ok (approval, none), r)

unfoldable pub found_delegation :
    Supply
    → String
    → Bool
    → ApprovalRequestRecord
    → Option DelegationRecord
    → RosterService
    → Resolved
unfolding decide
found_delegation supply resolver_id approved approval none r = (ok (approval, none), r)
found_delegation supply resolver_id approved approval (some delegation) r =
    decide supply resolver_id approved approval delegation r

unfoldable pub named_delegation :
    Supply → String → Bool → ApprovalRequestRecord → Option String → RosterService → Resolved
unfolding found_delegation
named_delegation supply resolver_id approved approval none r = (ok (approval, none), r)
named_delegation supply resolver_id approved approval (some delegation_id) r =
    found_delegation supply resolver_id approved approval
      (Delegations.get delegation_id r.delegations) r

unfoldable pub after_resolve :
    Supply
    → String
    → Bool
    → RosterService
    → Result ApprovalRequestRecord × Approvals.Rows
    → Resolved
unfolding named_delegation delegation_id_of
after_resolve supply resolver_id approved r (raised e, rows) =
    (raised e, record r { approvals = rows; drawn = r.drawn + 2 })
after_resolve supply resolver_id approved r (ok approval, rows) =
    named_delegation supply resolver_id approved approval
      (delegation_id_of (Json.get approval.evidence "delegation_id"))
      (record r { approvals = rows; drawn = r.drawn + 2 })

unfoldable pub resolve_approval :
    Supply
    → (approval_id resolver_id : String) (approved : Bool) (reason : String) → RosterService
    → Resolved
unfolding after_resolve
resolve_approval supply approval_id resolver_id approved reason r =
    after_resolve supply resolver_id approved r (
      Approvals.resolve (supply.clock r.drawn) (supply.clock (r.drawn + 1)) approval_id resolver_id
        approved reason r.approvals)
