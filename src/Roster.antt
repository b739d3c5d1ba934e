-- ===== src/Roster.antt =====
-- RosterService (src/sovereign_ai/kernel/roster.py): a delegation gets authority only through the
-- policy or a human, one requested grant after the other. Each call of a store draws one fresh id
-- and one reading of the clock.
pub mod Profiles
pub mod Delegations
pub mod Resolution
pub mod Frame
pub mod Proposal
pub mod Outcome
pub mod Writes
pub mod Denial
pub mod Branches
pub mod Decision
mod Tests
use achilles.Prelude.{
  ℕ, ◌+◌, String, Bool, true, false, not, ◌&&◌, ◌==◌, Option, none, some, List, [], ◌∷◌, all,
  length, if◌then◌else◌, Result, ok, raised, permission_error, concat, Supply,
}
use achilles.Json
use achilles.Json.{Json, Fields}
use achilles.Policy
use achilles.Policy.{TrustLabel, ActionRequest, PolicyDecision, PolicyEngine}
use achilles.Approvals
use achilles.Approvals.{ApprovalRequestRecord}
use achilles.Grants
use achilles.Grants.{CapabilityGrantRecord}
use achilles.Jobs
use achilles.Jobs.{JobKind, JobRecord}
use achilles.Roster.Delegations.{DelegationStatus, DelegationRecord, RequestedGrant, Terms}

pub record RosterService : Type 0 where
  pub profiles : Profiles.Rows
  pub delegations : Delegations.Rows
  pub grants : Grants.Rows
  pub approvals : Approvals.Rows
  pub jobs : Jobs.Rows
  pub policy : PolicyEngine
  pub drawn : ℕ

-- f"{action}:{scope}"
abbrev pub ceiling_key : RequestedGrant → String
ceiling_key requested = concat requested.action (concat ":" requested.scope)

unfoldable pub within_ceiling : String → List RequestedGrant → Profiles.Rows → Bool
within_ceiling subject_id requests profiles =
    all (λ q. Profiles.has_ceiling subject_id (ceiling_key q) profiles) requests

-- requested.get(key, True)
abbrev pub flag : Option Bool → Bool
flag none = true
flag (some b) = b

abbrev pub action_of : TrustLabel → RequestedGrant → ActionRequest
action_of trust requested = record {
  action = requested.action;
  scope = requested.scope;
  trust = trust;
  mutates_state = flag requested.mutates_state;
  uses_credentials = flag requested.uses_credentials;
}

-- {"delegation_id": delegation.id}
abbrev pub evidence_of : String → Fields
evidence_of delegation_id = Json.field "delegation_id" (Json.text delegation_id) Json.end

-- What becomes of one requested grant: a human is asked, the policy grants it, or it is refused.
pub data Verdict : Type 0 where
  asked granted refused : Verdict

unfoldable pub keep_approval :
    RosterService → Result (ApprovalRequestRecord × Approvals.Rows) → Result Verdict × RosterService
keep_approval r (raised e) = (raised e, record r { drawn = r.drawn + 1 })
keep_approval r (ok (approval, rows)) =
    (ok Verdict.asked, record r { approvals = rows; drawn = r.drawn + 1 })

unfoldable pub keep_grant :
    RosterService → Result (CapabilityGrantRecord × Grants.Rows) → Result Verdict × RosterService
keep_grant r (raised e) = (raised e, record r { drawn = r.drawn + 1 })
keep_grant r (ok (grant, rows)) =
    (ok Verdict.granted, record r { grants = rows; drawn = r.drawn + 1 })

-- `self.approvals.create(...)`, with its default of a day
unfoldable pub ask :
    Supply
    → String
    → String
    → RequestedGrant
    → PolicyDecision
    → RosterService
    → Result Verdict × RosterService
unfolding keep_approval
ask supply subject_id delegation_id requested decision r = keep_approval r (
    Approvals.create (supply.uuid r.drawn) (supply.clock r.drawn) subject_id requested.action
      requested.scope decision.risk decision.reason (evidence_of delegation_id) 86400 r.approvals)

-- `self.grants.issue(...)`, for an hour
unfoldable pub issue :
    Supply
    → String
    → String
    → String
    → String
    → Option String
    → String
    → RosterService
    → Result Verdict × RosterService
unfolding keep_grant
issue supply subject_id action scope granted_by approval_id delegation_id r = keep_grant r (
    Grants.issue (supply.uuid r.drawn) (supply.clock r.drawn) subject_id action scope granted_by
      approval_id (some delegation_id) 3600 r.grants)

-- One round of the loop over the requested grants.
unfoldable pub request :
    Supply
    → String
    → String
    → RequestedGrant
    → PolicyDecision
    → RosterService
    → Result Verdict × RosterService
unfolding ask issue
request supply subject_id delegation_id requested decision r =
    if decision.approval_required
    then ask supply subject_id delegation_id requested decision r
    else if decision.allowed
    then issue supply subject_id requested.action requested.scope "policy" none delegation_id r
    else (ok Verdict.refused, r)

-- How the loop goes on: `none` is a refusal, else the answer is `all_active`.
abbrev pub go_on :
    Result Verdict × RosterService
    → (Bool → RosterService → Result (Option Bool) × RosterService)
    → Result (Option Bool) × RosterService
go_on (raised e, r) next = (raised e, r)
go_on (ok Verdict.asked, r) next = next false r
go_on (ok Verdict.granted, r) next = next true r
go_on (ok Verdict.refused, r) next = (ok none, r)

unfoldable pub request_all :
    Supply
    → String
    → String
    → TrustLabel
    → (all_active : Bool) → List RequestedGrant
    → RosterService
    → Result (Option Bool) × RosterService
unfolding request
request_all supply subject_id delegation_id trust all_active [] r = (ok (some all_active), r)
request_all supply subject_id delegation_id trust all_active (q ∷ qs) r =
    go_on
      (request supply subject_id delegation_id q (Policy.evaluate r.policy (action_of trust q)) r)
      (λ active s. request_all supply subject_id delegation_id trust (all_active && active) qs s)

abbrev pub Proposed : Type 0
Proposed = Result (DelegationRecord × Option JobRecord) × RosterService

abbrev pub with_job :
    Option JobRecord → RosterService → Result DelegationRecord × Delegations.Rows → Proposed
with_job job r (raised e, rows) = (raised e, record r { delegations = rows; drawn = r.drawn + 1 })
with_job job r (ok delegation, rows) =
    (ok (delegation, job), record r { delegations = rows; drawn = r.drawn + 1 })

unfoldable pub set_status :
    Supply → String → DelegationStatus → Option JobRecord → RosterService → Proposed
set_status supply delegation_id status none r =
    with_job none r
      (Delegations.set_status (supply.clock r.drawn) delegation_id status none r.delegations)
set_status supply delegation_id status (some job) r =
    with_job (some job) r (
      Delegations.set_status (supply.clock r.drawn) delegation_id status (some job.id)
        r.delegations)

-- {"delegation_id": delegation.id, **inputs, "agent_profile_id": subject_id}
abbrev pub job_request : String → Fields → String → Fields
job_request delegation_id inputs subject_id =
    Json.put "agent_profile_id" (Json.text subject_id)
      (Json.merge (Json.field "delegation_id" (Json.text delegation_id) Json.end) inputs)

unfoldable pub keep_job :
    Supply → String → RosterService → Result (JobRecord × Jobs.Rows) → Proposed
unfolding set_status
keep_job supply delegation_id r (raised e) = (raised e, record r { drawn = r.drawn + 1 })
keep_job supply delegation_id r (ok (job, rows)) =
    set_status supply delegation_id DelegationStatus.approved (some job)
      (record r { jobs = rows; drawn = r.drawn + 1 })

-- The job of the delegation, and its status with the job's id.
unfoldable pub approve : Supply → JobKind → String → Fields → String → RosterService → Proposed
unfolding keep_job
approve supply job_kind delegation_id inputs subject_id r = keep_job supply delegation_id r (
    Jobs.create (supply.uuid r.drawn) (supply.clock r.drawn) job_kind
      (job_request delegation_id inputs subject_id) Json.end r.jobs)

-- What follows the loop.
unfoldable pub conclude :
    Supply
    → JobKind
    → String
    → Fields
    → (delegation_id : String) → Result (Option Bool) × RosterService
    → Proposed
unfolding approve set_status
conclude supply job_kind subject_id inputs delegation_id (raised e, r) = (raised e, r)
conclude supply job_kind subject_id inputs delegation_id (ok none, r) =
    set_status supply delegation_id DelegationStatus.rejected none r
conclude supply job_kind subject_id inputs delegation_id (ok (some false), r) =
    set_status supply delegation_id DelegationStatus.awaiting_approval none r
conclude supply job_kind subject_id inputs delegation_id (ok (some true), r) =
    approve supply job_kind delegation_id inputs subject_id r

unfoldable pub propose_created :
    Supply
    → JobKind
    → String
    → Fields
    → List RequestedGrant
    → TrustLabel
    → RosterService
    → Result (DelegationRecord × Delegations.Rows)
    → Proposed
unfolding conclude request_all
propose_created supply job_kind subject_id inputs requests trust r (raised e) =
    (raised e, record r { drawn = r.drawn + 1 })
propose_created supply job_kind subject_id inputs requests trust r (ok (delegation, rows)) =
    conclude supply job_kind subject_id inputs delegation.id (
      request_all supply subject_id delegation.id trust true requests
        (record r { delegations = rows; drawn = r.drawn + 1 }))

unfoldable pub propose_delegation :
    Supply
    → (parent_subject_id objective : String) → List RequestedGrant
    → JobKind
    → Terms
    → TrustLabel
    → RosterService
    → Proposed
unfolding within_ceiling propose_created
propose_delegation supply parent_subject_id objective requests job_kind terms trust r =
    if within_ceiling parent_subject_id requests r.profiles
    then propose_created supply job_kind parent_subject_id terms.inputs requests trust r (
        Delegations.create (supply.uuid r.drawn) (supply.clock r.drawn) parent_subject_id objective
          requests terms r.delegations)
    else (raised permission_error, r)
