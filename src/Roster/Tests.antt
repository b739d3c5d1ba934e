-- ===== src/Roster/Tests.antt =====
-- Runs and witnesses for the roster.
use achilles.Prelude.{
  sym, subst, concat, ◌⊎◌, nat_eq, ℕ, String, ◌≡◌, refl, true, false, not, ◌&&◌, none, some, Option,
  [], ◌∷◌, ok, if◌then◌else◌, Supply,
}
use achilles.Json
use achilles.Jobs
use achilles.Jobs.{JobKind, JobStatus, JobRecord}
use achilles.Policy
use achilles.Policy.{TrustLabel, RiskLevel, Rule, PolicyEngine}
use achilles.Approvals
use achilles.Approvals.{ApprovalStatus, ApprovalRequestRecord}
use achilles.Grants
use achilles.Table
use achilles.Roster.{
  job_request, issue, approve, set_status, RosterService, evidence_of, propose_delegation,
}
use achilles.Roster.Proposal.{is_waived_for}
use achilles.Roster.Outcome.{proposal_gains_waived_only, untrusted_proposal_waits}
use achilles.Roster.Branches.{IsAbout, IsReleased}
use achilles.Roster.Decision.{job_needs_every_grant, denial_leaves_nothing}
use achilles.Roster.Resolution.{is_awaiting, resolve_approval, delegation_id_of}
use achilles.Roster.Profiles
use achilles.Roster.Profiles.{AgentProfileRecord, AgentProfileStatus}
use achilles.Roster.Delegations
use achilles.Roster.Delegations.{RequestedGrant, DelegationRecord, DelegationStatus, Terms}

abbrev supply : Supply
supply = record {
  uuid = λ n.
      if nat_eq n 0 then "u0" else if nat_eq n 1 then "u1" else if nat_eq n 2 then "u2" else "u9";
  clock = λ n. n;
}

abbrev bob : AgentProfileRecord
bob = record {
  id = "bob";
  display_name = "Bob";
  role = "tester";
  status = AgentProfileStatus.active;
  routing_preferences = Json.end;
  memory_scopes = [];
  budgets = Json.end;
  authority_ceiling = "read:workspace" ∷ "execute:workspace" ∷ [];
  created_at = 0;
  updated_at = 0;
  metadata = Json.end;
}

abbrev reading : RequestedGrant
reading = record {
  action = "read";
  scope = "workspace";
  mutates_state = some false;
  uses_credentials = some false;
}

abbrev executing : RequestedGrant
executing = record {
  action = "execute";
  scope = "workspace";
  mutates_state = none;
  uses_credentials = none;
}

abbrev free_reading : Rule
free_reading = record {
  match_action = some "read";
  match_scope = none;
  approval = false;
  risk = RiskLevel.low;
  verify = none;
  reveal = false;
}

abbrev roster : RosterService
roster = record {
  profiles = bob ∷ [];
  delegations = [];
  grants = [];
  approvals = [];
  jobs = [];
  policy = record { rules = free_reading ∷ []; fail_closed = true };
  drawn = 0;
}

abbrev terms : Terms
terms = record {
  inputs = Json.end;
  expected_artifacts = [];
  acceptance_tests = [];
  deadline = none;
  budget = Json.end;
}

abbrev delegation : DelegationRecord
delegation = record {
  id = "u0";
  parent_subject_id = "bob";
  objective = "test it";
  inputs = Json.end;
  expected_artifacts = [];
  acceptance_tests = [];
  requested_grants = reading ∷ executing ∷ [];
  deadline = none;
  budget = Json.end;
  status = DelegationStatus.awaiting_approval;
  child_job_id = none;
  created_at = 0;
  updated_at = 3;
}

abbrev reading_grant : Grants.CapabilityGrantRecord
reading_grant = record {
  id = "u1";
  subject_id = "bob";
  action = "read";
  scope = "workspace";
  granted_by = "policy";
  approval_request_id = none;
  delegation_id = some "u0";
  created_at = 1;
  expires_at = 3601;
  revoked_at = none;
}

abbrev question : ApprovalRequestRecord
question = record {
  id = "u2";
  subject_id = "bob";
  action = "execute";
  scope = "workspace";
  risk = RiskLevel.critical;
  reason = "Untrusted content cannot directly authorize mutation or credential access.";
  evidence = evidence_of "u0";
  status = ApprovalStatus.pending;
  resolver_id = none;
  resolution_reason = none;
  created_at = 2;
  expires_at = 86402;
  resolved_at = none;
}

abbrev waiting : RosterService
waiting = record roster {
  delegations = delegation ∷ [];
  grants = reading_grant ∷ [];
  approvals = question ∷ [];
  drawn = 4;
}

proposal_runs :
    propose_delegation supply "bob" "test it"
      (reading ∷ executing ∷ [])
      JobKind.agent
      terms
      TrustLabel.untrusted_collaboration
      roster
    ≡ (ok (delegation, none), waiting)
unfolding propose_delegation Policy.evaluate Profiles.has_ceiling Delegations.create
    Delegations.set_status Approvals.create Grants.issue Table.find Table.add Table.update
proposal_runs = refl

abbrev approved : DelegationRecord
approved = record delegation {
  status = DelegationStatus.approved;
  child_job_id = some "u9";
  updated_at = 10;
}

abbrev answered_yes : ApprovalRequestRecord
answered_yes = record question {
  status = ApprovalStatus.approved;
  resolver_id = some "alice";
  resolution_reason = some "fine";
  resolved_at = some 5;
}

abbrev executing_grant : Grants.CapabilityGrantRecord
executing_grant = record reading_grant {
  id = "u9";
  action = "execute";
  granted_by = "alice";
  approval_request_id = some "u2";
  created_at = 6;
  expires_at = 3606;
}

abbrev job : JobRecord
job = record {
  id = "u9";
  kind = JobKind.agent;
  status = JobStatus.queued;
  request = job_request "u0" Json.end "bob";
  result = none;
  error = none;
  cancellation_requested = false;
  created_at = 9;
  updated_at = 9;
  started_at = none;
  finished_at = none;
  metadata = Json.end;
}

abbrev released : RosterService
released = record waiting {
  delegations = approved ∷ [];
  grants = reading_grant ∷ executing_grant ∷ [];
  approvals = answered_yes ∷ [];
  jobs = job ∷ [];
  drawn = 11;
}

approval_runs :
    resolve_approval supply "u2" "alice" true "fine" waiting
    ≡ (ok (answered_yes, some job), released)
unfolding resolve_approval issue approve set_status Approvals.resolve Json.get Delegations.get
    Delegations.set_status Grants.issue Grants.is_active Jobs.create Table.exists Table.find
    Table.add Table.update
approval_runs = refl

job_needs_every_grant_example :
    (true ≡ true)
    × ((d : DelegationRecord) × IsAbout answered_yes d waiting.delegations
        × (is_awaiting d.status ≡ true)
        × IsReleased supply d job released)
job_needs_every_grant_example =
    job_needs_every_grant supply "u2" "alice" true "fine" waiting released answered_yes job
      approval_runs

abbrev answered_no : ApprovalRequestRecord
answered_no = record answered_yes { status = ApprovalStatus.denied }

abbrev denied : RosterService
denied = record waiting {
  delegations = record delegation { status = DelegationStatus.rejected; updated_at = 7 } ∷ [];
  grants = record reading_grant { revoked_at = some 6 } ∷ [];
  approvals = answered_no ∷ [];
  drawn = 8;
}

denial_runs :
    resolve_approval supply "u2" "alice" false "fine" waiting ≡ (ok (answered_no, none), denied)
unfolding resolve_approval set_status Approvals.resolve Json.get Delegations.get
    Delegations.set_status Grants.revoke_for_delegation Table.count Table.find Table.update
denial_runs = refl

about : IsAbout answered_no delegation waiting.delegations
unfolding Json.get Delegations.get Table.find delegation_id_of
about = record { named = refl; found = refl }

denial_leaves_nothing_example :
    (◌≡◌ {A = Option JobRecord} none none)
    × ((now_is : DelegationRecord) × (Delegations.get "u0" denied.delegations ≡ some now_is)
        × (now_is.status ≡ DelegationStatus.rejected))
    × ((t : ℕ) (subject action scope : String)
        → Grants.is_active t subject action scope denied.grants
          ≡ Table.exists
              (λ g. Grants.authorizes t subject action scope g && not (Grants.belongs_to "u0" g))
              waiting.grants)
denial_leaves_nothing_example =
    denial_leaves_nothing supply "u2" "alice" "fine" waiting denied answered_no none delegation
      denial_runs about refl

read_is_active : Grants.is_active 5 "bob" "read" "workspace" waiting.grants ≡ true
unfolding Grants.is_active Table.exists
read_is_active = refl

proposal_gains_waived_only_example :
    (Grants.is_active 5 "bob" "read" "workspace" roster.grants ≡ true)
    ⊎ ((bob.id ≡ "bob")
        × (Profiles.has_ceiling "bob" (concat "read" (concat ":" "workspace")) roster.profiles
            ≡ true)
        × (is_waived_for roster.policy TrustLabel.untrusted_collaboration
              (reading ∷ executing ∷ [])
              "read"
              "workspace"
            ≡ true))
proposal_gains_waived_only_example =
    proposal_gains_waived_only supply "bob" "test it" (reading ∷ executing ∷ []) JobKind.agent terms
      TrustLabel.untrusted_collaboration roster 5 "bob" "read" "workspace"
      (subst (λ x. Grants.is_active 5 "bob" "read" "workspace" x.1.grants ≡ true)
        (sym proposal_runs) read_is_active)

untrusted_proposal_waits_example :
    (delegation.status ≡ DelegationStatus.awaiting_approval)
    × (◌≡◌ {A = Option JobRecord} none none)
    × (waiting.jobs ≡ roster.jobs)
unfolding Policy.is_untrusted
untrusted_proposal_waits_example =
    untrusted_proposal_waits supply "bob" "test it" (reading ∷ executing ∷ []) JobKind.agent terms
      TrustLabel.untrusted_collaboration roster executing (reading ∷ []) [] delegation none waiting
      refl refl refl proposal_runs
