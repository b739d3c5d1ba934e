-- ===== src/Roster/Branches.antt =====
-- The branches of `resolve_approval` (kernel/roster.py): a delegation that is approved, or denied.
use achilles.Prelude.{
  ℕ, ◌+◌, String, ◌≡◌, refl, sym, ap, ◌∙◌, Bool, true, some, List, [], ◌∷◌, All, Result, ok, raised,
  Bool-cases, inl, inr, Supply, subst, length,
}
use achilles.Approvals.{ApprovalRequestRecord}
use achilles.Grants
use achilles.Jobs.{JobKind, JobRecord}
use achilles.Json
use achilles.Json.{Fields}
use achilles.Roster.{RosterService, Verdict, Proposed, issue, approve}
use achilles.Roster.Delegations
use achilles.Roster.Delegations.{RequestedGrant, DelegationRecord, DelegationStatus}
use achilles.Roster.Resolution.{
  Resolved, delegation_id_of, is_awaiting, still_pending, answered, complete, after_issue, decide,
}
use achilles.Roster.Writes.{approve_sets}
use achilles.Roster.Denial.{deny_revokes}

-- At one reading of the clock this requested grant was active.
abbrev pub IsGranted : Supply → String → Grants.Rows → RequestedGrant → Type 0
IsGranted supply subject_id grants q =
    (n : ℕ) × (Grants.is_active (supply.clock n) subject_id q.action q.scope grants ≡ true)

nothing_pending :
    (supply : Supply) (n : ℕ) (who : String) (requests : List RequestedGrant) (grants : Grants.Rows)
    → still_pending supply n who requests grants ≡ []
    → All (IsGranted supply who grants) requests
unfolding still_pending
nothing_pending supply n who [] grants h = tt
nothing_pending supply n who (q ∷ qs) grants h =
    elim (Bool-cases (Grants.is_active (supply.clock n) who q.action q.scope grants)) [
      | inl e ↦ ((n, e), nothing_pending supply (n + 1) who qs grants (rw e at h))
      | inr e ↦ cc (rw e at h)
    ]

-- What is true of a delegation when its job is released.
pub record IsReleased (supply : Supply) (d : DelegationRecord) (job : JobRecord)
    (r' : RosterService) : Type 0 where
  pub granted : All (IsGranted supply d.parent_subject_id r'.grants) d.requested_grants
  pub now_is : DelegationRecord
  pub stored : Delegations.get d.id r'.delegations ≡ some now_is
  pub status : now_is.status ≡ DelegationStatus.approved
  pub child : now_is.child_job_id ≡ some job.id

record IsCompleted (approval a : ApprovalRequestRecord) (k : String) (job : JobRecord)
    (r r' : RosterService) : Type 0 where
  same : a ≡ approval
  grants : r'.grants ≡ r.grants
  now_is : DelegationRecord
  stored : Delegations.get k r'.delegations ≡ some now_is
  status : now_is.status ≡ DelegationStatus.approved
  child : now_is.child_job_id ≡ some job.id

complete_releases :
    (supply : Supply) (approval a : ApprovalRequestRecord) (d : DelegationRecord)
    (pending : List RequestedGrant) (r r' : RosterService) (job : JobRecord)
    → complete supply approval d pending r ≡ (ok (a, some job), r')
    → (pending ≡ []) × IsCompleted approval a d.id job r r'
unfolding complete
complete_releases supply approval a d (q ∷ qs) r r' job h = cc
complete_releases supply approval a d [] r r' job h =
    (refl, go (approve supply JobKind.agent d.id d.inputs d.parent_subject_id r) refl h)
  where
    go :
        (c : Proposed)
        → approve supply JobKind.agent d.id d.inputs d.parent_subject_id r ≡ c
        → answered approval c ≡ (ok (a, some job), r')
        → IsCompleted approval a d.id job r r'
    go (raised e, s) f g = cc
    go (ok (x, j), s) f g =
        let (made, (given, same, kept)) =
          approve_sets supply JobKind.agent d.id d.inputs d.parent_subject_id r s x j f in
        let answer : some made ≡ some job = cc (given, g) in
        let made_is : made ≡ job = cc (answer) in
        let state : s ≡ r' = ap (λ (y : Resolved). y.1) g in
        record {
          same = cc (g);
          grants = sym (ap (λ (y : RosterService). y.grants) state) ∙ same;
          now_is = x;
          stored =
              sym (ap (λ (y : RosterService). Delegations.get d.id y.delegations) state)
              ∙ kept.kept;
          status = ap (λ (y : DelegationRecord). y.status) kept.is_written;
          child =
              ap (λ (y : DelegationRecord). y.child_job_id) kept.is_written
              ∙ ap (λ (y : JobRecord). some y.id) made_is;
        }

after_issue_releases :
    (supply : Supply) (approval a : ApprovalRequestRecord) (d : DelegationRecord)
    (c : Result Verdict × RosterService) (r' : RosterService) (job : JobRecord)
    → after_issue supply approval d c ≡ (ok (a, some job), r')
    → (a ≡ approval) × IsReleased supply d job r'
unfolding after_issue
after_issue_releases supply approval a d (raised e, s) r' job h = cc
after_issue_releases supply approval a d (ok v, s) r' job h =
    let (none_left, done) =
      complete_releases supply approval a d
        (still_pending supply s.drawn d.parent_subject_id d.requested_grants s.grants)
        (record s { drawn = s.drawn + length d.requested_grants }) r' job h in
    (
      done.same,
      record {
        granted =
            subst (λ g. All (IsGranted supply d.parent_subject_id g) d.requested_grants)
              (sym done.grants)
              (nothing_pending supply s.drawn d.parent_subject_id d.requested_grants s.grants
                none_left);
        now_is = done.now_is;
        stored = done.stored;
        status = done.status;
        child = done.child;
      },
    )

-- The delegation that an approval names, in the tables before the decision.
pub record IsAbout (approval : ApprovalRequestRecord) (d : DelegationRecord)
    (rows : Delegations.Rows) : Type 0 where
  pub named : delegation_id_of (Json.get approval.evidence "delegation_id") ≡ some d.id
  pub found : Delegations.get d.id rows ≡ some d

pub decide_releases :
    (supply : Supply) (who : String) (approved : Bool) (approval a : ApprovalRequestRecord)
    (d : DelegationRecord) (r r' : RosterService) (job : JobRecord)
    → decide supply who approved approval d r ≡ (ok (a, some job), r')
    → (approved ≡ true)
      × (is_awaiting d.status ≡ true)
      × (a ≡ approval)
      × IsReleased supply d job r'
unfolding decide
decide_releases supply who approved approval a d r r' job h =
    elim (Bool-cases (is_awaiting d.status)) [
      | inr n ↦ cc (rw n at h)
      | inl w ↦ elim (Bool-cases approved) [
        | inr n ↦
            let denied = deny_revokes supply approval a d r r' (some job) (rw (w, n) at h) in
            cc (denied.no_job)
        | inl y ↦
            let (same, released) =
              after_issue_releases supply approval a d
                (issue supply approval.subject_id approval.action approval.scope who
                  (some approval.id) d.id r)
                r' job (rw (w, y) at h) in
            (y, w, same, released)
      ]
    ]
