-- ===== src/Roster/Denial.antt =====
-- What a denial leaves behind (src/sovereign_ai/kernel/roster.py).
use achilles.Prelude.{◌+◌, ◌≡◌, refl, sym, ap, ◌∙◌, Option, none, some, ok, raised, Supply}
use achilles.Approvals.{ApprovalRequestRecord}
use achilles.Grants
use achilles.Jobs.{JobRecord}
use achilles.Roster.{RosterService, Proposed, set_status}
use achilles.Roster.Delegations
use achilles.Roster.Delegations.{RequestedGrant, DelegationRecord, DelegationStatus}
use achilles.Roster.Resolution.{Resolved, answered, deny}
use achilles.Roster.Writes.{with_job_sets}

-- What a denial leaves behind.
pub record IsDenied (supply : Supply) (approval a : ApprovalRequestRecord) (d : DelegationRecord)
    (r r' : RosterService) (j : Option JobRecord) : Type 0 where
  pub same : a ≡ approval
  pub no_job : j ≡ none
  pub grants : r'.grants ≡ (Grants.revoke_for_delegation (supply.clock r.drawn) d.id r.grants).1
  pub now_is : DelegationRecord
  pub stored : Delegations.get d.id r'.delegations ≡ some now_is
  pub status : now_is.status ≡ DelegationStatus.rejected

pub deny_revokes :
    (supply : Supply) (approval a : ApprovalRequestRecord) (d : DelegationRecord)
    (r r' : RosterService) (j : Option JobRecord)
    → deny supply approval d r ≡ (ok (a, j), r')
    → IsDenied supply approval a d r r' j
unfolding deny set_status
deny_revokes supply approval a d r r' j h =
    go (set_status supply d.id DelegationStatus.rejected none revoked) refl h
  where
    revoked : RosterService
    revoked = record r {
      grants = (Grants.revoke_for_delegation (supply.clock r.drawn) d.id r.grants).1;
      drawn = r.drawn + 1;
    }

    go :
        (c : Proposed)
        → set_status supply d.id DelegationStatus.rejected none revoked ≡ c
        → answered approval c ≡ (ok (a, j), r')
        → IsDenied supply approval a d r r' j
    go (raised e, s) f g = cc
    go (ok (x, i), s) f g =
        let (none_made, same, kept) =
          with_job_sets (supply.clock (r.drawn + 1)) d.id DelegationStatus.rejected none none
            revoked s x i f in
        let state : s ≡ r' = ap (λ (y : Resolved). y.1) g in
        let answer : i ≡ j = cc (g) in
        record {
          same = cc (g);
          no_job = sym answer ∙ none_made;
          grants = sym (ap (λ (y : RosterService). y.grants) state) ∙ same;
          now_is = x;
          stored =
              sym (ap (λ (y : RosterService). Delegations.get d.id y.delegations) state)
              ∙ kept.kept;
          status = ap (λ (y : DelegationRecord). y.status) kept.is_written;
        }
