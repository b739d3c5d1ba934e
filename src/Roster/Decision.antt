-- ===== src/Roster/Decision.antt =====
-- What a human's decision does to a delegation (`resolve_approval`, kernel/roster.py).
use achilles.Prelude.{
  ℕ, ◌+◌, String, ◌≡◌, refl, sym, ap, ◌∙◌, Bool, true, false, not, ◌&&◌, Option, none, some, Result,
  ok, raised, Bool-cases, inl, inr, Supply, subst,
}
use achilles.Approvals
use achilles.Approvals.{ApprovalRequestRecord}
use achilles.Grants
use achilles.Grants.Revocation.{is_active-revoke_for_delegation}
use achilles.Jobs.{JobRecord}
use achilles.Json
use achilles.Json.{Fields}
use achilles.Table
use achilles.Table.Laws
use achilles.Roster.{RosterService}
use achilles.Roster.Delegations
use achilles.Roster.Delegations.{RequestedGrant, DelegationRecord, DelegationStatus}
use achilles.Roster.Branches.{IsReleased, IsAbout, decide_releases}
use achilles.Roster.Denial.{IsDenied, deny_revokes}
use achilles.Roster.Resolution.{
  Resolved, delegation_id_of, is_awaiting, decide, found_delegation, named_delegation,
  after_resolve, resolve_approval,
}

-- The first steps of `resolve_approval` lead to `decide`, or to an answer without a job.
data Leads (supply : Supply) (who : String) (approved : Bool) (r r' : RosterService)
    (a : ApprovalRequestRecord) (j : Option JobRecord) : Type 0 where
  nowhere :
      j ≡ none
      → ((d : DelegationRecord) → ¬ IsAbout a d r.delegations)
      → Leads supply who approved r r' a j
  decides :
      (approval : ApprovalRequestRecord) (d : DelegationRecord) (s : RosterService)
      → IsAbout approval d r.delegations
      → s.grants ≡ r.grants
      → decide supply who approved approval d s ≡ (ok (a, j), r')
      → Leads supply who approved r r' a j

resolve_approval-Leads :
    (supply : Supply) (approval_id who : String) (approved : Bool) (reason : String)
    (r r' : RosterService) (a : ApprovalRequestRecord) (j : Option JobRecord)
    → resolve_approval supply approval_id who approved reason r ≡ (ok (a, j), r')
    → Leads supply who approved r r' a j
unfolding resolve_approval Delegations.get
resolve_approval-Leads supply approval_id who approved reason r r' a j h =
    after
      (Approvals.resolve (supply.clock r.drawn) (supply.clock (r.drawn + 1)) approval_id who
        approved reason r.approvals)
      h
  where
    module_state : Approvals.Rows → RosterService
    module_state rows = record r { approvals = rows; drawn = r.drawn + 2 }

    at_none :
        (approval : ApprovalRequestRecord) (rows : Approvals.Rows)
        → ((d : DelegationRecord) → ¬ IsAbout approval d r.delegations)
        → ◌≡◌ {A = Resolved} (ok (approval, none), module_state rows) (ok (a, j), r')
        → Leads supply who approved r r' a j
    at_none approval rows nothing g =
        let same : approval ≡ a = cc (g) in
        Leads.nowhere (cc (g))
          (subst (λ x. (d : DelegationRecord) → ¬ IsAbout x d r.delegations) same nothing)

    at_found :
        (approval : ApprovalRequestRecord) (rows : Approvals.Rows) (k : String)
        → delegation_id_of (Json.get approval.evidence "delegation_id") ≡ some k
        → (o : Option DelegationRecord) → Table.find Delegations.key k r.delegations ≡ o
        → found_delegation supply who approved approval o (module_state rows) ≡ (ok (a, j), r')
        → Leads supply who approved r r' a j
    at_found approval rows k named none e g = at_none approval rows none_there g
      where
        none_there : (d : DelegationRecord) → ¬ IsAbout approval d r.delegations
        none_there d about =
            let same : some k ≡ some d.id = sym named ∙ about.named in
            let same_id : k ≡ d.id = cc (same) in
            let lost : none ≡ some d =
              sym e ∙ ap (λ x. Table.find Delegations.key x r.delegations) same_id ∙ about.found in
            cc (lost)
    at_found approval rows k named (some d) e g =
        let same : d.id ≡ k = Laws.find-key Delegations.key k r.delegations d e in
        Leads.decides approval d (module_state rows)
          (record {
            named = named ∙ ap (λ x. some x) (sym same);
            found = ap (λ x. Table.find Delegations.key x r.delegations) same ∙ e;
          })
          refl g

    at_name :
        (approval : ApprovalRequestRecord) (rows : Approvals.Rows) (n : Option String)
        → delegation_id_of (Json.get approval.evidence "delegation_id") ≡ n
        → named_delegation supply who approved approval n (module_state rows) ≡ (ok (a, j), r')
        → Leads supply who approved r r' a j
    at_name approval rows none e g = at_none approval rows (λ d about. cc (e, about.named)) g
    at_name approval rows (some k) e g =
        at_found approval rows k e (Table.find Delegations.key k r.delegations) refl g

    after :
        (c : Result ApprovalRequestRecord × Approvals.Rows)
        → after_resolve supply who approved r c ≡ (ok (a, j), r')
        → Leads supply who approved r r' a j
    after (raised e, rows) g = cc
    after (ok approval, rows) g =
        at_name approval rows (delegation_id_of (Json.get approval.evidence "delegation_id")) refl g

same_delegation :
    (a : ApprovalRequestRecord) (x d : DelegationRecord) (rows : Delegations.Rows)
    → IsAbout a x rows
    → IsAbout a d rows
    → x ≡ d
same_delegation a x d rows f g =
    let ids : some x.id ≡ some d.id = sym f.named ∙ g.named in
    let same_id : x.id ≡ d.id = cc (ids) in
    let both : some x ≡ some d = sym f.found ∙ ap (λ k. Delegations.get k rows) same_id ∙ g.found in
    cc (both)

decide_denies :
    (supply : Supply) (who : String) (approval a : ApprovalRequestRecord) (x d : DelegationRecord)
    (r s r' : RosterService) (j : Option JobRecord)
    → IsAbout approval x r.delegations
    → IsAbout a d r.delegations
    → is_awaiting d.status ≡ true
    → decide supply who false approval x s ≡ (ok (a, j), r')
    → (x ≡ d) × IsDenied supply approval a x s r' j
unfolding decide
decide_denies supply who approval a x d r s r' j named about waits h =
    elim (Bool-cases (is_awaiting x.status)) [
      | inr n ↦
          let answer : ◌≡◌ {A = Resolved} (ok (approval, none), s) (ok (a, j), r') = rw n at h in
          let same : approval ≡ a = cc (answer) in
          let one : x ≡ d =
            same_delegation a x d r.delegations (subst (λ y. IsAbout y x r.delegations) same named)
              about in
          cc (n, waits, ap (λ (y : DelegationRecord). is_awaiting y.status) one)
      | inl w ↦
          let denied = deny_revokes supply approval a x s r' j (rw w at h) in
          (
            same_delegation a x d r.delegations
                (subst (λ y. IsAbout y x r.delegations) (sym denied.same) named) about,
            denied,
          )
    ]

-- A decision releases a job only by approving, for a delegation that the approval names and that
-- awaited approval, when every grant that it requested was found active, and then the delegation is
-- stored as approved with this very job.
pub job_needs_every_grant :
    (supply : Supply) (approval_id who : String) (approved : Bool) (reason : String)
    (r r' : RosterService) (a : ApprovalRequestRecord) (job : JobRecord)
    → resolve_approval supply approval_id who approved reason r ≡ (ok (a, some job), r')
    → (approved ≡ true)
      × ((d : DelegationRecord) × IsAbout a d r.delegations
          × (is_awaiting d.status ≡ true)
          × IsReleased supply d job r')
job_needs_every_grant supply approval_id who approved reason r r' a job h =
    elim (resolve_approval-Leads supply approval_id who approved reason r r' a (some job) h) [
      | nowhere no_job nothing ↦ cc (no_job)
      | decides approval d s about grants decided ↦
          let (approves, waits, same, released) =
            decide_releases supply who approved approval a d s r' job decided in
          (approves, (d, subst (λ x. IsAbout x d r.delegations) (sym same) about, waits, released))
    ]

-- A denial of what a waiting delegation requested gives no job, stores the delegation as rejected,
-- and leaves exactly the authority that rests on grants of something else.
pub denial_leaves_nothing :
    (supply : Supply) (approval_id who reason : String) (r r' : RosterService)
    (a : ApprovalRequestRecord) (j : Option JobRecord) (d : DelegationRecord)
    → resolve_approval supply approval_id who false reason r ≡ (ok (a, j), r')
    → IsAbout a d r.delegations
    → is_awaiting d.status ≡ true
    → (j ≡ none)
      × ((now_is : DelegationRecord) × (Delegations.get d.id r'.delegations ≡ some now_is)
          × (now_is.status ≡ DelegationStatus.rejected))
      × ((t : ℕ) (subject action scope : String)
          → Grants.is_active t subject action scope r'.grants
            ≡ Table.exists
                (λ g. Grants.authorizes t subject action scope g && not (Grants.belongs_to d.id g))
                r.grants)
denial_leaves_nothing supply approval_id who reason r r' a j d h about waits =
    elim (resolve_approval-Leads supply approval_id who false reason r r' a j h) [
      | nowhere no_job nothing ↦ absurd (nothing d about)
      | decides approval x s named grants decided ↦
          let (one, denied) =
            decide_denies supply who approval a x d r s r' j named about waits decided in
          let same_id : x.id ≡ d.id = ap (λ (y : DelegationRecord). y.id) one in
          let left : r'.grants
              ≡ (Grants.revoke_for_delegation (supply.clock s.drawn) d.id r.grants).1 =
            denied.grants
            ∙ ap (λ k. (Grants.revoke_for_delegation (supply.clock s.drawn) k s.grants).1) same_id
            ∙ ap (λ g. (Grants.revoke_for_delegation (supply.clock s.drawn) d.id g).1) grants in
          (
            denied.no_job,
            (
              denied.now_is,
              ap (λ k. Delegations.get k r'.delegations) (sym same_id) ∙ denied.stored,
              denied.status,
            ),
            λ t subject action scope.
                ap (λ g. Grants.is_active t subject action scope g) left
                ∙ is_active-revoke_for_delegation (supply.clock s.drawn) d.id t subject action scope
                    r.grants,
          )
    ]
