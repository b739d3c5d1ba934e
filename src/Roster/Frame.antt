-- ===== src/Roster/Frame.antt =====
-- What one requested grant changes while a delegation is proposed (kernel/roster.py).
use achilles.Prelude.{
  ℕ, ◌+◌, String, ◌≡◌, refl, sym, ap, ◌∙◌, Bool, true, false, not, ◌&&◌, ◌||◌, Option, none, some,
  List, [], ◌∷◌, All, all, arith, ◌==◌, eq_iff, ltb, Result, ok, raised, Bool-cases, inl, inr, ◌⊎◌,
  Supply, concat, subst,
}
use achilles.Prelude
use achilles.Approvals
use achilles.Approvals.{ApprovalRequestRecord}
use achilles.Grants
use achilles.Grants.{CapabilityGrantRecord}
use achilles.Policy
use achilles.Policy.{TrustLabel, PolicyDecision, PolicyEngine}
use achilles.Policy.Safety.{refused_needs_approval}
use achilles.Roster.{
  RosterService, Verdict, action_of, evidence_of, keep_approval, keep_grant, request,
}
use achilles.Roster.Delegations.{RequestedGrant}

-- Grants and approvals aside, nothing has changed but the number of calls.
pub record IsFrame (r s : RosterService) : Type 0 where
  pub profiles : s.profiles ≡ r.profiles
  pub delegations : s.delegations ≡ r.delegations
  pub jobs : s.jobs ≡ r.jobs
  pub policy : s.policy ≡ r.policy

pub IsFrame-refl : (r : RosterService) → IsFrame r r
IsFrame-refl r = record { profiles = refl; delegations = refl; jobs = refl; policy = refl }

IsFrame-write :
    (r : RosterService) (grants : Grants.Rows) (approvals : Approvals.Rows)
    → IsFrame r (record r { grants = grants; approvals = approvals; drawn = r.drawn + 1 })
IsFrame-write r grants approvals = record {
  profiles = refl;
  delegations = refl;
  jobs = refl;
  policy = refl;
}

pub IsFrame-trans : (r s t : RosterService) → IsFrame r s → IsFrame s t → IsFrame r t
IsFrame-trans r s t f g = record {
  profiles = g.profiles ∙ f.profiles;
  delegations = g.delegations ∙ f.delegations;
  jobs = g.jobs ∙ f.jobs;
  policy = g.policy ∙ f.policy;
}

-- The policy allows the requested grant without a human.
abbrev pub is_waived : PolicyEngine → TrustLabel → RequestedGrant → Bool
is_waived policy trust q =
    let decision = Policy.evaluate policy (action_of trust q) in
    decision.allowed && not decision.approval_required

-- What `request` may answer with: a human is asked and no grant changes, or the policy waived the
-- approval and this one grant is issued, or a table refused the row and nothing is kept.
pub data Handled (supply : Supply) (subject_id delegation_id : String) (q : RequestedGrant)
    (waived : Bool) (r : RosterService) : Result Verdict × RosterService → Type 0 where
  fails :
      (e : Prelude.Error) (s : RosterService)
      → IsFrame r s
      → s.grants ≡ r.grants
      → Handled supply subject_id delegation_id q waived r (raised e, s)
  asks :
      (s : RosterService)
      → waived ≡ false
      → IsFrame r s
      → s.grants ≡ r.grants
      → Handled supply subject_id delegation_id q waived r (ok Verdict.asked, s)
  grants :
      (s : RosterService) (g : CapabilityGrantRecord)
      → waived ≡ true
      → IsFrame r s
      → Grants.issue
          (supply.uuid r.drawn)
          (supply.clock r.drawn)
          subject_id
          q.action
          q.scope
          "policy"
          none
          (some delegation_id)
          3600
          r.grants
        ≡ ok (g, s.grants)
      → Handled supply subject_id delegation_id q waived r (ok Verdict.granted, s)

-- A decision that comes from `evaluate` never refuses without asking: the third branch of the loop
-- is not reached.
pub request_handles :
    (supply : Supply) (subject_id delegation_id : String) (trust : TrustLabel) (q : RequestedGrant)
    (r : RosterService)
    → Handled supply subject_id delegation_id q
        (is_waived r.policy trust q)
        r
        (request supply subject_id delegation_id q (Policy.evaluate r.policy (action_of trust q)) r)
unfolding request
request_handles supply subject_id delegation_id trust q r =
    go (Policy.evaluate r.policy (action_of trust q))
      (refused_needs_approval r.policy (action_of trust q)) (is_waived r.policy trust q) refl
  where
    asked :
        (w : Bool)
        → w ≡ false
        → (c : Result (ApprovalRequestRecord × Approvals.Rows))
        → Handled supply subject_id delegation_id q w r (keep_approval r c)
    asked w e (raised x) = Handled.fails x _ (IsFrame-write r r.grants r.approvals) refl
    asked w e (ok (a, rows)) = Handled.asks _ e (IsFrame-write r r.grants rows) refl

    issued :
        (w : Bool)
        → w ≡ true
        → (c : Result (CapabilityGrantRecord × Grants.Rows))
        → Grants.issue
            (supply.uuid r.drawn)
            (supply.clock r.drawn)
            subject_id
            q.action
            q.scope
            "policy"
            none
            (some delegation_id)
            3600
            r.grants
          ≡ c
        → Handled supply subject_id delegation_id q w r (keep_grant r c)
    issued w e (raised x) h = Handled.fails x _ (IsFrame-write r r.grants r.approvals) refl
    issued w e (ok (g, rows)) h = Handled.grants _ g e (IsFrame-write r rows r.approvals) h

    go :
        (d : PolicyDecision)
        → (d.allowed ≡ false → d.approval_required ≡ true)
        → (w : Bool) → w ≡ (d.allowed && not d.approval_required)
        → Handled supply subject_id delegation_id q w r
            (request supply subject_id delegation_id q d r)
    go d safe w e = elim (Bool-cases d.approval_required) [
      | inl a ↦ rw a (
          asked w (ground arith) (
            Approvals.create (supply.uuid r.drawn) (supply.clock r.drawn) subject_id q.action
              q.scope d.risk d.reason (evidence_of delegation_id) 86400 r.approvals))
      | inr n ↦ elim (Bool-cases d.allowed) [
        | inl a ↦
            rw (n, a)
              (issued w (ground arith)
                (Grants.issue (supply.uuid r.drawn) (supply.clock r.drawn) subject_id q.action
                  q.scope "policy" none (some delegation_id) 3600 r.grants)
                refl)
        | inr m ↦ cc (n, safe m)
      ]
    ]
