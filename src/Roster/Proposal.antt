-- ===== src/Roster/Proposal.antt =====
-- What a proposed delegation gains (kernel/roster.py).
use achilles.Prelude.{
  ℕ, ◌+◌, String, ◌≡◌, ◌≢◌, refl, ◌∙◌, Bool, true, false, ◌&&◌, Option, none, some, List, [], ◌∷◌,
  all, any, arith, ◌==◌, eq_iff, ltb, Result, ok, raised, Bool-cases, inl, inr, ◌⊎◌, Supply, subst,
}
use achilles.Grants
use achilles.Grants.Active.{is_active-issue}
use achilles.Policy
use achilles.Policy.{TrustLabel, PolicyEngine, is_untrusted}
use achilles.Jobs.{JobRecord}
use achilles.Roster.{
  RosterService, Verdict, Proposed, action_of, request, go_on, request_all, with_job, set_status,
}
use achilles.Roster.Delegations
use achilles.Roster.Delegations.{RequestedGrant, DelegationRecord, DelegationStatus, Terms}
use achilles.Roster.Delegations.Status.{write-status, set_status_stores}
use achilles.Roster.Frame.{
  IsFrame, IsFrame-refl, IsFrame-trans, is_waived, Handled, request_handles,
}

-- One of the requested grants is for this action and scope, and the policy waives its approval.
abbrev pub is_waived_for : PolicyEngine → TrustLabel → List RequestedGrant → String → String → Bool
is_waived_for policy trust requests action scope =
    any (λ q. q.action == action && q.scope == scope && is_waived policy trust q) requests

-- Every grant that is new in the table is one that the policy waived, for the subject itself.
abbrev pub Gains :
    PolicyEngine → TrustLabel → String → List RequestedGrant → Grants.Rows → Grants.Rows → Type 0
Gains policy trust subject_id requests old new =
    (t : ℕ) (who action scope : String)
    → Grants.is_active t who action scope new ≡ true
    → (Grants.is_active t who action scope old ≡ true)
      ⊎ ((who ≡ subject_id) × (is_waived_for policy trust requests action scope ≡ true))

-- What the loop over the requested grants has done when it ends.
pub record Done (policy : PolicyEngine) (trust : TrustLabel) (subject_id : String)
    (all_active : Bool) (requests : List RequestedGrant) (r : RosterService)
    (c : Result (Option Bool) × RosterService) : Type 0 where
  pub frame : IsFrame r c.1
  pub answers :
      (b : Bool) → c.0 ≡ ok (some b) → b ≡ (all_active && all (is_waived policy trust) requests)
  pub never_refuses : c.0 ≢ ok none
  pub gains : Gains policy trust subject_id requests r.grants c.1.grants

same-Gains :
    (policy : PolicyEngine) (trust : TrustLabel) (subject_id : String)
    (requests : List RequestedGrant) (old new : Grants.Rows)
    → new ≡ old
    → Gains policy trust subject_id requests old new
same-Gains policy trust subject_id requests old new e t who action scope h =
    inl (subst (λ rows. Grants.is_active t who action scope rows ≡ true) e h)

later-Gains :
    (policy : PolicyEngine) (trust : TrustLabel) (subject_id : String) (q : RequestedGrant)
    (requests : List RequestedGrant) (old mid new : Grants.Rows)
    → mid ≡ old
    → Gains policy trust subject_id requests mid new
    → Gains policy trust subject_id (q ∷ requests) old new
later-Gains policy trust subject_id q requests old mid new e g t who action scope h =
    elim (g t who action scope h) [
      | inl was ↦ inl (subst (λ rows. Grants.is_active t who action scope rows ≡ true) e was)
      | inr (me, w) ↦ inr (me, rw w (ground arith))
    ]

issued-Gains :
    (supply : Supply) (policy : PolicyEngine) (trust : TrustLabel)
    (subject_id delegation_id : String) (q : RequestedGrant) (requests : List RequestedGrant)
    (n : ℕ) (old mid new : Grants.Rows) (g : Grants.CapabilityGrantRecord)
    → is_waived policy trust q ≡ true
    → Grants.issue
        (supply.uuid n)
        (supply.clock n)
        subject_id
        q.action
        q.scope
        "policy"
        none
        (some delegation_id)
        3600
        old
      ≡ ok (g, mid)
    → Gains policy trust subject_id requests mid new
    → Gains policy trust subject_id (q ∷ requests) old new
issued-Gains supply policy trust subject_id delegation_id q requests n old mid new g w issued gains
      t who action scope h =
    elim (gains t who action scope h) [
      | inr (me, later) ↦ inr (me, rw later (ground arith))
      | inl was ↦ elim (Bool-cases (Grants.is_active t who action scope old)) [
        | inl before ↦ inl before
        | inr fresh ↦
            let this : (subject_id == who
                  && q.action == action
                  && q.scope == scope
                  && ltb t (supply.clock n + 3600))
                ≡ true =
              rw
                (
                  is_active-issue (supply.uuid n) (supply.clock n) subject_id q.action q.scope
                      "policy" none (some delegation_id) 3600 old g t who action scope issued,
                  fresh,
                )
                at was in
            inr (ground (arith, this, eq_iff subject_id who), rw w (ground (arith, this)))
      ]
    ]

granted_and : (a b : Bool) → ((a && true) && b) ≡ (a && b)
granted_and true b = refl
granted_and false b = refl

module _ (supply : Supply) (subject_id delegation_id : String) (trust : TrustLabel)
    (policy : PolicyEngine) where
  pub request_all-Done :
      (all_active : Bool) (requests : List RequestedGrant) (r : RosterService)
      → r.policy ≡ policy
      → Done policy trust subject_id all_active requests r
          (request_all supply subject_id delegation_id trust all_active requests r)
  unfolding request_all
  request_all-Done a [] r p = record {
    frame = IsFrame-refl r;
    answers = λ b e. ground arith;
    never_refuses = λ e. cc;
    gains = same-Gains policy trust subject_id [] r.grants r.grants refl;
  }
  request_all-Done a (q ∷ qs) r p =
      go
        (request supply subject_id delegation_id q (Policy.evaluate r.policy (action_of trust q)) r)
        (subst
          (λ w. Handled supply subject_id delegation_id q (is_waived w trust q) r (
            request supply subject_id delegation_id q (Policy.evaluate r.policy (action_of trust q))
              r))
          p (request_handles supply subject_id delegation_id trust q r))
        (λ b s e. request_all-Done b qs s e)
    where
      go :
          (c : Result Verdict × RosterService)
          → Handled supply subject_id delegation_id q (is_waived policy trust q) r c
          → ((b : Bool) (s : RosterService)
              → s.policy ≡ policy
              → Done policy trust subject_id b qs s
                  (request_all supply subject_id delegation_id trust b qs s))
          → Done policy trust subject_id a (q ∷ qs) r (
              go_on c
                (λ active s. request_all supply subject_id delegation_id trust (a && active) qs s))
      go _ (Handled.fails e s frame same) ih = record {
        frame = frame;
        answers = λ b x. cc;
        never_refuses = λ x. cc;
        gains = same-Gains policy trust subject_id (q ∷ qs) r.grants s.grants same;
      }
      go _ (Handled.asks s w frame same) ih =
          let d = ih (a && false) s (frame.policy ∙ p) in
          record {
            frame = IsFrame-trans r s _ frame d.frame;
            answers = λ b x. d.answers b x ∙ (rw w (ground arith));
            never_refuses = d.never_refuses;
            gains = later-Gains policy trust subject_id q qs r.grants s.grants _ same d.gains;
          }
      go _ (Handled.grants s g w frame issued) ih =
          let d = ih (a && true) s (frame.policy ∙ p) in
          record {
            frame = IsFrame-trans r s _ frame d.frame;
            answers =
                λ b x. d.answers b x ∙ (rw w (granted_and a (all (is_waived policy trust) qs)));
            never_refuses = d.never_refuses;
            gains =
                issued-Gains supply policy trust subject_id delegation_id q qs r.drawn r.grants
                  s.grants _ g w issued d.gains;
          }

-- What a status that is set leaves alone, and what it answers.
pub record IsConcluded (status : DelegationStatus) (job : Option JobRecord) (r : RosterService)
    (c : Proposed) : Type 0 where
  pub grants : c.1.grants ≡ r.grants
  pub jobs : c.1.jobs ≡ r.jobs
  pub answers :
      (d : DelegationRecord) (j : Option JobRecord)
      → c.0 ≡ ok (d, j)
      → (d.status ≡ status) × (j ≡ job)

with_job_concludes :
    (supply : Supply) (delegation_id : String) (status : DelegationStatus)
    (child_job_id : Option String) (job : Option JobRecord) (r : RosterService)
    → IsConcluded status job r (
        with_job job r (
          Delegations.set_status
            (supply.clock r.drawn)
            delegation_id
            status
            child_job_id
            r.delegations))
with_job_concludes supply delegation_id status child_job_id job r =
    go
      (Delegations.set_status (supply.clock r.drawn) delegation_id status child_job_id
        r.delegations)
      refl
  where
    go :
        (c : Result DelegationRecord × Delegations.Rows)
        → Delegations.set_status
            (supply.clock r.drawn)
            delegation_id
            status
            child_job_id
            r.delegations
          ≡ c
        → IsConcluded status job r (with_job job r c)
    go (raised e, rows) h = record { grants = refl; jobs = refl; answers = λ d j x. cc }
    go (ok x, rows) h = record {
      grants = refl;
      jobs = refl;
      answers = λ d j e.
          let stored =
            set_status_stores (supply.clock r.drawn) delegation_id status child_job_id r.delegations
              rows x h in
          (
            cc (
              e,
              stored.is_written,
              write-status (supply.clock r.drawn) status child_job_id stored.old,
            ),
            cc (e),
          );
    }

pub set_status_concludes :
    (supply : Supply) (delegation_id : String) (status : DelegationStatus) (job : Option JobRecord)
    (r : RosterService)
    → IsConcluded status job r (set_status supply delegation_id status job r)
unfolding set_status
set_status_concludes supply delegation_id status none r =
    with_job_concludes supply delegation_id status none none r
set_status_concludes supply delegation_id status (some job) r =
    with_job_concludes supply delegation_id status (some job.id) (some job) r
