-- ===== src/Roster/Outcome.antt =====
-- The outcome of `propose_delegation` (kernel/roster.py).
use achilles.Prelude.{
  ◌++◌, ℕ, ◌+◌, String, ◌≡◌, refl, sym, ap, Bool, true, false, ◌&&◌, Option, none, some, is_some,
  List, [], ◌∷◌, all, arith, ◌==◌, eq_iff, Result, ok, raised, Bool-cases, inl, inr, ◌⊎◌, Supply,
  concat, subst,
}
use achilles.Grants
use achilles.Policy.{TrustLabel, PolicyEngine, is_untrusted}
use achilles.Policy.Safety.{untrusted_never_mutates}
use achilles.Jobs
use achilles.Jobs.{JobKind, JobRecord}
use achilles.Json
use achilles.Json.{Fields}
use achilles.Roster.{
  RosterService, Proposed, action_of, flag, ceiling_key, job_request, within_ceiling, request_all,
  set_status, keep_job, approve, conclude, propose_created, propose_delegation,
}
use achilles.Roster.Profiles
use achilles.Roster.Delegations
use achilles.Roster.Delegations.{RequestedGrant, DelegationRecord, DelegationStatus, Terms}
use achilles.Roster.Frame.{is_waived}
use achilles.Roster.Proposal.{is_waived_for, Gains, Done, request_all-Done, set_status_concludes}

-- The two ways in which a proposal ends well.
abbrev Ends : Bool → DelegationRecord → Option JobRecord → Jobs.Rows → Jobs.Rows → Type 0
Ends all_active d j old new =
    ((d.status ≡ DelegationStatus.approved) × (is_some j ≡ true) × (all_active ≡ true))
    ⊎ ((d.status ≡ DelegationStatus.awaiting_approval)
        × (j ≡ none)
        × (new ≡ old)
        × (all_active ≡ false))

record IsConclusion (waived : Bool) (r : RosterService) (c : Proposed) : Type 0 where
  grants : c.1.grants ≡ r.grants
  answers :
      (d : DelegationRecord) (j : Option JobRecord)
      → c.0 ≡ ok (d, j)
      → Ends waived d j r.jobs c.1.jobs

approve_concludes :
    (supply : Supply) (job_kind : JobKind) (delegation_id : String) (inputs : Fields)
    (subject_id : String) (r : RosterService)
    → IsConclusion true r (approve supply job_kind delegation_id inputs subject_id r)
unfolding approve
approve_concludes supply job_kind delegation_id inputs subject_id r = go (
    Jobs.create (supply.uuid r.drawn) (supply.clock r.drawn) job_kind
      (job_request delegation_id inputs subject_id) Json.end r.jobs)
  where
    go :
        (c : Result (JobRecord × Jobs.Rows))
        → IsConclusion true r (keep_job supply delegation_id r c)
    go (raised e) = record { grants = refl; answers = λ d j x. cc }
    go (ok (job, rows)) =
        let s : RosterService = record r { jobs = rows; drawn = r.drawn + 1 } in
        let set =
          set_status_concludes supply delegation_id DelegationStatus.approved (some job) s in
        record {
          grants = set.grants;
          answers =
              λ d j x. let (status, same) = set.answers d j x in inl (status, rw same refl, refl);
        }

waits_concludes :
    (supply : Supply) (delegation_id : String) (r : RosterService)
    → IsConclusion false r
        (set_status supply delegation_id DelegationStatus.awaiting_approval none r)
waits_concludes supply delegation_id r =
    let set = set_status_concludes supply delegation_id DelegationStatus.awaiting_approval none r in
    record {
      grants = set.grants;
      answers =
          λ d j x. let (status, same) = set.answers d j x in inr (status, same, set.jobs, refl);
    }

-- The whole of a proposal: what is new among the grants, and how it ends.
record IsProposal (policy : PolicyEngine) (trust : TrustLabel) (subject_id : String)
    (requests : List RequestedGrant) (r : RosterService) (c : Proposed) : Type 0 where
  gains : Gains policy trust subject_id requests r.grants c.1.grants
  answers :
      (d : DelegationRecord) (j : Option JobRecord)
      → c.0 ≡ ok (d, j)
      → Ends (all (is_waived policy trust) requests) d j r.jobs c.1.jobs

module _ (supply : Supply) (job_kind : JobKind) (subject_id : String) (inputs : Fields)
    (requests : List RequestedGrant) (trust : TrustLabel) (policy : PolicyEngine) where
  conclusion_proposes :
      (w : Bool) (r s : RosterService) (c : Proposed)
      → IsConclusion w s c
      → w ≡ all (is_waived policy trust) requests
      → s.jobs ≡ r.jobs
      → Gains policy trust subject_id requests r.grants s.grants
      → IsProposal policy trust subject_id requests r c
  conclusion_proposes w r s c done e jobs gains = record {
    gains = subst (λ g. Gains policy trust subject_id requests r.grants g) (sym done.grants) gains;
    answers = λ d j x.
        subst (λ b. Ends b d j r.jobs c.1.jobs) e
          (subst (λ l. Ends w d j l c.1.jobs) jobs (done.answers d j x));
  }

  conclude_proposes :
      (delegation_id : String) (r : RosterService) (c : Result (Option Bool) × RosterService)
      → Done policy trust subject_id true requests r c
      → IsProposal policy trust subject_id requests r
          (conclude supply job_kind subject_id inputs delegation_id c)
  unfolding conclude
  conclude_proposes k r (raised e, s) done = record { gains = done.gains; answers = λ d j x. cc }
  conclude_proposes k r (ok none, s) done = absurd (done.never_refuses refl)
  conclude_proposes k r (ok (some false), s) done =
      conclusion_proposes false r s _ (waits_concludes supply k s) (done.answers false refl)
        done.frame.jobs done.gains
  conclude_proposes k r (ok (some true), s) done =
      conclusion_proposes true r s _ (approve_concludes supply job_kind k inputs subject_id s)
        (done.answers true refl) done.frame.jobs done.gains

  created_proposes :
      (r : RosterService) (c : Result (DelegationRecord × Delegations.Rows))
      → r.policy ≡ policy
      → IsProposal policy trust subject_id requests r
          (propose_created supply job_kind subject_id inputs requests trust r c)
  unfolding propose_created
  created_proposes r (raised e) p = record {
    gains = λ t who action scope h. inl h;
    answers = λ d j x. cc;
  }
  created_proposes r (ok (d, rows)) p =
      let s : RosterService = record r { delegations = rows; drawn = r.drawn + 1 } in
      let whole =
        conclude_proposes d.id s (request_all supply subject_id d.id trust true requests s)
          (request_all-Done supply subject_id d.id trust policy true requests s p) in
      record { gains = whole.gains; answers = whole.answers }

module _ (supply : Supply) (subject_id objective : String) (requests : List RequestedGrant)
    (job_kind : JobKind) (terms : Terms) (trust : TrustLabel) (r : RosterService) where
  abbrev proposal : Proposed
  proposal = propose_delegation supply subject_id objective requests job_kind terms trust r

  proposes : IsProposal r.policy trust subject_id requests r proposal
  unfolding propose_delegation
  proposes = elim (Bool-cases (within_ceiling subject_id requests r.profiles)) [
    | inl e ↦ rw e (
        created_proposes supply job_kind subject_id terms.inputs requests trust r.policy r
          (Delegations.create (supply.uuid r.drawn) (supply.clock r.drawn) subject_id objective
            requests terms r.delegations)
          refl)
    | inr n ↦ rw n (record { gains = λ t who action scope h. inl h; answers = λ d j x. cc })
  ]

within_ceiling_covers :
    (subject_id : String) (policy : PolicyEngine) (trust : TrustLabel)
    (requests : List RequestedGrant) (profiles : Profiles.Rows) (action scope : String)
    → within_ceiling subject_id requests profiles ≡ true
    → is_waived_for policy trust requests action scope ≡ true
    → Profiles.has_ceiling subject_id (concat action (concat ":" scope)) profiles ≡ true
unfolding within_ceiling
within_ceiling_covers who policy trust [] profiles action scope h w = cc
within_ceiling_covers who policy trust (q ∷ qs) profiles action scope h w =
    elim (Bool-cases (q.action == action && q.scope == scope)) [
      | inl e ↦
          let same_action : q.action ≡ action = ground (arith, e, eq_iff q.action action) in
          let same_scope : q.scope ≡ scope = ground (arith, e, eq_iff q.scope scope) in
          let covered : Profiles.has_ceiling who (ceiling_key q) profiles ≡ true =
            ground (arith, h) in
          rw (same_action, same_scope) at covered
      | inr n ↦
          within_ceiling_covers who policy trust qs profiles action scope (ground (arith, h))
            (ground (arith, n, w))
    ]

module _ (supply : Supply) (subject_id objective : String) (requests : List RequestedGrant)
    (job_kind : JobKind) (terms : Terms) (trust : TrustLabel) (r : RosterService) where
  -- Whatever a proposal ends with, the authority that is new belongs to its own subject, is under
  -- the subject's ceiling, and is for an action and scope that it requested and for which the policy
  -- waives an approval.
  pub proposal_gains_waived_only :
      (t : ℕ) (who action scope : String)
      → Grants.is_active t who action scope
          (propose_delegation supply subject_id objective requests job_kind terms trust r).1.grants
        ≡ true
      → (Grants.is_active t who action scope r.grants ≡ true)
        ⊎ ((who ≡ subject_id)
            × (Profiles.has_ceiling subject_id (concat action (concat ":" scope)) r.profiles ≡ true)
            × (is_waived_for r.policy trust requests action scope ≡ true))
  unfolding propose_delegation
  proposal_gains_waived_only t who action scope h =
      elim (Bool-cases (within_ceiling subject_id requests r.profiles)) [
        | inr n ↦ inl (rw n at h)
        | inl e ↦
            elim ((proposes supply subject_id objective requests job_kind terms trust r).gains t who
              action scope h) [
                | inl was ↦ inl was
                | inr (me, w) ↦ inr (
                  me,
                  within_ceiling_covers subject_id r.policy trust requests r.profiles action scope e
                      w,
                  w,
                )
              ]
      ]

  -- A proposal that returns is never rejected: it is approved, with a job, if the policy waives the
  -- approval of every requested grant, and else it awaits approval, without a job.
  pub proposal_ends :
      (d : DelegationRecord) (j : Option JobRecord) (r' : RosterService)
      → propose_delegation supply subject_id objective requests job_kind terms trust r
        ≡ (ok (d, j), r')
      → ((d.status ≡ DelegationStatus.approved)
          × (is_some j ≡ true)
          × (all (is_waived r.policy trust) requests ≡ true))
        ⊎ ((d.status ≡ DelegationStatus.awaiting_approval)
            × (j ≡ none)
            × (r'.jobs ≡ r.jobs)
            × (all (is_waived r.policy trust) requests ≡ false))
  proposal_ends d j r' h =
      let whole = proposes supply subject_id objective requests job_kind terms trust r in
      subst (λ s. Ends (all (is_waived r.policy trust) requests) d j r.jobs s)
        (ap (λ (x : Proposed). x.1.jobs) h) (whole.answers d j (ap (λ (x : Proposed). x.0) h))

  -- An untrusted proposal with a request that leaves `mutates_state` at its default, or sets it, waits
  -- for a human if it returns: there is no job, and no new one in the journal.
  pub untrusted_proposal_waits :
      (q : RequestedGrant) (before after : List RequestedGrant) (d : DelegationRecord)
      (j : Option JobRecord) (r' : RosterService)
      → is_untrusted trust ≡ true
      → requests ≡ before ++ q ∷ after
      → flag q.mutates_state ≡ true
      → propose_delegation supply subject_id objective requests job_kind terms trust r
        ≡ (ok (d, j), r')
      → (d.status ≡ DelegationStatus.awaiting_approval) × (j ≡ none) × (r'.jobs ≡ r.jobs)
  untrusted_proposal_waits q before after d j r' u split mutates h = elim (proposal_ends d j r' h) [
    | inr (status, none_yet, jobs, _) ↦ (status, none_yet, jobs)
    | inl (_, _, waived) ↦ cc (rw split at waived, not_all_waived before)
  ]
    where
      refused : is_waived r.policy trust q ≡ false
      refused = rw ((untrusted_never_mutates r.policy (action_of trust q) u (inl mutates)).0) refl

      not_all_waived :
          (xs : List RequestedGrant) → all (is_waived r.policy trust) (xs ++ q ∷ after) ≡ false
      not_all_waived [] = rw refused refl
      not_all_waived (x ∷ xs) = rw (not_all_waived xs) (ground arith)
