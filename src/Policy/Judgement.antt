-- ===== src/Policy/Judgement.antt =====
-- What `PolicyEngine.evaluate` (kernel/policy.py) decides of every request, in the words of its
-- tests.
use achilles.Prelude.{
  String, ◌≡◌, ◌↔◌, refl, ap, true, false, not, ◌||◌, ◌&&◌, ◌==◌, Option, none, some, List, ◌∷◌,
  ◌++◌, ◌⊎◌, inl, inr, All, All-map, arith, eq_iff, Bool-cases,
}
use achilles.Policy.{
  TrustLabel, RiskLevel, ActionRequest, PolicyDecision, PolicyEngine, Rule, is_untrusted,
  is_sensitive_action, is_untrusted_mutation, action_matches, scope_matches, rule_matches,
  rule_decision, evaluate,
}
use achilles.Policy.Safety.{Decided, evaluate_complete}

-- The request comes from content that nobody vouches for.
abbrev pub IsUntrusted : ActionRequest → Type 0
IsUntrusted req =
    (req.trust ≡ TrustLabel.untrusted_web)
    ⊎ (req.trust ≡ TrustLabel.untrusted_email)
    ⊎ (req.trust ≡ TrustLabel.untrusted_document)
    ⊎ (req.trust ≡ TrustLabel.untrusted_model_output)
    ⊎ (req.trust ≡ TrustLabel.untrusted_collaboration)

-- It changes something, uses a credential or names a sensitive action.
abbrev pub IsMutation : ActionRequest → Type 0
IsMutation req =
    (req.mutates_state ≡ true)
    ⊎ (req.uses_credentials ≡ true)
    ⊎ (req.action ≡ "execute")
    ⊎ (req.action ≡ "credential")
    ⊎ (req.action ≡ "delete")
    ⊎ (req.action ≡ "network_post")

-- A rule matches where it names the action, or none, and the scope, any scope, or none.
abbrev pub IsMatching : ActionRequest → Rule → Type 0
IsMatching req r =
    ((r.match_action ≡ none) ⊎ (r.match_action ≡ some req.action))
    × ((r.match_scope ≡ none) ⊎ (r.match_scope ≡ some "any") ⊎ (r.match_scope ≡ some req.scope))

-- The decision on a request that the first test let pass.
pub data IsRuled (engine : PolicyEngine) (req : ActionRequest) (d : PolicyDecision) : Type 0 where
  by_rule :
      (before after : List Rule) (r : Rule)
      → engine.rules ≡ before ++ r ∷ after
      → All (λ s. ¬ IsMatching req s) before
      → IsMatching req r
      → d.allowed ≡ true
      → d.approval_required ≡ r.approval
      → d.risk ≡ r.risk
      → d.verifier ≡ r.verify
      → d.reveal_secret_to_model ≡ r.reveal
      → IsRuled engine req d
  by_default :
      All (λ s. ¬ IsMatching req s) engine.rules
      → d.allowed ≡ not engine.fail_closed
      → d.approval_required ≡ true
      → d.risk ≡ RiskLevel.high
      → d.verifier ≡ none
      → d.reveal_secret_to_model ≡ false
      → IsRuled engine req d

-- The request is refused, or the first rule that matches decides, or the default does.
pub data IsJudged (engine : PolicyEngine) (req : ActionRequest) (d : PolicyDecision) : Type 0 where
  refused :
      IsUntrusted req
      → IsMutation req
      → d.allowed ≡ false
      → d.approval_required ≡ true
      → d.risk ≡ RiskLevel.critical
      → d.verifier ≡ none
      → d.reveal_secret_to_model ≡ false
      → IsJudged engine req d
  passed : ¬ (IsUntrusted req × IsMutation req) → IsRuled engine req d → IsJudged engine req d

IsUntrusted-cases :
    (req : ActionRequest)
    → ((is_untrusted req.trust ≡ true) × IsUntrusted req)
      ⊎ ((is_untrusted req.trust ≡ false) × ¬ IsUntrusted req)
unfolding is_untrusted
IsUntrusted-cases req = go req.trust refl
  where
    trusted : (t : TrustLabel) → req.trust ≡ t → is_untrusted t ≡ false → ¬ IsUntrusted req
    trusted t e n (inl w) = cc (e, n, w)
    trusted t e n (inr (inl w)) = cc (e, n, w)
    trusted t e n (inr (inr (inl w))) = cc (e, n, w)
    trusted t e n (inr (inr (inr (inl w)))) = cc (e, n, w)
    trusted t e n (inr (inr (inr (inr w)))) = cc (e, n, w)

    go :
        (t : TrustLabel)
        → req.trust ≡ t
        → ((is_untrusted t ≡ true) × IsUntrusted req)
          ⊎ ((is_untrusted t ≡ false) × ¬ IsUntrusted req)
    go TrustLabel.trusted_user e = inr (refl, trusted TrustLabel.trusted_user e refl)
    go TrustLabel.trusted_local e = inr (refl, trusted TrustLabel.trusted_local e refl)
    go TrustLabel.untrusted_web e = inl (refl, inl e)
    go TrustLabel.untrusted_email e = inl (refl, inr (inl e))
    go TrustLabel.untrusted_document e = inl (refl, inr (inr (inl e)))
    go TrustLabel.untrusted_model_output e = inl (refl, inr (inr (inr (inl e))))
    go TrustLabel.untrusted_collaboration e = inl (refl, inr (inr (inr (inr e))))
    go TrustLabel.execution_result e = inr (refl, trusted TrustLabel.execution_result e refl)
    go TrustLabel.verified_result e = inr (refl, trusted TrustLabel.verified_result e refl)

-- The tests on the flags and on the action are those of `IsMutation`.
IsMutation-iff :
    (req : ActionRequest)
    → ((req.mutates_state || req.uses_credentials || is_sensitive_action req.action) ≡ true)
      ↔ IsMutation req
unfolding is_sensitive_action
IsMutation-iff req = (to, from)
  where
    named : (a : String) → (req.action == a) ≡ true → req.action ≡ a
    named a h = (eq_iff req.action a).0 h

    to :
        (req.mutates_state || req.uses_credentials || is_sensitive_action req.action) ≡ true
        → IsMutation req
    to h = elim (Bool-cases req.mutates_state) [
      | inl e ↦ inl e
      | inr m ↦ elim (Bool-cases req.uses_credentials) [
        | inl e ↦ inr (inl e)
        | inr c ↦ elim (Bool-cases (req.action == "execute")) [
          | inl e ↦ inr (inr (inl (named "execute" e)))
          | inr x ↦ elim (Bool-cases (req.action == "credential")) [
            | inl e ↦ inr (inr (inr (inl (named "credential" e))))
            | inr y ↦ elim (Bool-cases (req.action == "delete")) [
              | inl e ↦ inr (inr (inr (inr (inl (named "delete" e)))))
              | inr z ↦ inr (inr (inr (inr (inr (named "network_post" (rw (m, c, x, y, z) at h))))))
            ]
          ]
        ]
      ]
    ]

    from :
        IsMutation req
        → (req.mutates_state || req.uses_credentials || is_sensitive_action req.action) ≡ true
    from (inl e) = ground (arith, e)
    from (inr (inl e)) = ground (arith, e)
    from (inr (inr (inl e))) = ground (arith, (eq_iff req.action "execute").1 e)
    from (inr (inr (inr (inl e)))) = ground (arith, (eq_iff req.action "credential").1 e)
    from (inr (inr (inr (inr (inl e))))) = ground (arith, (eq_iff req.action "delete").1 e)
    from (inr (inr (inr (inr (inr e))))) = ground (arith, (eq_iff req.action "network_post").1 e)

IsUntrusted-IsMutation_cases :
    (req : ActionRequest)
    → ((is_untrusted_mutation req ≡ true) → IsUntrusted req × IsMutation req)
      × ((is_untrusted_mutation req ≡ false) → ¬ (IsUntrusted req × IsMutation req))
unfolding is_untrusted_mutation
IsUntrusted-IsMutation_cases req = elim (IsUntrusted-cases req) [
  | inl (u, is) ↦ (
    (λ h. (is, (IsMutation-iff req).0 (rw u at h))),
    (λ h (_, m). cc (rw u at h, (IsMutation-iff req).1 m)),
  )
  | inr (n, is_not) ↦ ((λ h. cc (rw n at h)), (λ h (u, _). is_not u))
]

some_inj : (s t : String) → ◌≡◌ {A = Option String} (some s) (some t) → s ≡ t
some_inj s t h = cc (h)

rule_matches_iff : (req : ActionRequest) (r : Rule) → (rule_matches req r ≡ true) ↔ IsMatching req r
unfolding rule_matches action_matches scope_matches
rule_matches_iff req r = (to r.match_action r.match_scope, from r.match_action r.match_scope)
  where
    Matching : Option String → Option String → Type 0
    Matching a s =
        ((a ≡ none) ⊎ (a ≡ some req.action))
        × ((s ≡ none) ⊎ (s ≡ some "any") ⊎ (s ≡ some req.scope))

    to_scope :
        (s : Option String)
        → scope_matches s req.scope ≡ true
        → (s ≡ none) ⊎ (s ≡ some "any") ⊎ (s ≡ some req.scope)
    to_scope none h = inl refl
    to_scope (some m) h = elim (Bool-cases (m == "any")) [
      | inl e ↦ inr (inl (ap (λ x. some x) ((eq_iff m "any").0 e)))
      | inr n ↦ inr (inr (ap (λ x. some x) ((eq_iff m req.scope).0 (rw n at h))))
    ]

    to_action :
        (a : Option String)
        → action_matches a req.action ≡ true
        → (a ≡ none) ⊎ (a ≡ some req.action)
    to_action none h = inl refl
    to_action (some m) h = inr (ap (λ x. some x) ((eq_iff m req.action).0 h))

    to :
        (a s : Option String)
        → (action_matches a req.action && scope_matches s req.scope) ≡ true
        → Matching a s
    to a s h = elim (Bool-cases (action_matches a req.action)) [
      | inl e ↦ (to_action a e, to_scope s (rw e at h))
      | inr n ↦ cc (rw n at h)
    ]

    from_action :
        (a : Option String)
        → (a ≡ none) ⊎ (a ≡ some req.action)
        → action_matches a req.action ≡ true
    from_action none h = refl
    from_action (some m) (inl e) = cc (e)
    from_action (some m) (inr e) = (eq_iff m req.action).1 (some_inj m req.action e)

    from_scope :
        (s : Option String)
        → (s ≡ none) ⊎ (s ≡ some "any") ⊎ (s ≡ some req.scope)
        → scope_matches s req.scope ≡ true
    from_scope none h = refl
    from_scope (some m) (inl e) = cc (e)
    from_scope (some m) (inr (inl e)) = rw ((eq_iff m "any").1 (some_inj m "any" e)) refl
    from_scope (some m) (inr (inr e)) =
        ground (arith, (eq_iff m req.scope).1 (some_inj m req.scope e))

    from :
        (a s : Option String)
        → Matching a s
        → (action_matches a req.action && scope_matches s req.scope) ≡ true
    from a s (x, y) = rw (from_action a x, from_scope s y) refl

not-IsMatching : (req : ActionRequest) (r : Rule) → rule_matches req r ≡ false → ¬ IsMatching req r
not-IsMatching req r n m = cc (n, (rule_matches_iff req r).1 m)

ruled :
    (engine : PolicyEngine) (req : ActionRequest) (d : PolicyDecision)
    → Decided engine req d
    → IsRuled engine req d
unfolding rule_decision
ruled engine req d (Decided.by_rule r f e) =
    IsRuled.by_rule f.before f.after r f.split
      (All-map (λ s. rule_matches req s ≡ false) (λ s. ¬ IsMatching req s) (not-IsMatching req)
        f.before f.skipped)
      ((rule_matches_iff req r).0 f.matches) (rw e refl) (rw e refl) (rw e refl) (rw e refl)
      (rw e refl)
ruled engine req d (Decided.by_default n e) =
    IsRuled.by_default
      (All-map (λ s. rule_matches req s ≡ false) (λ s. ¬ IsMatching req s) (not-IsMatching req)
        engine.rules n)
      (rw e refl) (rw e refl) (rw e refl) (rw e refl) (rw e refl)

-- Whatever the rules say, content of one of the five untrusted labels never obtains a change of
-- state, a credential or one of the four sensitive actions: the decision is no allowance, needs
-- approval, is of critical risk and reveals no secret. Every other request gets the verdict of the
-- first rule that names its action or none and its scope, any scope or none, and where no rule does,
-- the default: allowed only if the policy does not fail closed, with approval, at high risk and with
-- no secret revealed.
pub evaluate-IsJudged :
    (engine : PolicyEngine) (req : ActionRequest) → IsJudged engine req (evaluate engine req)
evaluate-IsJudged engine req = elim (evaluate_complete engine req) [
  | inl (m, e) ↦
      let (u, is) = (IsUntrusted-IsMutation_cases req).0 m in
      IsJudged.refused u is (rw e refl) (rw e refl) (rw e refl) (rw e refl) (rw e refl)
  | inr (n, d) ↦
      IsJudged.passed ((IsUntrusted-IsMutation_cases req).1 n)
        (ruled engine req (evaluate engine req) d)
]
