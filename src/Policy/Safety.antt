-- ===== src/Policy/Safety.antt =====
-- What `PolicyEngine.evaluate` (kernel/policy.py) guarantees for every configuration.
use achilles.Prelude.{
  ◌≡◌, refl, ap, Bool, true, false, List, [], ◌∷◌, ◌++◌, arith, Bool-cases, inl, inr, All, ◌⊎◌,
}
use achilles.Policy.{
  ActionRequest, PolicyDecision, PolicyEngine, Rule, is_untrusted, is_sensitive_action,
  is_untrusted_mutation, rule_matches, rule_decision, no_rule, refusal, first_match, evaluate,
}

first_match_refusal :
    (fc : Bool) (req : ActionRequest) (rules : List Rule)
    → (first_match fc req rules).allowed ≡ false
    → (first_match fc req rules).approval_required ≡ true
unfolding first_match
first_match_refusal fc req [] h = refl
first_match_refusal fc req (r ∷ rules) h = ground (arith, first_match_refusal fc req rules)

-- Whatever the rules say, a request that `evaluate` does not allow is marked as needing approval.
pub refused_needs_approval :
    (engine : PolicyEngine) (req : ActionRequest)
    → (evaluate engine req).allowed ≡ false
    → (evaluate engine req).approval_required ≡ true
unfolding evaluate
refused_needs_approval engine req h =
    ground (arith, first_match_refusal engine.fail_closed req engine.rules)

-- Rule `r` is the first of `rules` that matches the request.
pub record IsFirst (req : ActionRequest) (rules : List Rule) (r : Rule) : Type 0 where
  pub before : List Rule
  pub after : List Rule
  pub split : rules ≡ before ++ r ∷ after
  pub skipped : All (λ s. rule_matches req s ≡ false) before
  pub matches : rule_matches req r ≡ true

-- How a request that passed the first test was decided.
pub data Decided (engine : PolicyEngine) (req : ActionRequest) (d : PolicyDecision) : Type 0 where
  by_rule : (r : Rule) → IsFirst req engine.rules r → d ≡ rule_decision req r → Decided engine req d
  by_default :
      All (λ s. rule_matches req s ≡ false) engine.rules
      → d ≡ no_rule engine.fail_closed
      → Decided engine req d

abbrev FirstMatch : Bool → ActionRequest → List Rule → Type 0
FirstMatch fc req rules =
    ((r : Rule) × IsFirst req rules r × (first_match fc req rules ≡ rule_decision req r))
    ⊎ (All (λ s. rule_matches req s ≡ false) rules × (first_match fc req rules ≡ no_rule fc))

IsFirst-skip :
    {req : ActionRequest} {rules : List Rule} (s r : Rule)
    → rule_matches req s ≡ false
    → IsFirst req rules r
    → IsFirst req (s ∷ rules) r
IsFirst-skip s r e f = record {
  before = s ∷ f.before;
  after = f.after;
  split = ap (λ l. s ∷ l) f.split;
  skipped = (e, f.skipped);
  matches = f.matches;
}

FirstMatch-found : (fc : Bool) (req : ActionRequest) (rules : List Rule) → FirstMatch fc req rules
unfolding first_match
FirstMatch-found fc req [] = inr (tt, refl)
FirstMatch-found fc req (s ∷ rules) = elim (Bool-cases (rule_matches req s)) [
  | inl e ↦
      inl (s, record { before = []; after = rules; split = refl; skipped = tt; matches = e }, rw e)
  | inr e ↦ elim (FirstMatch-found fc req rules) [
    | inl (r, f, d) ↦ inl (r, IsFirst-skip s r e f, rw e d)
    | inr (none_match, d) ↦ inr ((e, none_match), rw e d)
  ]
]

-- Every decision is the refusal of an untrusted mutation, the verdict of the first rule that
-- matches, or, where none does, that of the default.
pub evaluate_complete :
    (engine : PolicyEngine) (req : ActionRequest)
    → ((is_untrusted_mutation req ≡ true) × (evaluate engine req ≡ refusal))
      ⊎ ((is_untrusted_mutation req ≡ false) × Decided engine req (evaluate engine req))
unfolding evaluate
evaluate_complete engine req = elim (Bool-cases (is_untrusted_mutation req)) [
  | inl e ↦ inl (e, rw e)
  | inr e ↦ inr (
    e,
    rw e (elim (FirstMatch-found engine.fail_closed req engine.rules) [
      | inl (r, f, d) ↦ Decided.by_rule r f d
      | inr (n, d) ↦ Decided.by_default n d
    ]),
  )
]

-- Untrusted content never obtains a mutation, a credential or a sensitive action, whatever the
-- rules: the decision is no allowance, needs approval and reveals no secret.
pub untrusted_never_mutates :
    (engine : PolicyEngine) (req : ActionRequest)
    → is_untrusted req.trust ≡ true
    → (req.mutates_state ≡ true)
      ⊎ (req.uses_credentials ≡ true)
      ⊎ (is_sensitive_action req.action ≡ true)
    → ((evaluate engine req).allowed ≡ false)
      × ((evaluate engine req).approval_required ≡ true)
      × ((evaluate engine req).reveal_secret_to_model ≡ false)
unfolding evaluate is_untrusted_mutation
untrusted_never_mutates engine req u h = ground arith

first_match_reveals :
    (fc : Bool) (req : ActionRequest) (rules : List Rule)
    → (first_match fc req rules).reveal_secret_to_model ≡ true
    → (first_match fc req rules).allowed ≡ true
unfolding first_match
first_match_reveals fc req [] h = cc
first_match_reveals fc req (r ∷ rules) h = ground (arith, first_match_reveals fc req rules)
