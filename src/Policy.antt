-- ===== src/Policy.antt =====
-- src/sovereign_ai/kernel/policy.py, with the request and decision of kernel/types.py. The rules of
-- a configuration are its `risk_rules`, in order, with the defaults of the missing keys.
pub mod Safety
pub mod Judgement
mod Tests
use achilles.Prelude.{
  concat, String, Bool, true, false, not, ◌&&◌, ◌||◌, Option, none, some, List, [], ◌∷◌, ◌==◌,
  if◌then◌else◌,
}

pub data TrustLabel : Type 0 where
  trusted_user trusted_local untrusted_web untrusted_email untrusted_document : TrustLabel
  untrusted_model_output untrusted_collaboration execution_result verified_result : TrustLabel

pub data RiskLevel : Type 0 where
  low medium high critical : RiskLevel

pub record ActionRequest : Type 0 where
  pub action : String
  pub scope : String
  pub trust : TrustLabel
  pub mutates_state : Bool
  pub uses_credentials : Bool

pub record PolicyDecision : Type 0 where
  pub allowed : Bool
  pub approval_required : Bool
  pub risk : RiskLevel
  pub verifier : Option String
  pub reveal_secret_to_model : Bool
  pub reason : String

-- `match.get("action")` and `match.get("scope")` are `none` where the key is missing.
pub record Rule : Type 0 where
  pub match_action : Option String
  pub match_scope : Option String
  pub approval : Bool
  pub risk : RiskLevel
  pub verify : Option String
  pub reveal : Bool

pub record PolicyEngine : Type 0 where
  pub rules : List Rule
  pub fail_closed : Bool

-- req.trust in {...}
unfoldable pub is_untrusted : TrustLabel → Bool
is_untrusted TrustLabel.untrusted_web = true
is_untrusted TrustLabel.untrusted_email = true
is_untrusted TrustLabel.untrusted_document = true
is_untrusted TrustLabel.untrusted_model_output = true
is_untrusted TrustLabel.untrusted_collaboration = true
is_untrusted _ = false

unfoldable pub is_sensitive_action : String → Bool
is_sensitive_action a = a == "execute" || a == "credential" || a == "delete" || a == "network_post"

-- The test of the first branch of `evaluate`.
unfoldable pub is_untrusted_mutation : ActionRequest → Bool
unfolding is_untrusted is_sensitive_action
is_untrusted_mutation req =
    is_untrusted req.trust
    && (req.mutates_state || req.uses_credentials || is_sensitive_action req.action)

unfoldable pub action_matches : Option String → String → Bool
action_matches none a = true
action_matches (some m) a = m == a

unfoldable pub scope_matches : Option String → String → Bool
scope_matches none s = true
scope_matches (some m) s = m == "any" || m == s

unfoldable pub rule_matches : ActionRequest → Rule → Bool
unfolding action_matches scope_matches
rule_matches req r =
    action_matches r.match_action req.action && scope_matches r.match_scope req.scope

unfoldable pub rule_decision : ActionRequest → Rule → PolicyDecision
rule_decision req r = record {
  allowed = true;
  approval_required = r.approval;
  risk = r.risk;
  verifier = r.verify;
  reveal_secret_to_model = r.reveal;
  reason = concat "Matched policy rule for " (concat req.action (concat ":" req.scope));
}

abbrev pub no_rule : Bool → PolicyDecision
no_rule fail_closed = record {
  allowed = not fail_closed;
  approval_required = true;
  risk = RiskLevel.high;
  verifier = none;
  reveal_secret_to_model = false;
  reason =
      if fail_closed
      then "No explicit allow rule matched; fail-closed policy."
      else "No rule matched; approval required.";
}

abbrev pub refusal : PolicyDecision
refusal = record {
  allowed = false;
  approval_required = true;
  risk = RiskLevel.critical;
  verifier = none;
  reveal_secret_to_model = false;
  reason = "Untrusted content cannot directly authorize mutation or credential access.";
}

-- the loop `for rule in self.rules`, and what stands behind it
unfoldable pub first_match : Bool → ActionRequest → List Rule → PolicyDecision
unfolding rule_matches rule_decision
first_match fail_closed req [] = no_rule fail_closed
first_match fail_closed req (r ∷ rules) =
    if rule_matches req r then rule_decision req r else first_match fail_closed req rules

unfoldable pub evaluate : PolicyEngine → ActionRequest → PolicyDecision
unfolding is_untrusted_mutation first_match
evaluate engine req =
    if is_untrusted_mutation req then refusal else first_match engine.fail_closed req engine.rules
