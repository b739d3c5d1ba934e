-- ===== src/Policy/Tests.antt =====
-- Runs and witnesses for the policy engine, on some rules of configs/policies.yaml.
use achilles.Prelude.{◌≡◌, refl, true, false, some, none, [], ◌∷◌}
use achilles.Policy.{TrustLabel, RiskLevel, ActionRequest, PolicyEngine, Rule, refusal, evaluate}
use achilles.Policy.Judgement.{IsJudged, evaluate-IsJudged}

abbrev read_workspace : Rule
read_workspace = record {
  match_action = some "read";
  match_scope = some "workspace";
  approval = false;
  risk = RiskLevel.low;
  verify = none;
  reveal = false;
}

abbrev credential_any : Rule
credential_any = record {
  match_action = some "credential";
  match_scope = some "any";
  approval = true;
  risk = RiskLevel.high;
  verify = none;
  reveal = true;
}

abbrev engine : PolicyEngine
engine = record { rules = read_workspace ∷ credential_any ∷ []; fail_closed = true }

abbrev request : TrustLabel → ActionRequest
request trust = record {
  action = "credential";
  scope = "host";
  trust = trust;
  mutates_state = false;
  uses_credentials = true;
}

abbrev web : ActionRequest
web = request TrustLabel.untrusted_web

abbrev local : ActionRequest
local = request TrustLabel.trusted_local

abbrev reading : ActionRequest
reading = record web { action = "read"; scope = "workspace"; uses_credentials = false }

reading_allowed : (evaluate engine reading).allowed ≡ true
unfolding evaluate
reading_allowed = refl

web_refused : evaluate engine web ≡ refusal
unfolding evaluate
web_refused = refl

evaluate-IsJudged_example : IsJudged engine web (evaluate engine web)
evaluate-IsJudged_example = evaluate-IsJudged engine web
