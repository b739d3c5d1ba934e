-- ===== src/Grants/Tests.antt =====
-- Runs and witnesses for the grant store.
use achilles.Prelude.{◌≡◌, ◌&&◌, not, refl, true, false, some, none, [], ◌∷◌, ok}
use achilles.Table
use achilles.Grants.{
  CapabilityGrantRecord, Rows, issue, revoke_for_delegation, is_active, authorizes, belongs_to,
}
use achilles.Grants.Revocation.{is_active-revoke_for_delegation}

abbrev grant : CapabilityGrantRecord
grant = record {
  id = "g1";
  subject_id = "bob";
  action = "write";
  scope = "workspace";
  granted_by = "policy";
  approval_request_id = none;
  delegation_id = some "d1";
  created_at = 10;
  expires_at = 3610;
  revoked_at = none;
}

abbrev rows : Rows
rows = grant ∷ []

issue_runs :
    issue "g1" 10 "bob" "write" "workspace" "policy" none (some "d1") 3600 [] ≡ ok (grant, rows)
unfolding issue Table.add Table.find
issue_runs = refl

active_runs : is_active 11 "bob" "write" "workspace" rows ≡ true
unfolding is_active Table.exists
active_runs = refl

expired_runs : is_active 3610 "bob" "write" "workspace" rows ≡ false
unfolding is_active Table.exists
expired_runs = refl

is_active-revoke_for_delegation_example :
    is_active 12 "bob" "write" "workspace" (revoke_for_delegation 11 "d1" rows).1
    ≡ Table.exists (λ r. authorizes 12 "bob" "write" "workspace" r && not (belongs_to "d1" r)) rows
is_active-revoke_for_delegation_example =
    is_active-revoke_for_delegation 11 "d1" 12 "bob" "write" "workspace" rows
