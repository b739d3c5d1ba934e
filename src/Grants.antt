-- ===== src/Grants.antt =====
-- src/sovereign_ai/kernel/capability_grants.py: the grants that authorise an action.
pub mod Active
pub mod Revocation
mod Tests
use achilles.Prelude.{
  ℕ, ◌+◌, String, Bool, true, false, ◌&&◌, Option, none, some, List, ◌==◌, ltb, if◌then◌else◌,
  Result, is_some, not,
}
use achilles.Prelude.Order.{sort_by}
use achilles.Table

pub record CapabilityGrantRecord : Type 0 where
  pub id : String
  pub subject_id : String
  pub action : String
  pub scope : String
  pub granted_by : String
  pub approval_request_id : Option String
  pub delegation_id : Option String
  pub created_at : ℕ
  pub expires_at : ℕ
  pub revoked_at : Option ℕ

abbrev pub Rows : Type 0
Rows = List CapabilityGrantRecord

abbrev pub key : CapabilityGrantRecord → String
key r = r.id

unfoldable pub get : String → Rows → Option CapabilityGrantRecord
get grant_id rows = Table.find key grant_id rows

unfoldable pub issue :
    (id : String) (now : ℕ) (subject_id action scope granted_by : String)
    (approval_request_id delegation_id : Option String) (ttl_seconds : ℕ)
    → Rows
    → Result (CapabilityGrantRecord × Rows)
issue id now subject_id action scope granted_by approval_request_id delegation_id ttl_seconds rows =
    Table.add key
      (record {
        id = id;
        subject_id = subject_id;
        action = action;
        scope = scope;
        granted_by = granted_by;
        approval_request_id = approval_request_id;
        delegation_id = delegation_id;
        created_at = now;
        expires_at = now + ttl_seconds;
        revoked_at = none;
      })
      rows

abbrev pub is_unrevoked : CapabilityGrantRecord → Bool
is_unrevoked r = not (is_some r.revoked_at)

abbrev pub stamp : ℕ → CapabilityGrantRecord → CapabilityGrantRecord
stamp now r = record r { revoked_at = some now }

unfoldable pub revoke : ℕ → String → Rows → Rows
revoke now grant_id rows = Table.update (λ r. r.id == grant_id && is_unrevoked r) (stamp now) rows

-- `delegation_id=?` is false of NULL.
abbrev pub belongs_to : String → CapabilityGrantRecord → Bool
belongs_to d r = elim r.delegation_id [ none ↦ false | some e ↦ e == d ]

-- The rows, and the row count that is returned.
unfoldable pub revoke_for_delegation : ℕ → String → Rows → ℕ × Rows
revoke_for_delegation now d rows = (
  Table.count (λ r. belongs_to d r && is_unrevoked r) rows,
  Table.update (λ r. belongs_to d r && is_unrevoked r) (stamp now) rows,
)

-- The WHERE clause of `is_active`.
abbrev pub authorizes : ℕ → String → String → String → CapabilityGrantRecord → Bool
authorizes now subject_id action scope r =
    r.subject_id == subject_id
    && r.action == action
    && r.scope == scope
    && is_unrevoked r
    && ltb now r.expires_at

unfoldable pub is_active : ℕ → String → String → String → Rows → Bool
is_active now subject_id action scope rows =
    Table.exists (authorizes now subject_id action scope) rows

unfoldable pub active_for_subject : ℕ → String → Rows → Rows
active_for_subject now subject_id rows =
    sort_by (λ r. r.created_at)
      (Table.select (λ r. r.subject_id == subject_id && is_unrevoked r && ltb now r.expires_at)
        rows)
