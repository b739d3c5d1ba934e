-- ===== src/Roster/Profiles.antt =====
-- AgentProfileStore (src/sovereign_ai/kernel/agent_profiles.py): the durable coworkers, and the most
-- that each could ever be granted.
use achilles.Prelude.{
  ℕ, String, Bool, false, Option, none, some, List, ◌==◌, any, if◌then◌else◌, Result, ok, raised,
  value_error, already_exists, integrity_error, fetched, ◌>>=◌,
}
use achilles.Json.{Fields}
use achilles.Table

pub data AgentProfileStatus : Type 0 where
  active retired : AgentProfileStatus

pub record AgentProfileRecord : Type 0 where
  pub id : String
  pub display_name : String
  pub role : String
  pub status : AgentProfileStatus
  pub routing_preferences : Fields
  pub memory_scopes : List String
  pub budgets : Fields
  pub authority_ceiling : List String
  pub created_at : ℕ
  pub updated_at : ℕ
  pub metadata : Fields

abbrev pub Rows : Type 0
Rows = List AgentProfileRecord

abbrev pub key : AgentProfileRecord → String
key r = r.id

unfoldable pub get : String → Rows → Option AgentProfileRecord
get profile_id rows = Table.find key profile_id rows

-- A failed INSERT is raised as AgentProfileAlreadyExists too.
abbrev pub inserted : Result (AgentProfileRecord × Rows) → Result (AgentProfileRecord × Rows)
inserted (raised integrity_error) = raised already_exists
inserted r = r

unfoldable pub create :
    (now : ℕ) (profile_id display_name role : String) (routing_preferences : Fields)
    (memory_scopes : List String) (budgets : Fields) (authority_ceiling : List String)
    (metadata : Fields)
    → Rows
    → Result (AgentProfileRecord × Rows)
unfolding get
create now profile_id display_name role routing_preferences memory_scopes budgets authority_ceiling
      metadata rows =
    elim (get profile_id rows) [
      | some old ↦ raised already_exists
      | none ↦ inserted (
          Table.add key
            (record {
              id = profile_id;
              display_name = display_name;
              role = role;
              status = AgentProfileStatus.active;
              routing_preferences = routing_preferences;
              memory_scopes = memory_scopes;
              budgets = budgets;
              authority_ceiling = authority_ceiling;
              created_at = now;
              updated_at = now;
              metadata = metadata;
            })
            rows)
    ]

unfoldable pub set_status :
    ℕ → String → AgentProfileStatus → Rows → Result (AgentProfileRecord × Rows)
unfolding get
set_status now profile_id status rows =
    if Table.exists (λ r. r.id == profile_id) rows
    then (do
      let rows' =
          Table.update (λ r. r.id == profile_id)
            (λ r. record r { status = status; updated_at = now }) rows
      profile ← fetched (get profile_id rows')
      ok (profile, rows'))
    else raised value_error

abbrev pub ceiling_covers : String → Option AgentProfileRecord → Bool
ceiling_covers action_scope none = false
ceiling_covers action_scope (some profile) = any (λ s. s == action_scope) profile.authority_ceiling

unfoldable pub has_ceiling : String → String → Rows → Bool
unfolding get
has_ceiling profile_id action_scope rows = ceiling_covers action_scope (get profile_id rows)
