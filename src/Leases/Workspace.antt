-- ===== src/Leases/Workspace.antt =====
-- src/sovereign_ai/resources/workspace_leases.py: who may use which workspace root.
pub mod Exclusive
mod Tests
use achilles.Prelude.{
  ℕ, ◌+◌, String, Bool, true, false, ◌&&◌, Option, none, some, List, ltb, if◌then◌else◌, Result, ok,
  raised, ◌==◌,
}
use achilles.Prelude.Order.{sort_by}
use achilles.Table

pub record WorkspaceLeaseRecord : Type 0 where
  pub id : String
  pub root_path : String
  pub subject_id : String
  pub writable : Bool
  pub acquired_at : ℕ
  pub expires_at : ℕ

abbrev pub Rows : Type 0
Rows = List WorkspaceLeaseRecord

abbrev pub key : WorkspaceLeaseRecord → String
key r = r.id

abbrev pub is_stale : ℕ → WorkspaceLeaseRecord → Bool
is_stale now r = ltb r.expires_at now

unfoldable pub reap_stale : ℕ → Rows → ℕ × Rows
reap_stale now rows = (Table.count (is_stale now) rows, Table.delete (is_stale now) rows)

unfoldable pub get : ℕ → String → Rows → Option WorkspaceLeaseRecord × Rows
unfolding reap_stale
get now lease_id rows =
    let rows' = (reap_stale now rows).1 in (Table.find key lease_id rows', rows')

unfoldable pub active : ℕ → Rows → Rows × Rows
unfolding reap_stale
active now rows = let rows' = (reap_stale now rows).1 in (sort_by (λ r. r.acquired_at) rows', rows')

unfoldable pub active_for_subject : ℕ → String → Rows → Rows × Rows
unfolding reap_stale
active_for_subject now subject_id rows =
    let rows' = (reap_stale now rows).1 in
    (sort_by (λ r. r.acquired_at) (Table.select (λ r. r.subject_id == subject_id) rows'), rows')

-- The two SELECTs of `try_acquire`: a writer conflicts with any lease, a reader with a writer.
abbrev pub conflicts : String → Bool → WorkspaceLeaseRecord → Bool
conflicts root_path true r = r.root_path == root_path
conflicts root_path false r = r.root_path == root_path && r.writable

unfoldable pub is_held : String → Bool → Rows → Bool
is_held root_path writable rows = Table.exists (conflicts root_path writable) rows

-- The row that the INSERT writes.
abbrev pub fresh_lease : String → String → String → Bool → ℕ → ℕ → WorkspaceLeaseRecord
fresh_lease id root_path subject_id writable now ttl_seconds = record {
  id = id;
  root_path = root_path;
  subject_id = subject_id;
  writable = writable;
  acquired_at = now;
  expires_at = now + ttl_seconds;
}

unfoldable pub grant :
    (id root_path subject_id : String)
    → Bool
    → (now ttl_seconds : ℕ) → Rows
    → Result (WorkspaceLeaseRecord × Rows)
grant id root_path subject_id writable now ttl_seconds rows =
    Table.add key (fresh_lease id root_path subject_id writable now ttl_seconds) rows

abbrev pub granted :
    Result (WorkspaceLeaseRecord × Rows) → Rows → Result (Option WorkspaceLeaseRecord) × Rows
granted (raised e) rows = (raised e, rows)
granted (ok (r, rows')) rows = (ok (some r), rows')

unfoldable pub try_acquire :
    (reap_at now : ℕ) (id root_path subject_id : String)
    → Bool
    → (ttl_seconds : ℕ) → Rows
    → Result (Option WorkspaceLeaseRecord) × Rows
unfolding reap_stale is_held grant
try_acquire reap_at now id root_path subject_id writable ttl_seconds rows =
    let rows' = (reap_stale reap_at rows).1 in
    if is_held root_path writable rows'
    then (ok none, rows')
    else granted (grant id root_path subject_id writable now ttl_seconds rows') rows'

unfoldable pub release : String → Rows → Rows
release lease_id rows = Table.delete (λ r. r.id == lease_id) rows

unfoldable pub is_leased : ℕ → String → String → Rows → Bool × Rows
unfolding reap_stale
is_leased now lease_id subject_id rows =
    let rows' = (reap_stale now rows).1 in
    (Table.exists (λ r. r.id == lease_id && r.subject_id == subject_id) rows', rows')
