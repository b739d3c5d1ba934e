-- ===== src/Leases/Gpu.antt =====
-- src/sovereign_ai/resources/gpu_leases.py: who holds the GPU. `pid_exists` is psutil's.
pub mod Exclusive
mod Tests
use achilles.Prelude.{
  ℕ, ◌+◌, String, Bool, true, false, ◌||◌, Option, none, some, List, not, ltb, if◌then◌else◌,
  Result, ok, raised, ◌==◌, ◌>>=◌,
}
use achilles.Prelude.Order.{sort_by}
use achilles.Table

pub record GpuLeaseRecord : Type 0 where
  pub id : String
  pub owner : String
  pub exclusive : Bool
  pub pid : ℕ
  pub acquired_at : ℕ
  pub expires_at : ℕ

abbrev pub Rows : Type 0
Rows = List GpuLeaseRecord

abbrev pub key : GpuLeaseRecord → String
key r = r.id

-- row["expires_at"] < now or not psutil.pid_exists(row["pid"])
abbrev pub is_stale : (ℕ → Bool) → ℕ → GpuLeaseRecord → Bool
is_stale pid_exists now r = ltb r.expires_at now || not (pid_exists r.pid)

-- The ids of the stale rows are those of the rows: deleting by id deletes these rows.
unfoldable pub reap_stale : (ℕ → Bool) → ℕ → Rows → ℕ × Rows
reap_stale pid_exists now rows =
    (Table.count (is_stale pid_exists now) rows, Table.delete (is_stale pid_exists now) rows)

unfoldable pub active : (ℕ → Bool) → ℕ → Rows → Rows × Rows
unfolding reap_stale
active pid_exists now rows =
    let rows' = (reap_stale pid_exists now rows).1 in (sort_by (λ r. r.acquired_at) rows', rows')

-- Whether the SELECT of `try_acquire` finds an exclusive lease.
unfoldable pub is_held : Rows → Bool
is_held rows = Table.exists (λ r. r.exclusive) rows

-- The INSERT of `try_acquire`, and the row read back.
unfoldable pub grant :
    (id owner : String) → Bool → (pid now ttl_seconds : ℕ) → Rows → Result (GpuLeaseRecord × Rows)
grant id owner exclusive pid now ttl_seconds rows =
    Table.add key
      (record {
        id = id;
        owner = owner;
        exclusive = exclusive;
        pid = pid;
        acquired_at = now;
        expires_at = now + ttl_seconds;
      })
      rows

-- `some` of the lease, or `none` where one is held that conflicts.
abbrev pub granted : Result (GpuLeaseRecord × Rows) → Rows → Result (Option GpuLeaseRecord) × Rows
granted (raised e) rows = (raised e, rows)
granted (ok (r, rows')) rows = (ok (some r), rows')

unfoldable pub try_acquire :
    (pid_exists : ℕ → Bool) (reap_at now : ℕ) (id owner : String)
    → Bool
    → (pid ttl_seconds : ℕ) → Rows
    → Result (Option GpuLeaseRecord) × Rows
unfolding reap_stale is_held grant
try_acquire pid_exists reap_at now id owner exclusive pid ttl_seconds rows =
    let rows' = (reap_stale pid_exists reap_at rows).1 in
    if (if exclusive then is_held rows' else false)
    then (ok none, rows')
    else granted (grant id owner exclusive pid now ttl_seconds rows') rows'

unfoldable pub release : String → Rows → Rows
release lease_id rows = Table.delete (λ r. r.id == lease_id) rows
