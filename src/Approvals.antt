-- ===== src/Approvals.antt =====
-- src/sovereign_ai/kernel/approvals.py: the durable requests for a human's sign-off. Readings of
-- the clock are arguments, in one unit; the fresh `uuid4().hex` of a new row is one too.
pub mod Decisions
pub mod Race
mod Tests
use achilles.Prelude.{
  ℕ, ◌+◌, String, Bool, true, false, ◌&&◌, Option, none, some, List, ◌==◌, ltb, if◌then◌else◌,
  Result, ok, raised, value_error, fetched, ◌>>=◌,
}
use achilles.Prelude.Order.{sort_by}
use achilles.Json.{Fields}
use achilles.Policy.{RiskLevel}
use achilles.Table

pub data ApprovalStatus : Type 0 where
  pending approved denied expired : ApprovalStatus

pub record ApprovalRequestRecord : Type 0 where
  pub id : String
  pub subject_id : String
  pub action : String
  pub scope : String
  pub risk : RiskLevel
  pub reason : String
  pub evidence : Fields
  pub status : ApprovalStatus
  pub resolver_id : Option String
  pub resolution_reason : Option String
  pub created_at : ℕ
  pub expires_at : ℕ
  pub resolved_at : Option ℕ

abbrev pub Rows : Type 0
Rows = List ApprovalRequestRecord

abbrev pub key : ApprovalRequestRecord → String
key r = r.id

abbrev pub is_pending : ApprovalStatus → Bool
is_pending ApprovalStatus.pending = true
is_pending _ = false

-- SELECT * FROM approval_requests WHERE id=?
unfoldable pub get : String → Rows → Option ApprovalRequestRecord
get request_id rows = Table.find key request_id rows

unfoldable pub create :
    (id : String) (now : ℕ) (subject_id action scope : String)
    → RiskLevel
    → (reason : String) → Fields
    → (ttl_seconds : ℕ) → Rows
    → Result (ApprovalRequestRecord × Rows)
create id now subject_id action scope risk reason evidence ttl_seconds rows =
    Table.add key
      (record {
        id = id;
        subject_id = subject_id;
        action = action;
        scope = scope;
        risk = risk;
        reason = reason;
        evidence = evidence;
        status = ApprovalStatus.pending;
        resolver_id = none;
        resolution_reason = none;
        created_at = now;
        expires_at = now + ttl_seconds;
        resolved_at = none;
      })
      rows

-- WHERE status='pending' AND expires_at < ?
abbrev pub is_stale : ℕ → ApprovalRequestRecord → Bool
is_stale now r = is_pending r.status && ltb r.expires_at now

abbrev pub expire : ApprovalRequestRecord → ApprovalRequestRecord
expire r = record r { status = ApprovalStatus.expired }

-- The row count that is returned, which no caller reads, is left out.
unfoldable pub expire_stale : ℕ → Rows → Rows
expire_stale now rows = Table.update (is_stale now) expire rows

-- WHERE status='pending' ORDER BY created_at
unfoldable pub list_pending : ℕ → Rows → List ApprovalRequestRecord × Rows
unfolding expire_stale
list_pending now rows =
    let rows' = expire_stale now rows in
    (sort_by (λ r. r.created_at) (Table.select (λ r. is_pending r.status) rows'), rows')

-- WHERE id=? AND status='pending'
abbrev pub is_open : String → ApprovalRequestRecord → Bool
is_open request_id r = r.id == request_id && is_pending r.status

abbrev pub decide : ℕ → String → Bool → String → ApprovalRequestRecord → ApprovalRequestRecord
decide now resolver_id approve reason r = record r {
  status = if approve then ApprovalStatus.approved else ApprovalStatus.denied;
  resolver_id = some resolver_id;
  resolution_reason = some reason;
  resolved_at = some now;
}

-- The two tests of `resolve` on the row that it read.
unfoldable pub resolve_check : String → Rows → Result ApprovalRequestRecord
unfolding get
resolve_check request_id rows = elim (get request_id rows) [
  | none ↦ raised value_error
  | some existing ↦ if is_pending existing.status then ok existing else raised value_error
]

-- The UPDATE of `resolve`.
unfoldable pub resolve_write : ℕ → String → String → Bool → String → Rows → Rows
resolve_write now request_id resolver_id approve reason rows =
    Table.update (is_open request_id) (decide now resolver_id approve reason) rows

-- What follows the two tests.
unfoldable pub after_check :
    ℕ
    → String
    → String
    → Bool
    → String
    → Rows
    → Result ApprovalRequestRecord
    → Result ApprovalRequestRecord × Rows
unfolding resolve_write get
after_check now request_id resolver_id approve reason rows (raised e) = (raised e, rows)
after_check now request_id resolver_id approve reason rows (ok existing) =
    let rows' = resolve_write now request_id resolver_id approve reason rows in
    (fetched (get request_id rows'), rows')

-- Two readings of the clock: one for `expire_stale`, one for `resolved_at`. What `expire_stale`
-- wrote stays written when the call raises.
unfoldable pub resolve :
    (stale_at now : ℕ) (request_id resolver_id : String)
    → Bool
    → String
    → Rows
    → Result ApprovalRequestRecord × Rows
unfolding expire_stale resolve_check after_check
resolve stale_at now request_id resolver_id approve reason rows =
    let rows' = expire_stale stale_at rows in
    after_check now request_id resolver_id approve reason rows' (resolve_check request_id rows')
