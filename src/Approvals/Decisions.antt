-- ===== src/Approvals/Decisions.antt =====
-- `resolve` (kernel/approvals.py) decides a pending request, and a decision is final.
use achilles.Prelude.{
  ℕ, ◌≤◌, String, ◌≡◌, refl, sym, Bool, true, false, Option, none, some, arith, eq_iff, Result, ok,
  raised, value_error, Error, ◌∙◌, if◌then◌else◌,
}
use achilles.Json.{Fields}
use achilles.Policy.{RiskLevel}
use achilles.Table.Laws
use achilles.Approvals.{
  ApprovalStatus, ApprovalRequestRecord, Rows, key, is_pending, get, create, is_stale, expire,
  expire_stale, is_open, decide, resolve_check, resolve_write, after_check, resolve,
}

pub get-expire_stale :
    (now : ℕ) (k : String) (rows : Rows)
    → get k (expire_stale now rows) ≡ Laws.updated (is_stale now) expire (get k rows)
unfolding get expire_stale
get-expire_stale now k rows = Laws.find-update key (is_stale now) expire (λ r. refl) k rows

pub get-resolve_write :
    (now : ℕ) (rid who : String) (yes' : Bool) (why k : String) (rows : Rows)
    → get k (resolve_write now rid who yes' why rows)
      ≡ Laws.updated (is_open rid) (decide now who yes' why) (get k rows)
unfolding get resolve_write
get-resolve_write now rid who yes' why k rows =
    Laws.find-update key (is_open rid) (decide now who yes' why) (λ r. refl) k rows

pub get-id : (k : String) (rows : Rows) (r : ApprovalRequestRecord) → get k rows ≡ some r → r.id ≡ k
unfolding get
get-id k rows r h = Laws.find-key key k rows r h

-- What `resolve` promises of the request that it names.
abbrev pub Resolved :
    ℕ → ℕ → String → String → Bool → String → Rows → Result ApprovalRequestRecord × Rows → Type 0
Resolved stale now rid who approve why rows (ok r, rows') =
    (old : ApprovalRequestRecord) × (get rid rows ≡ some old)
    × (is_pending old.status ≡ true)
    × (stale ≤ old.expires_at)
    × (r ≡ record old {
      status = if approve then ApprovalStatus.approved else ApprovalStatus.denied;
      resolver_id = some who;
      resolution_reason = some why;
      resolved_at = some now;
    })
    × (get rid rows' ≡ some r)
Resolved stale now rid who approve why rows (raised e, rows') =
    (e ≡ value_error) × (rows' ≡ expire_stale stale rows)

check_raises :
    (rid : String) (rows : Rows) {e : Error} → resolve_check rid rows ≡ raised e → e ≡ value_error
unfolding resolve_check
check_raises rid rows h = ground arith

check_passes :
    (rid : String) (rows : Rows) (r : ApprovalRequestRecord)
    → resolve_check rid rows ≡ ok r
    → (get rid rows ≡ some r) × (is_pending r.status ≡ true)
unfolding resolve_check
check_passes rid rows r h = ground arith

-- A row that is pending after `expire_stale` was there before, and had not expired.
pending_survives :
    (stale : ℕ) (o : Option ApprovalRequestRecord) (r : ApprovalRequestRecord)
    → Laws.updated (is_stale stale) expire o ≡ some r
    → is_pending r.status ≡ true
    → (o ≡ some r) × (stale ≤ r.expires_at)
pending_survives stale none r h p = cc
pending_survives stale (some x) r h p = ground arith

-- Either `resolve` raises ValueError, and nothing but the expiry of stale requests has happened, or
-- the request was pending and not past its expiry, and is stored and returned with the decision,
-- the resolver and the reason that were given.
pub resolve-Resolved :
    (stale now : ℕ) (rid who : String) (approve : Bool) (why : String) (rows : Rows)
    → Resolved stale now rid who approve why rows (resolve stale now rid who approve why rows)
unfolding resolve
resolve-Resolved stale now rid who approve why rows =
    go (resolve_check rid (expire_stale stale rows)) refl
  where
    decided :
        (r : ApprovalRequestRecord)
        → get rid (expire_stale stale rows) ≡ some r
        → is_pending r.status ≡ true
        → get rid (resolve_write now rid who approve why (expire_stale stale rows))
          ≡ some (decide now who approve why r)
    decided r found p =
        rw (get-resolve_write, found)
          (ground (arith, eq_iff r.id rid, get-id rid (expire_stale stale rows) r found))

    go :
        (c : Result ApprovalRequestRecord)
        → resolve_check rid (expire_stale stale rows) ≡ c
        → Resolved stale now rid who approve why rows
            (after_check now rid who approve why (expire_stale stale rows) c)
    go (raised e) h = (check_raises rid (expire_stale stale rows) h, refl)
    go (ok r) h =
        let (found, p) = check_passes rid (expire_stale stale rows) r h in
        let (old, fresh) =
          pending_survives stale (get rid rows) r (sym (get-expire_stale stale rid rows) ∙ found)
            p in
        rw (decided r found p) (r, old, p, fresh, refl, decided r found p)

-- Between two statements of any callers the rows change by one of these.
pub data Step : Rows → Rows → Type 0 where
  creates :
      (rows rows' : Rows) (id : String) (now : ℕ) (who action scope : String) (risk : RiskLevel)
      (why : String) (evidence : Fields) (ttl : ℕ) (r : ApprovalRequestRecord)
      → create id now who action scope risk why evidence ttl rows ≡ ok (r, rows')
      → Step rows rows'
  expires : (rows : Rows) (now : ℕ) → Step rows (expire_stale now rows)
  writes :
      (rows : Rows) (now : ℕ) (rid who : String) (approve : Bool) (why : String)
      → Step rows (resolve_write now rid who approve why rows)

pub data Reach (rows : Rows) : Rows → Type 0 where
  here : Reach rows rows
  next : {mid rows' : Rows} → Reach rows mid → Step mid rows' → Reach rows rows'

create_keeps :
    (rows rows' : Rows) (id : String) (now : ℕ) (who action scope : String) (risk : RiskLevel)
    (why : String) (evidence : Fields) (ttl : ℕ) (r : ApprovalRequestRecord) (k : String)
    (x : ApprovalRequestRecord)
    → create id now who action scope risk why evidence ttl rows ≡ ok (r, rows')
    → get k rows ≡ some x
    → get k rows' ≡ some x
unfolding create get
create_keeps rows rows' id now who action scope risk why evidence ttl r k x h found =
    Laws.find-add_old key _ r rows k x h found

decided-Step :
    (k : String) (r : ApprovalRequestRecord) {rows rows' : Rows}
    → is_pending r.status ≡ false
    → Step rows rows'
    → get k rows ≡ some r
    → get k rows' ≡ some r
decided-Step k r n (Step.creates rows rows' id now who action scope risk why evidence ttl x h)
      found =
    create_keeps rows rows' id now who action scope risk why evidence ttl x k r h found
decided-Step k r n (Step.expires rows now) found = rw (get-expire_stale, found, n)
decided-Step k r n (Step.writes rows now rid who approve why) found =
    rw (get-resolve_write, found) (ground arith)

-- A request that is approved, denied or expired stays exactly as it is, whatever statements any
-- number of callers run afterwards, in any order.
pub decision_is_final :
    (k : String) (r : ApprovalRequestRecord) {rows rows' : Rows}
    → is_pending r.status ≡ false
    → get k rows ≡ some r
    → Reach rows rows'
    → get k rows' ≡ some r
decision_is_final k r n found Reach.here = found
decision_is_final k r n found (Reach.next reach step) =
    decided-Step k r n step (decision_is_final k r n found reach)
