-- ===== src/Leases/Workspace/Exclusive.antt =====
-- Readers share a workspace root and a writer has it alone (resources/workspace_leases.py).
use achilles.Prelude.{
  ℕ, ◌≤◌, String, ◌≡◌, refl, Bool, true, false, ◌&&◌, [], ◌∷◌, ◌++◌, arith, Result, ok, raised,
  ◌==◌, eq_iff, Bool-cases, inl, inr, All, All-append, ap, not,
}
use achilles.Table
use achilles.Table.Laws
use achilles.Table.Queries
use achilles.Leases.Workspace.{
  WorkspaceLeaseRecord, Rows, key, is_stale, reap_stale, conflicts, is_held, fresh_lease, grant,
  granted, try_acquire, release, is_leased,
}

-- Two leases on one root are both for reading.
abbrev pub Compatible : WorkspaceLeaseRecord → WorkspaceLeaseRecord → Type 0
Compatible r s = r.root_path ≡ s.root_path → (r.writable ≡ false) × (s.writable ≡ false)

-- Any two leases in the table are compatible.
abbrev pub IsIsolated : Rows → Type 0
IsIsolated [] = Unit
IsIsolated (r ∷ rows) = All (Compatible r) rows × IsIsolated rows

IsIsolated-delete :
    (p : WorkspaceLeaseRecord → Bool) (rows : Rows)
    → IsIsolated rows
    → IsIsolated (Table.delete p rows)
unfolding Table.delete
IsIsolated-delete p [] h = tt
IsIsolated-delete p (r ∷ rows) (c, h) = elim (Bool-cases (p r)) [
  | inl e ↦ rw e (IsIsolated-delete p rows h)
  | inr e ↦ rw e (Queries.All-delete (Compatible r) p rows c, IsIsolated-delete p rows h)
]

IsIsolated-append :
    (rows : Rows) (s : WorkspaceLeaseRecord)
    → All (λ r. Compatible r s) rows
    → IsIsolated rows
    → IsIsolated (rows ++ s ∷ [])
IsIsolated-append [] s a h = (tt, tt)
IsIsolated-append (r ∷ rows) s (c, a) (cs, h) =
    (All-append (Compatible r) rows (s ∷ []) cs (c, tt), IsIsolated-append rows s a h)

no_conflict :
    (s : WorkspaceLeaseRecord) (rows : Rows)
    → Table.exists (conflicts s.root_path s.writable) rows ≡ false
    → All (λ r. Compatible r s) rows
unfolding Table.exists
no_conflict s [] h = tt
no_conflict s (r ∷ rows) h = (
  λ same. ground (arith, eq_iff r.root_path s.root_path, same),
  no_conflict s rows (ground arith),
)

granted-IsIsolated :
    (id root_path subject_id : String) (writable : Bool) (now ttl : ℕ) (rows : Rows)
    → is_held root_path writable rows ≡ false
    → IsIsolated rows
    → IsIsolated (granted (grant id root_path subject_id writable now ttl rows) rows).1
unfolding is_held grant
granted-IsIsolated id root_path subject_id writable now ttl rows free h =
    go (grant id root_path subject_id writable now ttl rows) refl
  where
    go :
        (c : Result (WorkspaceLeaseRecord × Rows))
        → grant id root_path subject_id writable now ttl rows ≡ c
        → IsIsolated (granted c rows).1
    go (raised e) q = h
    go (ok (r, rows')) q =
        let s = fresh_lease id root_path subject_id writable now ttl in
        rw (Laws.add_ok key s r rows q).1 (IsIsolated-append rows s (no_conflict s rows free) h)

-- Whole calls of the store, one after the other.
pub data Call : Rows → Rows → Type 0 where
  acquires :
      (rows : Rows) (reap_at now : ℕ) (id root_path subject_id : String) (writable : Bool) (ttl : ℕ)
      → Call rows (try_acquire reap_at now id root_path subject_id writable ttl rows).1
  releases : (rows : Rows) (lease_id : String) → Call rows (release lease_id rows)
  reaps : (rows : Rows) (now : ℕ) → Call rows (reap_stale now rows).1

pub data Reach (rows : Rows) : Rows → Type 0 where
  here : Reach rows rows
  next : {mid rows' : Rows} → Reach rows mid → Call mid rows' → Reach rows rows'

try_acquire-IsIsolated :
    (reap_at now : ℕ) (id root_path subject_id : String) (writable : Bool) (ttl : ℕ) (rows : Rows)
    → IsIsolated rows
    → IsIsolated (try_acquire reap_at now id root_path subject_id writable ttl rows).1
unfolding try_acquire
try_acquire-IsIsolated reap_at now id root_path subject_id writable ttl rows h =
    let swept = Table.delete (is_stale reap_at) rows in
    let clean = IsIsolated-delete (is_stale reap_at) rows h in
    elim (Bool-cases (is_held root_path writable swept)) [
      | inl held ↦ rw held clean
      | inr free ↦
          rw free (granted-IsIsolated id root_path subject_id writable now ttl swept free clean)
    ]

Call-IsIsolated : {rows rows' : Rows} → Call rows rows' → IsIsolated rows → IsIsolated rows'
unfolding release reap_stale
Call-IsIsolated (Call.acquires rows reap_at now id root_path subject_id writable ttl) h =
    try_acquire-IsIsolated reap_at now id root_path subject_id writable ttl rows h
Call-IsIsolated (Call.releases rows lease_id) h = IsIsolated-delete (λ r. r.id == lease_id) rows h
Call-IsIsolated (Call.reaps rows now) h = IsIsolated-delete (is_stale now) rows h

-- As long as calls do not overlap, two leases on one root are at all times both for reading: while
-- a run may write a workspace, no other run holds a lease on it.
pub writers_are_alone : {rows : Rows} → Reach [] rows → IsIsolated rows
writers_are_alone Reach.here = tt
writers_are_alone (Reach.next reach call) = Call-IsIsolated call (writers_are_alone reach)

fresh_rows :
    (now : ℕ) (p : WorkspaceLeaseRecord → Bool) (rows : Rows)
    → Table.exists p (Table.delete (is_stale now) rows) ≡ true
    → (before after : Rows) × (r : WorkspaceLeaseRecord) × (rows ≡ before ++ r ∷ after)
      × (p r ≡ true)
      × (now ≤ r.expires_at)
unfolding Table.exists Table.delete
fresh_rows now p [] h = cc
fresh_rows now p (r ∷ rows) h = elim (Bool-cases (p r && not (is_stale now r))) [
  | inl e ↦ ([], rows, r, refl, ground arith, ground arith)
  | inr n ↦
      let (before, after, x, split, q, le) = fresh_rows now p rows (ground arith) in
      (r ∷ before, after, x, ap (λ l. r ∷ l) split, q, le)
]

-- A lease-scoped write is honoured only for a lease of that id that is held by that very subject
-- and has not run out.
pub is_leased_sound :
    (now : ℕ) (lease_id subject_id : String) (rows : Rows)
    → (is_leased now lease_id subject_id rows).0 ≡ true
    → (before after : Rows) × (r : WorkspaceLeaseRecord) × (rows ≡ before ++ r ∷ after)
      × (r.id ≡ lease_id)
      × (r.subject_id ≡ subject_id)
      × (now ≤ r.expires_at)
unfolding is_leased
is_leased_sound now lease_id subject_id rows h =
    let (before, after, r, split, q, le) =
      fresh_rows now (λ x. x.id == lease_id && x.subject_id == subject_id) rows h in
    (
      before,
      after,
      r,
      split,
      ground (arith, eq_iff r.id lease_id),
      ground (arith, eq_iff r.subject_id subject_id),
      le,
    )
