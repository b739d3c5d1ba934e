-- ===== src/Leases/Gpu/Exclusive.antt =====
-- How many exclusive GPU leases there can be (resources/gpu_leases.py).
use achilles.Prelude.{
  ℕ, ◌+◌, ◌≤◌, String, ◌≡◌, refl, Bool, true, false, [], ◌∷◌, ◌++◌, arith, if◌then◌else◌, Result,
  ok, raised, none, ◌==◌, Bool-cases, inl, inr,
}
use achilles.Table
use achilles.Table.Laws
use achilles.Leases.Gpu.{
  GpuLeaseRecord, Rows, key, is_stale, reap_stale, is_held, grant, granted, try_acquire, release,
}

-- The number of exclusive leases in the table.
abbrev pub exclusive_leases : Rows → ℕ
exclusive_leases rows = Table.count (λ r. r.exclusive) rows

count-delete-le :
    (p q : GpuLeaseRecord → Bool) (rows : Rows)
    → Table.count p (Table.delete q rows) ≤ Table.count p rows
unfolding Table.count Table.delete
count-delete-le p q [] = omega arith
count-delete-le p q (r ∷ rows) = ground (arith, count-delete-le p q rows)

count-append :
    (p : GpuLeaseRecord → Bool) (rows : Rows) (r : GpuLeaseRecord)
    → Table.count p (rows ++ r ∷ []) ≡ Table.count p rows + (if p r then 1 else 0)
unfolding Table.count
count-append p [] r = ground arith
count-append p (x ∷ rows) r = ground (arith, count-append p rows r)

count_none :
    (p : GpuLeaseRecord → Bool) (rows : Rows) → Table.exists p rows ≡ false → Table.count p rows ≡ 0
unfolding Table.count Table.exists
count_none p [] h = refl
count_none p (r ∷ rows) h = ground (arith, count_none p rows)

grant_adds :
    (id owner : String) (exclusive : Bool) (pid now ttl : ℕ) (rows : Rows) (r : GpuLeaseRecord)
    (rows' : Rows)
    → grant id owner exclusive pid now ttl rows ≡ ok (r, rows')
    → exclusive_leases rows' ≡ exclusive_leases rows + (if exclusive then 1 else 0)
unfolding grant
grant_adds id owner exclusive pid now ttl rows r rows' h =
    rw (Laws.add_ok key _ r rows h).1 (count-append (λ x. x.exclusive) rows _)

granted_bounded :
    (id owner : String) (exclusive : Bool) (pid now ttl : ℕ) (rows : Rows)
    → exclusive_leases rows + (if exclusive then 1 else 0) ≤ 1
    → exclusive_leases rows ≤ 1
    → exclusive_leases (granted (grant id owner exclusive pid now ttl rows) rows).1 ≤ 1
granted_bounded id owner exclusive pid now ttl rows room h =
    go (grant id owner exclusive pid now ttl rows) refl
  where
    go :
        (c : Result (GpuLeaseRecord × Rows))
        → grant id owner exclusive pid now ttl rows ≡ c
        → exclusive_leases (granted c rows).1 ≤ 1
    go (raised e) q = h
    go (ok (r, rows')) q = rw (grant_adds id owner exclusive pid now ttl rows r rows' q) room

module _ (pid_exists : ℕ → Bool) (reap_at now : ℕ) (id owner : String) (pid ttl : ℕ)
    (rows : Rows) where
  try_acquire_bounded :
      (exclusive : Bool)
      → exclusive_leases rows ≤ 1
      → exclusive_leases (try_acquire pid_exists reap_at now id owner exclusive pid ttl rows).1 ≤ 1
  unfolding try_acquire
  try_acquire_bounded false h =
      let swept = Table.delete (is_stale pid_exists reap_at) rows in
      let fewer = count-delete-le (λ r. r.exclusive) (is_stale pid_exists reap_at) rows in
      granted_bounded id owner false pid now ttl swept (omega (arith, fewer)) (omega (arith, fewer))
  try_acquire_bounded true h =
      let swept = Table.delete (is_stale pid_exists reap_at) rows in
      let fewer = count-delete-le (λ r. r.exclusive) (is_stale pid_exists reap_at) rows in
      elim (Bool-cases (is_held swept)) [
        | inl held ↦ rw held (omega (arith, fewer))
        | inr free ↦ rw free (
            granted_bounded id owner true pid now ttl swept
              (omega (arith, count_none (λ r. r.exclusive) swept free)) (omega (arith, fewer)))
      ]

-- Whole calls of the store, one after the other; `pid_exists` answers anew in each.
pub data Call : Rows → Rows → Type 0 where
  acquires :
      (rows : Rows) (pid_exists : ℕ → Bool) (reap_at now : ℕ) (id owner : String) (exclusive : Bool)
      (pid ttl : ℕ)
      → Call rows (try_acquire pid_exists reap_at now id owner exclusive pid ttl rows).1
  releases : (rows : Rows) (lease_id : String) → Call rows (release lease_id rows)
  reaps :
      (rows : Rows) (pid_exists : ℕ → Bool) (now : ℕ) → Call rows (reap_stale pid_exists now rows).1

pub data Reach (rows : Rows) : Rows → Type 0 where
  here : Reach rows rows
  next : {mid rows' : Rows} → Reach rows mid → Call mid rows' → Reach rows rows'

Call-bounded :
    {rows rows' : Rows} → Call rows rows' → exclusive_leases rows ≤ 1 → exclusive_leases rows' ≤ 1
unfolding release reap_stale
Call-bounded (Call.acquires rows pid_exists reap_at now id owner exclusive pid ttl) h =
    try_acquire_bounded pid_exists reap_at now id owner pid ttl rows exclusive h
Call-bounded (Call.releases rows lease_id) h =
    omega (arith, count-delete-le (λ r. r.exclusive) (λ r. r.id == lease_id) rows)
Call-bounded (Call.reaps rows pid_exists now) h =
    omega (arith, count-delete-le (λ r. r.exclusive) (is_stale pid_exists now) rows)

-- As long as calls do not overlap, at most one exclusive lease exists at any time, whichever
-- processes live or die meanwhile.
pub one_exclusive_lease : {rows : Rows} → Reach [] rows → exclusive_leases rows ≤ 1
unfolding Table.count
one_exclusive_lease Reach.here = omega arith
one_exclusive_lease (Reach.next reach call) = Call-bounded call (one_exclusive_lease reach)

-- `try_acquire` looks before it opens its transaction. Where two processes have both looked at a
-- table with no exclusive lease and draw two different new ids, neither INSERT raises, both return
-- the lease that was asked for, and two exclusive leases exist.
pub overlapping_acquires_both_granted :
    (rows : Rows) (id₁ id₂ owner₁ owner₂ : String) (pid₁ pid₂ now₁ now₂ ttl₁ ttl₂ : ℕ)
    → is_held rows ≡ false
    → Table.find key id₁ rows ≡ none
    → Table.find key id₂ rows ≡ none
    → (id₁ == id₂) ≡ false
    → (r₁ : GpuLeaseRecord) × (r₂ : GpuLeaseRecord) × (rows₁ : Rows) × (rows₂ : Rows) × (grant id₁
          owner₁ true pid₁ now₁ ttl₁ rows
        ≡ ok (r₁, rows₁))
      × (grant id₂ owner₂ true pid₂ now₂ ttl₂ rows₁ ≡ ok (r₂, rows₂))
      × (r₁.owner ≡ owner₁)
      × (r₂.owner ≡ owner₂)
      × (exclusive_leases rows₂ ≡ 2)
unfolding is_held grant
overlapping_acquires_both_granted rows id₁ id₂ owner₁ owner₂ pid₁ pid₂ now₁ now₂ ttl₁ ttl₂ free new₁
      new₂ apart =
    (
      first,
      second,
      rows ++ first ∷ [],
      (rows ++ first ∷ []) ++ second ∷ [],
      Laws.add_new key first rows new₁,
      Laws.add_new key second (rows ++ first ∷ []) still_new,
      refl,
      refl,
      omega (
        arith,
        count_none (λ r. r.exclusive) rows free,
        count-append (λ r. r.exclusive) rows first,
        count-append (λ r. r.exclusive) (rows ++ first ∷ []) second,
      ),
    )
  where
    leased : String → String → ℕ → ℕ → ℕ → GpuLeaseRecord
    leased id owner pid now ttl = record {
      id = id;
      owner = owner;
      exclusive = true;
      pid = pid;
      acquired_at = now;
      expires_at = now + ttl;
    }

    first : GpuLeaseRecord
    first = leased id₁ owner₁ pid₁ now₁ ttl₁

    second : GpuLeaseRecord
    second = leased id₂ owner₂ pid₂ now₂ ttl₂

    still_new : Table.find key id₂ (rows ++ first ∷ []) ≡ none
    still_new = rw (Laws.find-append key id₂ rows first, new₂, apart) refl
