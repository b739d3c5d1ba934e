-- ===== src/Leases/Gpu/Tests.antt =====
-- Runs and witnesses for the GPU leases.
use achilles.Prelude.{ℕ, ◌≡◌, ◌≤◌, refl, Bool, true, false, some, none, [], ◌∷◌, ok}
use achilles.Table
use achilles.Leases.Gpu.{GpuLeaseRecord, Rows, grant, is_held, try_acquire, reap_stale}
use achilles.Leases.Gpu.Exclusive.{
  exclusive_leases, Reach, Call, one_exclusive_lease, overlapping_acquires_both_granted,
}

abbrev everyone : ℕ → Bool
everyone pid = true

abbrev lease : GpuLeaseRecord
lease = record {
  id = "l1";
  owner = "kernel";
  exclusive = true;
  pid = 7;
  acquired_at = 5;
  expires_at = 605;
}

acquire_runs : try_acquire everyone 5 5 "l1" "kernel" true 7 600 [] ≡ (ok (some lease), lease ∷ [])
unfolding try_acquire Table.delete Table.exists Table.add Table.find
acquire_runs = refl

held_runs : try_acquire everyone 6 6 "l2" "other" true 8 600 (lease ∷ []) ≡ (ok none, lease ∷ [])
unfolding try_acquire Table.delete Table.exists
held_runs = refl

-- The holder's process is gone: its lease is reaped.
orphan_runs : reap_stale (λ pid. false) 6 (lease ∷ []) ≡ (1, [])
unfolding reap_stale Table.count Table.delete
orphan_runs = refl

one_exclusive_lease_example :
    exclusive_leases (try_acquire everyone 5 5 "l1" "kernel" true 7 600 []).1 ≤ 1
one_exclusive_lease_example =
    one_exclusive_lease
      (Reach.next Reach.here (Call.acquires [] everyone 5 5 "l1" "kernel" true 7 600))

overlapping_acquires_both_granted_example :
    (r₁ : GpuLeaseRecord) × (r₂ : GpuLeaseRecord) × (rows₁ : Rows) × (rows₂ : Rows) × (grant "l1"
        "kernel" true 7 5 600 []
      ≡ ok (r₁, rows₁))
    × (grant "l2" "other" true 8 5 600 rows₁ ≡ ok (r₂, rows₂))
    × (r₁.owner ≡ "kernel")
    × (r₂.owner ≡ "other")
    × (exclusive_leases rows₂ ≡ 2)
unfolding is_held Table.exists Table.find
overlapping_acquires_both_granted_example =
    overlapping_acquires_both_granted [] "l1" "l2" "kernel" "other" 7 8 5 5 600 600 refl refl refl
      refl
