-- ===== src/Leases/Workspace/Tests.antt =====
-- Runs and witnesses for the workspace leases.
use achilles.Prelude.{◌≡◌, refl, true, false, some, none, [], ◌∷◌, ok}
use achilles.Table
use achilles.Leases.Workspace.{WorkspaceLeaseRecord, try_acquire}
use achilles.Leases.Workspace.Exclusive.{IsIsolated, Reach, Call, writers_are_alone}

abbrev reader : WorkspaceLeaseRecord
reader = record {
  id = "l1";
  root_path = "/a";
  subject_id = "run1";
  writable = false;
  acquired_at = 5;
  expires_at = 65;
}

reader_runs : try_acquire 5 5 "l1" "/a" "run1" false 60 [] ≡ (ok (some reader), reader ∷ [])
unfolding try_acquire Table.delete Table.exists Table.add Table.find
reader_runs = refl

writer_waits : try_acquire 6 6 "l2" "/a" "run2" true 60 (reader ∷ []) ≡ (ok none, reader ∷ [])
unfolding try_acquire Table.delete Table.exists
writer_waits = refl

writers_are_alone_example : IsIsolated (try_acquire 5 5 "l1" "/a" "run1" true 60 []).1
writers_are_alone_example =
    writers_are_alone (Reach.next Reach.here (Call.acquires [] 5 5 "l1" "/a" "run1" true 60))
