-- ===== src/Roster/Delegations/Status.antt =====
-- What `set_status` (kernel/delegations.py) stores and returns.
use achilles.Prelude.{ℕ, String, ◌≡◌, refl, Option, none, some, ◌==◌, eq_refl, Result, ok}
use achilles.Table
use achilles.Table.Laws
use achilles.Roster.Delegations.{
  DelegationStatus, DelegationRecord, Rows, key, get, write, written, set_status,
}

-- A status that is stored is the one of the row, which is else as it was.
pub record IsStored (now : ℕ) (delegation_id : String) (status : DelegationStatus)
    (child_job_id : Option String) (rows rows' : Rows) (d : DelegationRecord) : Type 0 where
  pub old : DelegationRecord
  pub was : get delegation_id rows ≡ some old
  pub kept : get delegation_id rows' ≡ some d
  pub is_written : d ≡ write now status child_job_id old

write-key :
    (now : ℕ) (status : DelegationStatus) (job : Option String) (r : DelegationRecord)
    → key (write now status job r) ≡ key r
write-key now status none r = refl
write-key now status (some j) r = refl

pub write-status :
    (now : ℕ) (status : DelegationStatus) (job : Option String) (r : DelegationRecord)
    → (write now status job r).status ≡ status
write-status now status none r = refl
write-status now status (some j) r = refl

pub set_status_stores :
    (now : ℕ) (delegation_id : String) (status : DelegationStatus) (job : Option String)
    (rows rows' : Rows) (d : DelegationRecord)
    → set_status now delegation_id status job rows ≡ (ok d, rows')
    → IsStored now delegation_id status job rows rows' d
unfolding set_status get
set_status_stores now k status job rows rows' d h = go (Table.find key k rows) refl h
  where
    after : Rows
    after = Table.update (λ r. r.id == k) (write now status job) rows

    there :
        Table.find key k after
        ≡ Laws.updated (λ r. r.id == k) (write now status job) (Table.find key k rows)
    there =
        Laws.find-update key (λ r. r.id == k) (write now status job) (write-key now status job) k
          rows

    go :
        (o : Option DelegationRecord)
        → Table.find key k rows ≡ o
        → ◌≡◌ {A = Result DelegationRecord × Rows}
            (written (Table.find key k after) after)
            (ok d, rows')
        → IsStored now k status job rows rows' d
    go none e f =
        let nothing : Table.find key k after ≡ none = rw (there, e) refl in cc (rw nothing at f)
    go (some x) e f =
        let here : Table.find key k after ≡ some (write now status job x) =
          rw (there, e, Laws.find-key key k rows x e, eq_refl k) refl in
        let answer : ◌≡◌ {A = Result DelegationRecord × Rows} (ok (write now status job x), after)
            (ok d, rows') =
          rw here at f in
        record { old = x; was = e; kept = cc (here, answer); is_written = cc (answer) }
