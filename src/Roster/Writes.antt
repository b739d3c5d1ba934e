-- ===== src/Roster/Writes.antt =====
-- What the roster's writes of a delegation leave (src/sovereign_ai/kernel/roster.py).
use achilles.Prelude.{ℕ, ◌+◌, String, ◌≡◌, refl, sym, ap, Option, some, Result, ok, raised, Supply}
use achilles.Jobs
use achilles.Jobs.{JobKind, JobRecord}
use achilles.Json
use achilles.Json.{Fields}
use achilles.Roster.{RosterService, Proposed, job_request, with_job, set_status, keep_job, approve}
use achilles.Roster.Delegations
use achilles.Roster.Delegations.{RequestedGrant, DelegationRecord, DelegationStatus}
use achilles.Roster.Delegations.Status.{IsStored, set_status_stores}

abbrev pub Set :
    ℕ
    → String
    → DelegationStatus
    → Option String
    → Option JobRecord
    → RosterService
    → RosterService
    → DelegationRecord
    → Option JobRecord
    → Type 0
Set now k status child_job_id job r r' d j =
    (j ≡ job)
    × (r'.grants ≡ r.grants)
    × IsStored now k status child_job_id r.delegations r'.delegations d

pub with_job_sets :
    (now : ℕ) (k : String) (status : DelegationStatus) (child_job_id : Option String)
    (job : Option JobRecord) (r r' : RosterService) (d : DelegationRecord) (j : Option JobRecord)
    → with_job job r (Delegations.set_status now k status child_job_id r.delegations)
      ≡ (ok (d, j), r')
    → Set now k status child_job_id job r r' d j
with_job_sets now k status child_job_id job r r' d j h =
    go (Delegations.set_status now k status child_job_id r.delegations) refl h
  where
    go :
        (c : Result DelegationRecord × Delegations.Rows)
        → Delegations.set_status now k status child_job_id r.delegations ≡ c
        → with_job job r c ≡ (ok (d, j), r')
        → Set now k status child_job_id job r r' d j
    go (raised e, rows) f g = cc
    go (ok x, rows) f g =
        let same : x ≡ d = cc (g) in
        let kept : rows ≡ r'.delegations = ap (λ (y : Proposed). y.1.delegations) g in
        let stored = set_status_stores now k status child_job_id r.delegations rows x f in
        (
          cc (g),
          sym (ap (λ (y : Proposed). y.1.grants) g),
          record {
            old = stored.old;
            was = stored.was;
            kept = cc (stored.kept, same, kept);
            is_written = cc (stored.is_written, same);
          },
        )

-- A delegation that is approved is stored with its job, and no grant changes.
pub approve_sets :
    (supply : Supply) (kind : JobKind) (k : String) (inputs : Fields) (who : String)
    (r r' : RosterService) (d : DelegationRecord) (j : Option JobRecord)
    → approve supply kind k inputs who r ≡ (ok (d, j), r')
    → (job : JobRecord) × Set
        (supply.clock (r.drawn + 1))
        k
        DelegationStatus.approved
        (some job.id)
        (some job)
        r
        r'
        d
        j
unfolding approve set_status
approve_sets supply kind k inputs who r r' d j h =
    go
      (Jobs.create (supply.uuid r.drawn) (supply.clock r.drawn) kind (job_request k inputs who)
        Json.end r.jobs)
      h
  where
    go :
        (c : Result (JobRecord × Jobs.Rows))
        → keep_job supply k r c ≡ (ok (d, j), r')
        → (job : JobRecord) × Set
            (supply.clock (r.drawn + 1))
            k
            DelegationStatus.approved
            (some job.id)
            (some job)
            r
            r'
            d
            j
    go (raised e) g = cc
    go (ok (job, rows)) g = (
      job,
      with_job_sets (supply.clock (r.drawn + 1)) k DelegationStatus.approved (some job.id)
          (some job) (record r { jobs = rows; drawn = r.drawn + 1 }) r' d j g,
    )
