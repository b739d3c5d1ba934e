-- ===== src/Triggers/Fired.antt =====
-- What one round of the scheduler's loop makes of the rows and of the jobs that are submitted
-- (src/sovereign_ai/kernel/trigger_scheduler.py).
use achilles.Prelude.{
  ℕ, String, ◌≡◌, refl, sym, ap, ◌∙◌, false, ◌==◌, ◌⊎◌, Option, some, List, [], ◌∷◌, ◌++◌, Result,
  ok, raised, value_error, permission_error, integrity_error, assertion_error, key_error,
  runtime_error, already_exists, skill_promotion_error, attribute_error, index_error, Supply, inl,
  inr,
}
use mathlib.Core.List.{append-nil, append_assoc}
use achilles.Jobs.{JobRecord}
use achilles.Table
use achilles.Triggers
use achilles.Triggers.{RecurringTriggerRecord, ran, switched, time_at}
use achilles.Triggers.Rows.{mark_ran_ok, set_enabled_ok}
use achilles.Triggers.Scheduler.{
  TriggerScheduler, and_then, with_rows, with_dispatcher, after_reading, submit_all, disable,
  reschedule, after_start,
}
use achilles.Workflows.Instances.{WorkflowInstanceRecord}
use achilles.Workflows.Service.{Answer}

module _ {D : Type 0} (supply : Supply)
    (submit_callback : JobRecord → D → Result (Unit {0}) × D) where
  abbrev Submission : Type 0
  Submission = Result (Unit {0}) × TriggerScheduler D

  -- Submissions that go through leave the triggers alone, and add their jobs to those submitted.
  submit_all_ok :
      (jobs : List JobRecord) (s s' : TriggerScheduler D)
      → submit_all supply submit_callback jobs s ≡ (ok tt, s')
      → (s'.triggers ≡ s.triggers) × (s'.kernel ≡ s.kernel) × (s'.submitted ≡ s.submitted ++ jobs)
  unfolding submit_all
  submit_all_ok [] s s' h = (
    sym (ap (λ (x : Submission). x.1.triggers) h),
    sym (ap (λ (x : Submission). x.1.kernel) h),
    sym (ap (λ (x : Submission). x.1.submitted) h) ∙ sym (append-nil s.submitted),
  )
  submit_all_ok (job ∷ jobs) s s' h =
      go (submit_callback job s.dispatcher) h (λ t. submit_all_ok jobs t s')
    where
      go :
          (c : Result (Unit {0}) × D)
          → and_then (with_dispatcher job s c) (λ t. submit_all supply submit_callback jobs t)
            ≡ (ok tt, s')
          → ((t : TriggerScheduler D)
              → submit_all supply submit_callback jobs t ≡ (ok tt, s')
              → (s'.triggers ≡ t.triggers)
                × (s'.kernel ≡ t.kernel)
                × (s'.submitted ≡ t.submitted ++ jobs))
          → (s'.triggers ≡ s.triggers)
            × (s'.kernel ≡ s.kernel)
            × (s'.submitted ≡ s.submitted ++ job ∷ jobs)
      go (raised e, d) f ih = cc (f)
      go (ok u, d) f ih =
          let (same, kernel, more) =
            ih (record s { dispatcher = d; submitted = s.submitted ++ job ∷ [] }) f in
          (same, kernel, more ∙ append_assoc s.submitted (job ∷ []) jobs)

  -- The workflow was started, the row is put off from the time of `mark_ran`, and the jobs were
  -- submitted.
  abbrev pub Started : Option ℕ → String → Answer → TriggerScheduler D → TriggerScheduler D → Type 0
  Started now i a s s' =
      (instance' : WorkflowInstanceRecord) × (jobs : List JobRecord)
      × (row : RecurringTriggerRecord) × (a.0 ≡ ok (instance', jobs))
      × (Triggers.get i s.triggers ≡ some row)
      × (s'.triggers
          ≡ Table.update (λ r. r.id == i)
              (ran (time_at now (supply.clock a.1.drawn)) row.interval_seconds) s.triggers)
      × (s'.kernel ≡ after_reading now a.1)
      × (s'.submitted ≡ s.submitted ++ jobs)

  -- `start` raised ValueError, and the row is switched off.
  abbrev pub Disabled : String → Answer → TriggerScheduler D → TriggerScheduler D → Type 0
  Disabled i a s s' =
      (a.0 ≡ raised value_error)
      × (s'.triggers ≡ Table.update (λ r. r.id == i) (switched false) s.triggers)
      × (s'.kernel ≡ a.1)
      × (s'.submitted ≡ s.submitted)

  pub after_start_ok :
      (now : Option ℕ) (i : String) (a : Answer) (s s' : TriggerScheduler D)
      → after_start supply submit_callback now i a s ≡ (ok tt, s')
      → Started now i a s s' ⊎ Disabled i a s s'
  unfolding after_start disable reschedule
  after_start_ok now i (ok (instance', jobs), kernel) s s' h =
      go (Triggers.mark_ran now (supply.clock kernel.drawn) i s.triggers) refl h
    where
      go :
          (c : Result (RecurringTriggerRecord × Triggers.Rows))
          → Triggers.mark_ran now (supply.clock kernel.drawn) i s.triggers ≡ c
          → and_then
              (with_rows (record s { kernel = after_reading now kernel }) c)
              (λ t. submit_all supply submit_callback jobs t)
            ≡ (ok tt, s')
          → Started now i (ok (instance', jobs), kernel) s s'
            ⊎ Disabled i (ok (instance', jobs), kernel) s s'
      go (raised e) f g = cc (g)
      go (ok (t, rows)) f g =
          let (same, stored, more) =
            submit_all_ok jobs (record s { kernel = after_reading now kernel; triggers = rows }) s'
              g in
          let (row, found, changed) =
            mark_ran_ok now (supply.clock kernel.drawn) i s.triggers rows t f in
          inl (instance', jobs, row, refl, found, same ∙ changed, stored, more)
  after_start_ok now i (raised value_error, kernel) s s' h =
      go (Triggers.set_enabled i false s.triggers) refl h
    where
      go :
          (c : Result (RecurringTriggerRecord × Triggers.Rows))
          → Triggers.set_enabled i false s.triggers ≡ c
          → with_rows (record s { kernel = kernel }) c ≡ (ok tt, s')
          → Started now i (raised value_error, kernel) s s'
            ⊎ Disabled i (raised value_error, kernel) s s'
      go (raised e) f g = cc (g)
      go (ok (t, rows)) f g = inr (
        refl,
        sym (ap (λ (x : Submission). x.1.triggers) g) ∙ set_enabled_ok i false s.triggers rows t f,
        sym (ap (λ (x : Submission). x.1.kernel) g),
        sym (ap (λ (x : Submission). x.1.submitted) g),
      )
  after_start_ok now i (raised permission_error, kernel) s s' h = cc (h)
  after_start_ok now i (raised integrity_error, kernel) s s' h = cc (h)
  after_start_ok now i (raised assertion_error, kernel) s s' h = cc (h)
  after_start_ok now i (raised key_error, kernel) s s' h = cc (h)
  after_start_ok now i (raised runtime_error, kernel) s s' h = cc (h)
  after_start_ok now i (raised already_exists, kernel) s s' h = cc (h)
  after_start_ok now i (raised skill_promotion_error, kernel) s s' h = cc (h)
  after_start_ok now i (raised attribute_error, kernel) s s' h = cc (h)
  after_start_ok now i (raised index_error, kernel) s s' h = cc (h)
