-- ===== src/Triggers/Rows.antt =====
-- What the store's statements do to the row of a trigger and to the others
-- (src/sovereign_ai/kernel/triggers.py).
use achilles.Prelude.{
  ℕ, String, ◌≡◌, refl, ◌∙◌, false, ◌==◌, eq_iff, eq_refl, Option, none, some, Result, ok, raised,
  value_error, fetched, ◌>>=◌, Bool-cases, inl, inr, Bool, arith,
}
use achilles.Table
use achilles.Table.Laws
use achilles.Triggers
use achilles.Triggers.{RecurringTriggerRecord, Rows, key, ran, switched, time_at}

pub mark_ran_ok :
    (now : Option ℕ) (reading : ℕ) (i : String) (rows rows' : Rows) (t : RecurringTriggerRecord)
    → Triggers.mark_ran now reading i rows ≡ ok (t, rows')
    → (row : RecurringTriggerRecord) × (Triggers.get i rows ≡ some row)
      × (rows'
          ≡ Table.update (λ r. r.id == i) (ran (time_at now reading) row.interval_seconds) rows)
unfolding Triggers.mark_ran
mark_ran_ok now reading i rows rows' t h = go (Triggers.get i rows) refl h
  where
    after : ℕ → Rows
    after n = Table.update (λ r. r.id == i) (ran (time_at now reading) n) rows

    go :
        (o : Option RecurringTriggerRecord)
        → Triggers.get i rows ≡ o
        → ◌≡◌ {A = Result (RecurringTriggerRecord × Rows)}
            (elim o [
              | none ↦ raised value_error
              | some row ↦
                  fetched (Triggers.get i (after row.interval_seconds))
                  >>= (λ x. ok (x, after row.interval_seconds))
            ])
            (ok (t, rows'))
        → (row : RecurringTriggerRecord) × (Triggers.get i rows ≡ some row)
          × (rows' ≡ after row.interval_seconds)
    go none e f = cc (f)
    go (some row) e f = found (Triggers.get i (after row.interval_seconds)) f
      where
        found :
            (c : Option RecurringTriggerRecord)
            → ◌≡◌ {A = Result (RecurringTriggerRecord × Rows)}
                (fetched c >>= (λ x. ok (x, after row.interval_seconds)))
                (ok (t, rows'))
            → (row : RecurringTriggerRecord) × (Triggers.get i rows ≡ some row)
              × (rows' ≡ after row.interval_seconds)
        found none g = cc (g)
        found (some x) g = (row, e, cc (g))

pub set_enabled_ok :
    (i : String) (enabled : Bool) (rows rows' : Rows) (t : RecurringTriggerRecord)
    → Triggers.set_enabled i enabled rows ≡ ok (t, rows')
    → rows' ≡ Table.update (λ r. r.id == i) (switched enabled) rows
unfolding Triggers.set_enabled
set_enabled_ok i enabled rows rows' t h = elim (Bool-cases (Table.exists (λ r. r.id == i) rows)) [
  | inr n ↦ cc (rw n at h)
  | inl e ↦ go (Triggers.get i after) (rw e at h)
]
  where
    after : Rows
    after = Table.update (λ r. r.id == i) (switched enabled) rows

    go :
        (c : Option RecurringTriggerRecord)
        → ◌≡◌ {A = Result (RecurringTriggerRecord × Rows)}
            (fetched c >>= (λ x. ok (x, after)))
            (ok (t, rows'))
        → rows' ≡ after
    go none g = cc (g)
    go (some x) g = cc (g)

-- An UPDATE by id changes that row, and no other.
pub get-update_id :
    (i : String) (g : RecurringTriggerRecord → RecurringTriggerRecord)
    → ((r : RecurringTriggerRecord) → (g r).id ≡ r.id)
    → (rows : Rows) (r : RecurringTriggerRecord) → Triggers.get i rows ≡ some r
    → Triggers.get i (Table.update (λ x. x.id == i) g rows) ≡ some (g r)
unfolding Triggers.get
get-update_id i g same rows r found =
    rw
      (
        Laws.find-update key (λ x. x.id == i) g same i rows,
        found,
        Laws.find-key key i rows r found,
        eq_refl i,
      )
      refl

pub get-update_other :
    (i k : String) (g : RecurringTriggerRecord → RecurringTriggerRecord)
    → ((r : RecurringTriggerRecord) → (g r).id ≡ r.id)
    → (rows : Rows) → i == k ≡ false
    → Triggers.get k (Table.update (λ x. x.id == i) g rows) ≡ Triggers.get k rows
unfolding Triggers.get
get-update_other i k g same rows apart =
    Laws.find-update key (λ x. x.id == i) g same k rows ∙ go (Table.find key k rows) refl
  where
    go :
        (o : Option RecurringTriggerRecord)
        → Table.find key k rows ≡ o
        → Laws.updated (λ x. x.id == i) g o ≡ o
    go none e = refl
    go (some r) e =
        let other : r.id == i ≡ false =
          ground (arith, apart, Laws.find-key key k rows r e, eq_iff r.id i, eq_iff i k) in
        rw other refl
