-- ===== src/Triggers/Hits.antt =====
-- How often `due` (src/sovereign_ai/kernel/triggers.py) lists a trigger.
use achilles.Prelude.{
  ℕ, String, ◌≡◌, refl, subst, Bool, ◌==◌, eq_iff, none, some, [], ◌∷◌, arith, if◌then◌else◌, All,
  sum_of, Bool-cases, inl, inr,
}
use achilles.Table
use achilles.Table.{IsKeyed}
use achilles.Triggers.{RecurringTriggerRecord, Rows, key}

-- How often a trigger is in a list.
abbrev pub hits : String → Rows → ℕ
hits k = sum_of (λ t. if t.id == k then 1 else 0)

hits-select-none :
    (p : RecurringTriggerRecord → Bool) (k : String) (rows : Rows)
    → Table.find key k rows ≡ none
    → hits k (Table.select p rows) ≡ 0
unfolding Table.select Table.find
hits-select-none p k [] h = refl
hits-select-none p k (x ∷ rows) h = ground (arith, hits-select-none p k rows)

-- A keyed table's selection has a row once, if it has it.
pub hits-select :
    (p : RecurringTriggerRecord → Bool) (k : String) (rows : Rows) (r : RecurringTriggerRecord)
    → IsKeyed key rows
    → Table.find key k rows ≡ some r
    → hits k (Table.select p rows) ≡ (if p r then 1 else 0)
unfolding Table.select Table.find
hits-select p k [] r keyed h = cc (h)
hits-select p k (x ∷ rows) r (new, keyed) h = elim (Bool-cases (x.id == k)) [
  | inr n ↦
      let rest = hits-select p k rows r keyed (rw n at h) in
      elim (Bool-cases (p x)) [ inl e ↦ rw (e, n) (omega (arith, rest)) | inr e ↦ rw e rest ]
  | inl y ↦
      let same : x ≡ r = cc (rw y at h) in
      let gone : Table.find key k rows ≡ none =
        subst (λ j. Table.find key j rows ≡ none) ((eq_iff x.id k).0 y) new in
      let rest = hits-select-none p k rows gone in
      subst
        (λ z.
          hits k (if p x then x ∷ Table.select p rows else Table.select p rows)
          ≡ (if p z then 1 else 0))
        same (elim (Bool-cases (p x)) [ inl e ↦ rw (e, y, rest) refl | inr e ↦ rw (e, rest) refl ])
]

pub All-select :
    (P : RecurringTriggerRecord → Type 0) (p : RecurringTriggerRecord → Bool) (rows : Rows)
    → All P rows
    → All P (Table.select p rows)
unfolding Table.select
All-select P p [] h = tt
All-select P p (x ∷ rows) (q, h) = elim (Bool-cases (p x)) [
  | inl e ↦ rw e (q, All-select P p rows h)
  | inr n ↦ rw n (All-select P p rows h)
]
