-- ===== src/Skills/Latest.antt =====
-- The latest evaluation of a candidate (AgentEvaluationStore of src/sovereign_ai/kernel/skills.py).
use achilles.Prelude.{
  String, ◌≡◌, ◌≤◌, ◌<◌, ◌↔◌, refl, sym, ap, subst, Option, none, some, [], ◌∷◌, ◌++◌, ◌==◌, arith,
  eq_iff, All, All-map, All-append, Bool-cases, inl, inr, leb,
}
use achilles.Table
use achilles.Table.{IsKeyed}
use achilles.Table.Found
use achilles.Skills.{AgentEvaluationRecord}
use achilles.Skills.Evaluations

newer-All :
    (P : AgentEvaluationRecord → Type 0) (r : AgentEvaluationRecord)
    (o : Option AgentEvaluationRecord)
    → P r
    → ((x : AgentEvaluationRecord) → o ≡ some x → P x)
    → P (Evaluations.newer r o)
newer-All P r none p h = p
newer-All P r (some x) p h = elim (Bool-cases (leb r.created_at x.created_at)) [
  | inl older ↦ rw older (h x refl)
  | inr newest ↦ rw newest p
]

-- What holds of all rows holds of the newest.
newest-All :
    (P : AgentEvaluationRecord → Type 0) (rows : Evaluations.Rows) (e : AgentEvaluationRecord)
    → All P rows
    → Evaluations.newest rows ≡ some e
    → P e
unfolding Evaluations.newest
newest-All P [] e h found = cc
newest-All P (r ∷ rows) e (p, h) found =
    let same : Evaluations.newer r (Evaluations.newest rows) ≡ e = cc (found) in
    subst P same
      (newer-All P r (Evaluations.newest rows) p (λ x there. newest-All P rows x h there))

select-All :
    (P : AgentEvaluationRecord → Type 0) (k : String) (rows : Evaluations.Rows)
    → All P rows
    → All
        (λ e. P e × (e.skill_candidate_id ≡ k))
        (Table.select (λ e. e.skill_candidate_id == k) rows)
unfolding Table.select
select-All P k [] h = tt
select-All P k (r ∷ rows) (p, h) = elim (Bool-cases (r.skill_candidate_id == k)) [
  | inl same ↦ rw same ((p, (eq_iff r.skill_candidate_id k).0 same), select-All P k rows h)
  | inr other ↦ rw other (select-All P k rows h)
]

-- The latest evaluation of a candidate is of it, and is found under its id.
pub latest_found :
    (k : String) (rows : Evaluations.Rows) (e : AgentEvaluationRecord)
    → IsKeyed Evaluations.key rows
    → Evaluations.latest_for_candidate k rows ≡ some e
    → (Table.find Evaluations.key e.id rows ≡ some e) × (e.skill_candidate_id ≡ k)
unfolding Evaluations.latest_for_candidate
latest_found k rows e keyed h =
    newest-All (λ x. (Table.find Evaluations.key x.id rows ≡ some x) × (x.skill_candidate_id ≡ k))
      (Table.select (λ x. x.skill_candidate_id == k) rows) e
      (select-All (λ x. Table.find Evaluations.key x.id rows ≡ some x) k rows
        (Found.All-found Evaluations.key rows keyed))
      h

-- Row `e` is the last evaluation of `k`: none of those inserted before it is younger, and those
-- inserted after it are older.
pub record IsLatest (k : String) (rows : Evaluations.Rows) (e : AgentEvaluationRecord)
    : Type 0 where
  pub before : Evaluations.Rows
  pub after : Evaluations.Rows
  pub split : rows ≡ before ++ e ∷ after
  pub of_candidate : e.skill_candidate_id ≡ k
  pub earlier : All (λ x. x.skill_candidate_id ≡ k → x.created_at ≤ e.created_at) before
  pub older : All (λ x. x.skill_candidate_id ≡ k → x.created_at < e.created_at) after

IsLatest-bound :
    (k : String) (rows : Evaluations.Rows) (e : AgentEvaluationRecord)
    → IsLatest k rows e
    → All (λ x. x.skill_candidate_id ≡ k → x.created_at ≤ e.created_at) rows
IsLatest-bound k rows e l =
    subst (All (λ x. x.skill_candidate_id ≡ k → x.created_at ≤ e.created_at)) (sym l.split) (
      All-append (λ x. x.skill_candidate_id ≡ k → x.created_at ≤ e.created_at) l.before
        (e ∷ l.after) l.earlier
        (
          (λ same. omega arith),
          All-map (λ x. x.skill_candidate_id ≡ k → x.created_at < e.created_at)
              (λ x. x.skill_candidate_id ≡ k → x.created_at ≤ e.created_at)
              (λ x less same. omega (arith, less same)) l.after l.older,
        ))

IsLatest-skip :
    (k : String) (r e : AgentEvaluationRecord) (rows : Evaluations.Rows)
    → (r.skill_candidate_id ≡ k → r.created_at ≤ e.created_at)
    → IsLatest k rows e
    → IsLatest k (r ∷ rows) e
IsLatest-skip k r e rows bound l = record {
  before = r ∷ l.before;
  after = l.after;
  split = ap (λ x. r ∷ x) l.split;
  of_candidate = l.of_candidate;
  earlier = (bound, l.earlier);
  older = l.older;
}

none_of :
    (k : String) (rows : Evaluations.Rows) (e : AgentEvaluationRecord)
    → Evaluations.newest (Table.select (λ x. x.skill_candidate_id == k) rows) ≡ none
    → All (λ x. x.skill_candidate_id ≡ k → x.created_at < e.created_at) rows
unfolding Table.select Evaluations.newest
none_of k [] e h = tt
none_of k (r ∷ rows) e h = elim (Bool-cases (r.skill_candidate_id == k)) [
  | inl is ↦ cc (rw is at h)
  | inr other ↦ (
    (λ same. cc (other, (eq_iff r.skill_candidate_id k).1 same)),
    none_of k rows e (rw other at h),
  )
]

newest-IsLatest :
    (k : String) (rows : Evaluations.Rows) (e : AgentEvaluationRecord)
    → Evaluations.newest (Table.select (λ x. x.skill_candidate_id == k) rows) ≡ some e
    → IsLatest k rows e
unfolding Table.select Evaluations.newest
newest-IsLatest k [] e h = cc
newest-IsLatest k (r ∷ rows) e h = elim (Bool-cases (r.skill_candidate_id == k)) [
  | inr other ↦
      IsLatest-skip k r e rows (λ same. cc (other, (eq_iff r.skill_candidate_id k).1 same))
        (newest-IsLatest k rows e (rw other at h))
  | inl is ↦
      go (Evaluations.newest (Table.select (λ x. x.skill_candidate_id == k) rows)) refl (rw is at h)
        ((eq_iff r.skill_candidate_id k).0 is) (newest-IsLatest k rows)
]
  where
    first :
        r.skill_candidate_id ≡ k
        → All (λ x. x.skill_candidate_id ≡ k → x.created_at < r.created_at) rows
        → IsLatest k (r ∷ rows) r
    first of_k older = record {
      before = [];
      after = rows;
      split = refl;
      of_candidate = of_k;
      earlier = tt;
      older = older;
    }

    go :
        (o : Option AgentEvaluationRecord)
        → Evaluations.newest (Table.select (λ x. x.skill_candidate_id == k) rows) ≡ o
        → ◌≡◌ {A = Option AgentEvaluationRecord} (some (Evaluations.newer r o)) (some e)
        → r.skill_candidate_id ≡ k
        → ((x : AgentEvaluationRecord)
            → Evaluations.newest (Table.select (λ y. y.skill_candidate_id == k) rows) ≡ some x
            → IsLatest k rows x)
        → IsLatest k (r ∷ rows) e
    go none none_there q of_k ih =
        let same : r ≡ e = cc (q) in
        subst (IsLatest k (r ∷ rows)) same (first of_k (none_of k rows r none_there))
    go (some x) there q of_k ih = elim (Bool-cases (leb r.created_at x.created_at)) [
      | inl le ↦
          let same : x ≡ e = cc (rw le at q) in
          subst (IsLatest k (r ∷ rows)) same
            (IsLatest-skip k r x rows (λ _. ground (arith, le)) (ih x there))
      | inr gt ↦
          let same : r ≡ e = cc (rw gt at q) in
          subst (IsLatest k (r ∷ rows)) same (
            first of_k (
              All-map (λ y. y.skill_candidate_id ≡ k → y.created_at ≤ x.created_at)
                (λ y. y.skill_candidate_id ≡ k → y.created_at < r.created_at)
                (λ y below of_y. ground (arith, gt, below of_y)) rows
                (IsLatest-bound k rows x (ih x there))))
    ]

latest_newest :
    (k : String) (before after : Evaluations.Rows) (e : AgentEvaluationRecord)
    → e.skill_candidate_id ≡ k
    → All (λ x. x.skill_candidate_id ≡ k → x.created_at ≤ e.created_at) before
    → All (λ x. x.skill_candidate_id ≡ k → x.created_at < e.created_at) after
    → Evaluations.newest (Table.select (λ x. x.skill_candidate_id == k) (before ++ e ∷ after))
      ≡ some e
unfolding Table.select Evaluations.newest
latest_newest k [] after e of_k earlier older = rw ((eq_iff e.skill_candidate_id k).1 of_k) (
    ap (λ x. some x)
      (go (Evaluations.newest (Table.select (λ x. x.skill_candidate_id == k) after)) refl))
  where
    Older : AgentEvaluationRecord → Type 0
    Older x = x.skill_candidate_id ≡ k → x.created_at < e.created_at

    go :
        (o : Option AgentEvaluationRecord)
        → Evaluations.newest (Table.select (λ x. x.skill_candidate_id == k) after) ≡ o
        → Evaluations.newer e o ≡ e
    go none h = refl
    go (some x) h =
        let (less, same) =
          newest-All (λ y. Older y × (y.skill_candidate_id ≡ k))
            (Table.select (λ y. y.skill_candidate_id == k) after) x (select-All Older k after older)
            h in
        ground (arith, less same)
latest_newest k (r ∷ before) after e of_k (bound, earlier) older =
    elim (Bool-cases (r.skill_candidate_id == k)) [
      | inr other ↦ rw other (latest_newest k before after e of_k earlier older)
      | inl is ↦
          let rest = latest_newest k before after e of_k earlier older in
          rw (is, rest) (ground (arith, bound ((eq_iff r.skill_candidate_id k).0 is)))
    ]

-- The query of `latest_for_candidate` finds the last evaluation, and only it.
pub latest_for_candidate-IsLatest :
    (k : String) (rows : Evaluations.Rows) (e : AgentEvaluationRecord)
    → (Evaluations.latest_for_candidate k rows ≡ some e) ↔ IsLatest k rows e
unfolding Evaluations.latest_for_candidate
latest_for_candidate-IsLatest k rows e = (
  newest-IsLatest k rows e,
  λ l.
      subst (λ x. Evaluations.newest (Table.select (λ y. y.skill_candidate_id == k) x) ≡ some e)
        (sym l.split) (latest_newest k l.before l.after e l.of_candidate l.earlier l.older),
)
