-- ===== src/Workflows/Dag/Schedule.antt =====
-- What an order of the steps is, apart from any algorithm: one step after the other is run, each
-- when all that it depends on has been run (kernel/workflows.py).
use achilles.Prelude.{
  String, ◌≡◌, refl, Bool, true, false, ◌||◌, List, [], ◌∷◌, ◌++◌, arith, eq_iff, Bool-cases, inl,
  inr, All, All-middle, All-map, subst, ◌⊎◌,
}
use achilles.Table
use achilles.Table.Queries
use achilles.Workflows.Dag.{WorkflowStep, contains, subset, is_ready, ids}
use mathlib.Core.List.{append_assoc}

-- With `resolved` run, the remaining steps can be run one by one in some order.
pub data Schedule : List String → List WorkflowStep → Type 0 where
  finished : (resolved : List String) → Schedule resolved []
  runs :
      (resolved : List String) (remaining before after : List WorkflowStep) (step : WorkflowStep)
      → remaining ≡ before ++ step ∷ after
      → is_ready resolved step ≡ true
      → Schedule (step.id ∷ resolved) (before ++ after)
      → Schedule resolved remaining

-- Everything in `xs` is in `ys`.
abbrev pub Within : List String → List String → Type 0
Within xs ys = (k : String) → contains xs k ≡ true → contains ys k ≡ true

pub subset-Within :
    (xs ys zs : List String) → Within ys zs → subset xs ys ≡ true → subset xs zs ≡ true
unfolding subset
subset-Within [] ys zs w h = refl
subset-Within (x ∷ xs) ys zs w h = ground (arith, w x, subset-Within xs ys zs w)

pub Within-cons : (k : String) (ys zs : List String) → Within ys zs → Within (k ∷ ys) (k ∷ zs)
unfolding contains
Within-cons k ys zs w j h = ground (arith, w j)

pub Within-cons_of :
    (k : String) (ys zs : List String) → contains zs k ≡ true → Within ys zs → Within (k ∷ ys) zs
unfolding contains
Within-cons_of k ys zs m w j h = ground (arith, w j, eq_iff k j)

Within-later : (k : String) (ys : List String) → Within ys (k ∷ ys)
unfolding contains
Within-later k ys j h = rw h (ground arith)

pub contains-append :
    (k : String) (xs ys : List String) → contains (xs ++ ys) k ≡ contains xs k || contains ys k
unfolding contains
contains-append k [] ys = refl
contains-append k (x ∷ xs) ys = ground (arith, contains-append k xs ys)

Within-swap : (k : String) (xs ys : List String) → Within (k ∷ xs ++ ys) (xs ++ (k ∷ ys))
unfolding contains
Within-swap k xs ys j h = ground (arith, contains-append j xs ys, contains-append j xs (k ∷ ys))

-- More resolved steps never hurt.
pub Schedule-Within :
    {ys : List String} {remaining : List WorkflowStep} (zs : List String)
    → Within ys zs
    → Schedule ys remaining
    → Schedule zs remaining
Schedule-Within zs w (Schedule.finished ys) = Schedule.finished zs
Schedule-Within zs w (Schedule.runs ys remaining before after step split ready rest) =
    Schedule.runs zs remaining before after step split (subset-Within step.depends_on ys zs w ready)
      (Schedule-Within (step.id ∷ zs) (Within-cons step.id ys zs w) rest)

-- Where a schedule has a step to run, some step is ready.
pub some_ready :
    {resolved : List String} {remaining : List WorkflowStep}
    → Schedule resolved remaining
    → (remaining ≡ []) ⊎ (Table.exists (is_ready resolved) remaining ≡ true)
some_ready (Schedule.finished resolved) = inl refl
some_ready (Schedule.runs resolved remaining before after step split ready rest) =
    inr (rw split (Queries.exists-middle (is_ready resolved) before after step ready))

delete-append :
    (p : WorkflowStep → Bool) (xs ys : List WorkflowStep)
    → Table.delete p (xs ++ ys) ≡ Table.delete p xs ++ Table.delete p ys
unfolding Table.delete
delete-append p [] ys = refl
delete-append p (x ∷ xs) ys = ground (arith, delete-append p xs ys)

delete-middle_true :
    (p : WorkflowStep → Bool) (before after : List WorkflowStep) (s : WorkflowStep)
    → p s ≡ true
    → Table.delete p (before ++ s ∷ after) ≡ Table.delete p (before ++ after)
unfolding Table.delete
delete-middle_true p [] after s h = rw h
delete-middle_true p (x ∷ before) after s h = ground (arith, delete-middle_true p before after s h)

delete-middle_false :
    (p : WorkflowStep → Bool) (before after : List WorkflowStep) (s : WorkflowStep)
    → p s ≡ false
    → Table.delete p (before ++ s ∷ after) ≡ Table.delete p before ++ s ∷ Table.delete p after
unfolding Table.delete
delete-middle_false p [] after s h = rw h
delete-middle_false p (x ∷ before) after s h =
    ground (arith, delete-middle_false p before after s h)

-- A step that `p` picks is among the resolved ones `zs`.
abbrev pub Gone : (WorkflowStep → Bool) → List String → WorkflowStep → Type 0
Gone p zs s = p s ≡ true → contains zs s.id ≡ true

Gone-cons :
    (p : WorkflowStep → Bool) (zs : List String) (k : String) (s : WorkflowStep)
    → Gone p zs s
    → Gone p (k ∷ zs) s
unfolding contains
Gone-cons p zs k s h e = rw (h e) (ground arith)

-- Steps that count as resolved may be left out of a schedule.
pub Schedule-delete :
    {ys : List String} {remaining : List WorkflowStep} (p : WorkflowStep → Bool) (zs : List String)
    → Within ys zs
    → All (Gone p zs) remaining
    → Schedule ys remaining
    → Schedule zs (Table.delete p remaining)
Schedule-delete p zs w gone (Schedule.finished ys) = unfold Table.delete in Schedule.finished zs
Schedule-delete p zs w gone (Schedule.runs ys remaining before after step split ready rest) =
    let (here, others) =
      All-middle (Gone p zs) before after step (subst (All (Gone p zs)) split gone) in
    elim (Bool-cases (p step)) [
      | inl e ↦
          rw (split, delete-middle_true p before after step e)
            (Schedule-delete p zs (Within-cons_of step.id ys zs (here e) w) others rest)
      | inr e ↦
          rw (split, delete-middle_false p before after step e)
            (Schedule.runs zs _ (Table.delete p before) (Table.delete p after) step refl
              (subset-Within step.depends_on ys zs w ready)
              (rw (← delete-append p before after) (
                Schedule-delete p (step.id ∷ zs) (Within-cons step.id ys zs w)
                  (All-map (Gone p zs) (Gone p (step.id ∷ zs)) (Gone-cons p zs step.id)
                    (before ++ after) others)
                  rest)))
    ]

-- The other way: a schedule of the steps that are not ready, once the ready ones are resolved, is a
-- schedule of all of them. `kept` are the steps that were passed over.
pub Schedule-restore :
    (p : WorkflowStep → Bool) (ys : List String) (kept steps : List WorkflowStep)
    → ((s : WorkflowStep) → p s ≡ true → is_ready ys s ≡ true)
    → Schedule (ids (Table.select p steps) ++ ys) (kept ++ Table.delete p steps)
    → Schedule ys (kept ++ steps)
unfolding Table.delete Table.select
Schedule-restore p ys kept [] ready h = h
Schedule-restore p ys kept (s ∷ steps) ready h = elim (Bool-cases (p s)) [
  | inl e ↦ Schedule.runs ys _ kept steps s refl (ready s e) (
      Schedule-restore p (s.id ∷ ys) kept steps
        (λ x q. subset-Within x.depends_on ys (s.id ∷ ys) (Within-later s.id ys) (ready x q))
        (Schedule-Within _ (Within-swap s.id (ids (Table.select p steps)) ys) (rw e at h)))
  | inr e ↦ rw (← append_assoc kept (s ∷ []) steps) (
      Schedule-restore p ys (kept ++ s ∷ []) steps ready
        (rw (append_assoc kept (s ∷ []) (Table.delete p steps)) (rw e at h)))
]
