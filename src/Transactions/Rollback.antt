-- ===== src/Transactions/Rollback.antt =====
-- What a saga leaves behind (transactions/manager.py).
use achilles.Prelude.{
  String, ◌≡◌, refl, sym, ap, ◌∙◌, subst, true, false, Option, none, some, List, [], ◌∷◌, ◌++◌, map,
  All,
}
use achilles.Transactions.{
  Outcome, TransactionStep, TransactionResult, Saga, add_error, after_undo, undo_step, undo_all,
  roll_back, check, after_do, complete, go_on, run_steps, run,
}
use mathlib.Core.List.{append_assoc, append-nil, map-append}

add_error_keeps :
    (text : String) (r : TransactionResult) (e : Option String)
    → ((add_error text (record r { error = e })).committed ≡ r.committed)
      × ((add_error text (record r { error = e })).completed ≡ r.completed)
add_error_keeps text r none = (refl, refl)
add_error_keeps text r (some x) = (refl, refl)

module _ {W : Type 0} where
  after_undo_keeps :
      (name : String) (c : Outcome (Unit {0}) × W) (s : Saga W)
      → ((after_undo name c s).result.committed ≡ s.result.committed)
        × ((after_undo name c s).result.completed ≡ s.result.completed)
  unfolding after_undo
  after_undo_keeps name (Outcome.returned u, w) s = (refl, refl)
  after_undo_keeps name (Outcome.threw text, w) s = add_error_keeps _ s.result s.result.error

module _ {W A : Type 0} where
  -- The step has an undo that takes the world back to where it was, raises only when it has changed
  -- nothing, and its post-condition holds when it has run.
  pub record IsCompensated (step : TransactionStep W A) : Type 0 where
    pub undo_fn : W → Outcome (Unit {0}) × W
    pub has_undo : step.undo ≡ some undo_fn
    pub takes_back :
        (w w' : W) (output : A)
        → step.do_fn w ≡ (Outcome.returned output, w')
        → undo_fn w' ≡ (Outcome.returned tt, w)
    pub fails_clean : (w w' : W) (text : String) → step.do_fn w ≡ (Outcome.threw text, w') → w' ≡ w
    pub verifies :
        (w w' : W) (output : A)
        → step.do_fn w ≡ (Outcome.returned output, w')
        → check output step.verify w' ≡ (Outcome.returned true, w')

  -- Undoing these steps in this order takes `w` to `start`.
  abbrev Undoes : List (TransactionStep W A) → W → W → Type 0
  Undoes [] w start = w ≡ start
  Undoes (step ∷ steps) w start =
      (undo : W → Outcome (Unit {0}) × W) × (v : W) × (step.undo ≡ some undo)
      × (undo w ≡ (Outcome.returned tt, v))
      × Undoes steps v start

  undo_all_world :
      (steps : List (TransactionStep W A)) (s : Saga W) (start : W)
      → Undoes steps s.world start
      → (undo_all steps s).world ≡ start
  unfolding undo_all undo_step after_undo
  undo_all_world [] s start h = h
  undo_all_world (step ∷ steps) s start (undo, v, has, e, later) =
      ap (λ t. (undo_all steps t).world) undone ∙ undo_all_world steps after start later
    where
      after : Saga W
      after = record s {
        world = v;
        result = record (s.result) { rolled_back = s.result.rolled_back ++ step.name ∷ [] };
      }

      undone : undo_step step.name step.undo s ≡ after
      undone = ap (λ o. undo_step step.name o s) has ∙ ap (λ c. after_undo step.name c s) e

  run_steps_world :
      (steps completed : List (TransactionStep W A)) (s : Saga W) (start : W)
      → All IsCompensated steps
      → Undoes completed s.world start
      → (run_steps steps completed s).result.committed ≡ false
      → (run_steps steps completed s).world ≡ start
  unfolding run_steps roll_back
  run_steps_world [] completed s start h u c = cc
  run_steps_world (step ∷ steps) completed s start (h, hs) u c =
      go (step.do_fn s.world) refl c
        (λ t v d. run_steps_world steps (step ∷ completed) t start hs v d)
    where
      go :
          (o : Outcome A × W)
          → step.do_fn s.world ≡ o
          → (go_on completed step s
              (after_do step o)
              (λ t. run_steps steps (step ∷ completed) t)).result.committed
            ≡ false
          → ((t : Saga W)
              → Undoes (step ∷ completed) t.world start
              → (run_steps steps (step ∷ completed) t).result.committed ≡ false
              → (run_steps steps (step ∷ completed) t).world ≡ start)
          → (go_on completed step s
              (after_do step o)
              (λ t. run_steps steps (step ∷ completed) t)).world
            ≡ start
      go (Outcome.threw text, w) e d ih =
          undo_all_world completed
            (record s { world = w; result = record (s.result) { error = some text } }) start
            (subst (λ x. Undoes completed x start) (sym (h.fails_clean s.world w text e)) u)
      go (Outcome.returned output, w) e d ih =
          let verified = h.verifies s.world w output e in
          rw verified (
            ih (complete step.name (record s { world = w }))
              (h.undo_fn, s.world, h.has_undo, h.takes_back s.world w output e, u)
              (rw verified at d))

  -- A saga that does not commit leaves the world as it was, if each of its steps can be undone from
  -- where it leads to, changes nothing when it raises, and meets its post-condition. The undos run in
  -- the opposite order.
  pub rollback_restores_world :
      (txid : String) (steps : List (TransactionStep W A)) (w : W)
      → All IsCompensated steps
      → (run txid steps w).result.committed ≡ false
      → (run txid steps w).world ≡ w
  unfolding run
  rollback_restores_world txid steps w h c = run_steps_world steps [] _ w h refl c

  abbrev pub name_of : TransactionStep W A → String
  name_of step = step.name

  -- What the result says of the steps.
  pub data Reports (steps : List (TransactionStep W A)) (r : TransactionResult) : Type 0 where
    all_done :
        r.committed ≡ true → r.completed ≡ map name_of steps → r.error ≡ none → Reports steps r
    some_failed :
        (before after : List (TransactionStep W A)) (step : TransactionStep W A)
        → steps ≡ before ++ step ∷ after
        → r.committed ≡ false
        → r.completed ≡ map name_of before
        → Reports steps r

  undo_all_keeps :
      (steps : List (TransactionStep W A)) (s : Saga W)
      → ((undo_all steps s).result.committed ≡ s.result.committed)
        × ((undo_all steps s).result.completed ≡ s.result.completed)
  unfolding undo_all undo_step
  undo_all_keeps [] s = (refl, refl)
  undo_all_keeps (step ∷ steps) s =
      let (c, d) = undo_all_keeps steps (undo_step step.name step.undo s) in
      let (c', d') = one step.undo in (c ∙ c', d ∙ d')
    where
      one :
          (o : Option (W → Outcome (Unit {0}) × W))
          → ((undo_step step.name o s).result.committed ≡ s.result.committed)
            × ((undo_step step.name o s).result.completed ≡ s.result.completed)
      one none = (refl, refl)
      one (some undo) = after_undo_keeps step.name (undo s.world) s

  roll_back_reports :
      (text : String) (done : List (TransactionStep W A)) (s : Saga W)
      → ((roll_back text done s).result.committed ≡ s.result.committed)
        × ((roll_back text done s).result.completed ≡ s.result.completed)
  unfolding roll_back
  roll_back_reports text done s =
      undo_all_keeps done (record s { result = record (s.result) { error = some text } })

  run_steps_reports :
      (before steps completed : List (TransactionStep W A)) (s : Saga W)
      → s.result.committed ≡ false
      → s.result.error ≡ none
      → s.result.completed ≡ map name_of before
      → Reports (before ++ steps) (run_steps steps completed s).result
  unfolding run_steps
  run_steps_reports before [] completed s c e d =
      Reports.all_done refl (d ∙ ap (λ l. map name_of l) (sym (append-nil before))) e
  run_steps_reports before (step ∷ steps) completed s c e d =
      go (after_do step (step.do_fn s.world)) (λ t c' e' d'.
        subst (λ l. Reports l (run_steps steps (step ∷ completed) t).result)
          (append_assoc before (step ∷ []) steps)
          (run_steps_reports (before ++ step ∷ []) steps (step ∷ completed) t c' e' d'))
    where
      go :
          (o : Outcome (Unit {0}) × W)
          → ((t : Saga W)
              → t.result.committed ≡ false
              → t.result.error ≡ none
              → t.result.completed ≡ map name_of (before ++ step ∷ [])
              → Reports (before ++ step ∷ steps) (run_steps steps (step ∷ completed) t).result)
          → Reports
              (before ++ step ∷ steps)
              (go_on completed step s o (λ t. run_steps steps (step ∷ completed) t)).result
      go (Outcome.threw text, w) ih =
          let (c', d') = roll_back_reports text completed (record s { world = w }) in
          Reports.some_failed before steps step refl (c' ∙ c) (d' ∙ d)
      go (Outcome.returned u, w) ih =
          ih (complete step.name (record s { world = w })) c e
            (ap (λ l. l ++ step.name ∷ []) d ∙ sym (map-append name_of before (step ∷ [])))

  -- A saga commits when every step has run and verified, in order, with no error; else some step
  -- failed, it does not commit, and it reports as completed exactly the steps before that one.
  pub run_reports :
      (txid : String) (steps : List (TransactionStep W A)) (w : W)
      → Reports steps (run txid steps w).result
  unfolding run
  run_reports txid steps w = run_steps_reports [] steps [] _ refl refl refl
