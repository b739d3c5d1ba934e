-- ===== src/Transactions.antt =====
-- TransactionManager (src/sovereign_ai/transactions/manager.py): a saga of steps, each with an undo.
-- The world that the steps act on, and the text of an exception, are parameters: a step's callables
-- are functions on the world that return or raise. The journal is the list of the texts written.
pub mod Rollback
mod Tests
use achilles.Prelude.{
  String, Bool, true, false, Option, none, some, List, [], ◌∷◌, ◌++◌, concat, if◌then◌else◌,
}

-- What an awaited callable does: it returns a value or raises an exception with a message.
pub data Outcome (A : Type 0) : Type 0 where
  returned : A → Outcome A
  threw : String → Outcome A

pub record TransactionStep (W A : Type 0) : Type 0 where
  pub name : String
  pub do_fn : W → Outcome A × W
  pub undo : Option (W → Outcome (Unit {0}) × W)
  pub verify : Option (A → W → Outcome Bool × W)

pub record TransactionResult : Type 0 where
  pub id : String
  pub committed : Bool
  pub completed : List String
  pub rolled_back : List String
  pub error : Option String

-- The variables of `run`; `journal` has the payloads in the order of the writes, each of which
-- replaces the file.
pub record Saga (W : Type 0) : Type 0 where
  pub world : W
  pub result : TransactionResult
  pub journal : List TransactionResult

-- `result.error += ...`
abbrev pub add_error : String → TransactionResult → TransactionResult
add_error text r = elim r.error [
  | none ↦ record r { error = some text }
  | some e ↦ record r { error = some (concat e text) }
]

abbrev pub fresh_result : String → TransactionResult
fresh_result txid = record {
  id = txid;
  committed = false;
  completed = [];
  rolled_back = [];
  error = none;
}

module _ {W : Type 0} where
  abbrev pub write_journal : Saga W → Saga W
  write_journal s = record s { journal = s.journal ++ s.result ∷ [] }

  -- What follows an undo.
  unfoldable pub after_undo : String → Outcome (Unit {0}) × W → Saga W → Saga W
  after_undo name (Outcome.returned u, w) s = record s {
    world = w;
    result = record (s.result) { rolled_back = s.result.rolled_back ++ name ∷ [] };
  }
  after_undo name (Outcome.threw text, w) s = record s {
    world = w;
    result = add_error (concat " | rollback " (concat name (concat " failed: " text))) s.result;
  }

  unfoldable pub undo_step : String → Option (W → Outcome (Unit {0}) × W) → Saga W → Saga W
  unfolding after_undo
  undo_step name none s = s
  undo_step name (some undo) s = after_undo name (undo s.world) s

  -- `raise RuntimeError(...)` where the post-condition does not hold
  abbrev pub after_check : String → Outcome Bool × W → Outcome (Unit {0}) × W
  after_check name (Outcome.threw text, w) = (Outcome.threw text, w)
  after_check name (Outcome.returned false, w) =
      (Outcome.threw (concat "Post-condition failed: " name), w)
  after_check name (Outcome.returned true, w) = (Outcome.returned tt, w)

  abbrev pub complete : String → Saga W → Saga W
  complete name s =
      write_journal
        (record s { result = record (s.result) { completed = s.result.completed ++ name ∷ [] } })

  abbrev pub commit : Saga W → Saga W
  commit s = write_journal (record s { result = record (s.result) { committed = true } })

module _ {W A : Type 0} where
  -- `for step, _ in reversed(completed)`: the completed steps, the last one first
  unfoldable pub undo_all : List (TransactionStep W A) → Saga W → Saga W
  unfolding undo_step
  undo_all [] s = s
  undo_all (step ∷ steps) s = undo_all steps (undo_step step.name step.undo s)

  -- The handler of an exception.
  unfoldable pub roll_back : String → List (TransactionStep W A) → Saga W → Saga W
  unfolding undo_all
  roll_back text completed s =
      write_journal
        (undo_all completed (record s { result = record (s.result) { error = some text } }))

  -- `if step.verify and not await step.verify(output)`
  unfoldable pub check : A → Option (A → W → Outcome Bool × W) → W → Outcome Bool × W
  check output none w = (Outcome.returned true, w)
  check output (some verify) w = verify output w

  -- What follows `await step.do()`.
  abbrev pub after_do : TransactionStep W A → Outcome A × W → Outcome (Unit {0}) × W
  after_do step (Outcome.threw text, w) = (Outcome.threw text, w)
  after_do step (Outcome.returned output, w) = after_check step.name (check output step.verify w)

  -- What follows a round of the loop.
  abbrev pub go_on :
      List (TransactionStep W A)
      → TransactionStep W A
      → Saga W
      → Outcome (Unit {0}) × W
      → (Saga W → Saga W)
      → Saga W
  go_on completed step s (Outcome.threw text, w) next =
      roll_back text completed (record s { world = w })
  go_on completed step s (Outcome.returned u, w) next =
      next (complete step.name (record s { world = w }))

  -- The loop over the steps; `completed` has the completed ones, the last one first.
  unfoldable pub run_steps :
      List (TransactionStep W A) → (completed : List (TransactionStep W A)) → Saga W → Saga W
  unfolding check roll_back
  run_steps [] completed s = commit s
  run_steps (step ∷ steps) completed s =
      go_on completed step s (after_do step (step.do_fn s.world))
        (λ t. run_steps steps (step ∷ completed) t)

  unfoldable pub run : (txid : String) → List (TransactionStep W A) → W → Saga W
  unfolding run_steps
  run txid steps w =
      run_steps steps [] (record { world = w; result = fresh_result txid; journal = [] })
