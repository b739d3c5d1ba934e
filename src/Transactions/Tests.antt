-- ===== src/Transactions/Tests.antt =====
-- Runs and witnesses for the sagas.
use achilles.Prelude.{ℕ, ◌+◌, ◌-◌, ◌≡◌, refl, sym, ap, false, none, some, List, [], ◌∷◌, arith}
use achilles.Transactions.{Outcome, TransactionStep, run, check}
use achilles.Transactions.Rollback.{IsCompensated, rollback_restores_world}

-- A world of one number: a step adds to it, and its undo subtracts.
abbrev subtract : ℕ → Outcome (Unit {0}) × ℕ
subtract w = (Outcome.returned tt, w - 5)

abbrev add : TransactionStep ℕ (Unit {0})
add = record {
  name = "add";
  do_fn = λ w. (Outcome.returned tt, w + 5);
  undo = some subtract;
  verify = none;
}

abbrev break_down : TransactionStep ℕ (Unit {0})
break_down = record {
  name = "break";
  do_fn = λ w. (Outcome.threw "broken", w);
  undo = some subtract;
  verify = none;
}

abbrev steps : List (TransactionStep ℕ (Unit {0}))
steps = add ∷ add ∷ break_down ∷ []

rolled_back : (run "t1" steps 1).result ≡ record {
  id = "t1";
  committed = false;
  completed = "add" ∷ "add" ∷ [];
  rolled_back = "add" ∷ "add" ∷ [];
  error = some "broken";
}
unfolding run
rolled_back = refl

add-IsCompensated : IsCompensated add
unfolding check
add-IsCompensated = record {
  undo_fn = subtract;
  has_undo = refl;
  takes_back = λ w w' output e.
      let moved : w + 5 ≡ w' = ap (λ (x : Outcome (Unit {0}) × ℕ). x.1) e in
      let back : w' - 5 ≡ w = omega (arith, moved) in ap (λ n. (Outcome.returned tt, n)) back;
  fails_clean = λ w w' text e. cc (e);
  verifies = λ w w' output e. refl;
}

break_down-IsCompensated : IsCompensated break_down
unfolding check
break_down-IsCompensated = record {
  undo_fn = subtract;
  has_undo = refl;
  takes_back = λ w w' output e. cc (e);
  fails_clean = λ w w' text e. sym (ap (λ (x : Outcome (Unit {0}) × ℕ). x.1) e);
  verifies = λ w w' output e. refl;
}

rollback_restores_world_example : (run "t1" steps 1).world ≡ 1
unfolding run
rollback_restores_world_example =
    rollback_restores_world "t1" steps 1
      (add-IsCompensated, (add-IsCompensated, (break_down-IsCompensated, tt))) refl
