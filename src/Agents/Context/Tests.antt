-- ===== src/Agents/Context/Tests.antt =====
-- Tests of the compaction (src/sovereign_ai/agents/context.py).
use achilles.Prelude.{
  ℕ, String, ◌≡◌, refl, true, Option, none, some, List, [], ◌∷◌, ◌++◌, length, ltb, if◌then◌else◌,
}
use achilles.Prelude.Order.{insertion_sort}
use achilles.Json.{Json, end, field, nil, cons, text, boolean, array, object}
use achilles.Agents.Context.{
  ContextBudget, Turn, Note, note_of, compact_history, observation_digest, truncate_observation,
  load_project_instructions,
}
use achilles.Agents.Context.Elision.{
  leading, recent, elided, total, cut_by_turns_only, note_accounts,
}

abbrev str : Json → String
str v = "value"

abbrev size : Turn → ℕ
size t = 10

abbrev budget : ContextBudget
budget = record {
  keep_recent_turns = 1;
  keep_leading_turns = 1;
  max_observation_chars = 4;
  max_history_chars = 5;
}

abbrev call : String → Option Json → Turn
call tool observation = record {
  action = some (field "tool" (text tool) end);
  observation = observation;
}

abbrev denied : Json
denied = object (field "denied" (boolean true) end)

abbrev history : List Turn
history =
    call "read" none
    ∷ call "write" (some denied)
    ∷ call "read" none
    ∷ call "write" (some denied)
    ∷ call "done" none
    ∷ []

abbrev note : Note
note = record { elided_turns = 3; tools = ("read", 1) ∷ ("write(denied)", 2) ∷ [] }

cut_runs :
    compact_history str size history budget ≡ (call "read" none ∷ call "done" none ∷ [], some note)
unfolding compact_history note_of insertion_sort
cut_runs = refl

-- Two turns of ten characters each, with a limit of five.
too_long_is_kept :
    compact_history str size (call "read" none ∷ call "done" none ∷ []) budget
    ≡ (call "read" none ∷ call "done" none ∷ [], none)
unfolding compact_history
too_long_is_kept = refl

batch_runs :
    observation_digest str (record {
      action = some (field "batch" (array (cons (text "a") (cons (text "b") nil))) end);
      observation = some (array (cons (object (field "observation" denied end)) nil));
    })
    ≡ "batch(2)(denied)"
unfolding observation_digest
batch_runs = refl

truncate_runs : truncate_observation "[1,2,3,4,5,6,7]" budget ≡ "[1,2...[+11 chars]"
unfolding truncate_observation
truncate_runs = refl

instructions_run : load_project_instructions (none ∷ some "  " ∷ some " go\n" ∷ []) ≡ some "go"
unfolding load_project_instructions
instructions_run = refl

cut_by_turns_only_example : compact_history str size history budget ≡ (
    if ltb 2 5
    then (
      leading history budget ++ recent history budget,
      some (note_of str (elided history budget)),
    )
    else (history, none))
cut_by_turns_only_example = cut_by_turns_only str size history budget

note_accounts_example :
    (first : List Turn) × (between : List Turn) × (last : List Turn) × (history
      ≡ first ++ (between ++ last))
    × (call "read" none ∷ call "done" none ∷ [] ≡ first ++ last)
    × (length first ≡ 1)
    × (length last ≡ 1)
    × (3 ≡ length between)
    × (total note.tools ≡ length between)
note_accounts_example =
    note_accounts str size history (call "read" none ∷ call "done" none ∷ []) budget note cut_runs
