-- ===== src/Agents/Context.antt =====
-- The context of an agent loop (src/sovereign_ai/agents/context.py): how its history is cut down. The
-- length of a turn as JSON, and `str` of a JSON value that is no text, are parameters.
pub mod Elision
pub mod Digits
mod Tests
use Prim.Native.String.{count, compare}
use package.text.Mathlib.Text.{is_le}
use achilles.Prelude.{
  ℕ, zero, suc, ◌+◌, ◌-◌, ◌/◌, ◌%◌, String, Bool, true, false, not, ◌&&◌, ◌||◌, ◌==◌, leb, ltb,
  nat_eq, Option, none, some, List, [], ◌∷◌, ◌++◌, map, any, length, sum_of, take, drop, concat,
  if◌then◌else◌,
}
use achilles.Prelude.Order.{insertion_sort}
use achilles.Json
use achilles.Json.{Json, Items, Fields, end, nil, cons, null, boolean, number, text, array, object}
use achilles.Collaboration.Text.{is_empty, strip}

pub record ContextBudget : Type 0 where
  pub keep_recent_turns : ℕ
  pub keep_leading_turns : ℕ
  pub max_observation_chars : ℕ
  pub max_history_chars : ℕ

-- A turn of the history, with `action` and `observation` where they are set.
pub record Turn : Type 0 where
  pub action : Option Fields
  pub observation : Option Json

-- bool(v)
abbrev pub is_true : Json → Bool
is_true null = false
is_true (boolean b) = b
is_true (number n) = ltb 0 n
is_true (text t) = not (is_empty t)
is_true (array nil) = false
is_true (array (cons v items)) = true
is_true (object Fields.end) = false
is_true (object (Fields.field k v fs)) = true

-- bool(d.get(k))
unfoldable pub has : Fields → String → Bool
unfolding Json.get
has fs k = elim (Json.get fs k) [ none ↦ false | some v ↦ is_true v ]

abbrev pub digit : ℕ → String
digit n = elim (nat_eq n 0) [
  | true ↦ "0"
  | false ↦
      if nat_eq n 1
      then "1"
      else if nat_eq n 2
      then "2"
      else if nat_eq n 3
      then "3"
      else if nat_eq n 4
      then "4"
      else if nat_eq n 5
      then "5"
      else if nat_eq n 6
      then "6"
      else if nat_eq n 7
      then "7"
      else if nat_eq n 8
      then "8"
      else "9"
]

-- str(n); a number has fewer digits than its value and one
unfoldable pub decimal_of : (fuel : ℕ) → ℕ → String
decimal_of zero n = ""
decimal_of (suc fuel) n =
    let more = concat (decimal_of fuel (n / 10)) (digit (n % 10)) in
    if ltb n 10 then digit n else more

abbrev pub decimal : ℕ → String
decimal n = decimal_of (suc n) n

unfoldable pub items_length : Items → ℕ
items_length nil = 0
items_length (cons v items) = suc (items_length items)

-- The part of `_observation_digest` on `item.get("observation")` of a list of observations.
abbrev pub nested_has : String → Json → Bool
unfolding has Json.get
nested_has k (object fs) = elim (Json.get fs "observation") [
  | some (object inner) ↦ has inner k
  | _ ↦ false
]
nested_has k _ = false

unfoldable pub any_nested : String → Items → Bool
unfolding nested_has
any_nested k nil = false
any_nested k (cons v items) = nested_has k v || any_nested k items

unfoldable pub fields_length : Fields → ℕ
fields_length Fields.end = 0
fields_length (Fields.field k v fs) = suc (fields_length fs)

abbrev pub batch_of : ℕ → String
batch_of n = if ltb 0 n then concat "batch(" (concat (decimal n) ")") else "reply"

-- f"batch({len(batch)})" if batch else "reply". The loop stores no number and no boolean there, whose
-- length would raise.
unfoldable pub batch_name : Option Json → String
unfolding items_length fields_length decimal_of
batch_name (some (array items)) = batch_of (items_length items)
batch_name (some (object fs)) = batch_of (fields_length fs)
batch_name (some (text t)) = batch_of (count t)
batch_name _ = "reply"

-- What an observation says about its tool call.
unfoldable pub verdict : Option Json → String
unfolding has any_nested
verdict (some (array items)) =
    if any_nested "denied" items
    then "(denied)"
    else if any_nested "error" items
    then "(error)"
    else ""
verdict (some (object fs)) =
    if has fs "denied" then "(denied)" else if has fs "error" then "(error)" else ""
verdict _ = ""

-- The first `n` characters.
unfoldable pub prefix : ℕ → String → String
prefix zero s = ""
prefix (suc n) String.[] = ""
prefix (suc n) (String.◌∷◌ c s) = String.◌∷◌ c (prefix n s)

-- Counter(xs), its keys in the order of their first occurrence
unfoldable pub tally : String → List (String × ℕ) → List (String × ℕ)
tally k [] = (k, 1) ∷ []
tally k ((j, n) ∷ counts) = if j == k then (j, suc n) ∷ counts else (j, n) ∷ tally k counts

unfoldable pub counter : List (String × ℕ) → List String → List (String × ℕ)
unfolding tally
counter counts [] = counts
counter counts (k ∷ ks) = counter (tally k counts) ks

pub record Note : Type 0 where
  pub elided_turns : ℕ
  pub tools : List (String × ℕ)

-- history[-n:] if n else []
abbrev pub last_turns : ℕ → List Turn → List Turn
last_turns n history = drop (length history - n) history

-- The turns between the leading and the recent ones.
abbrev pub elided_of : ContextBudget → List Turn → List Turn
elided_of budget history =
    let leading = take budget.keep_leading_turns history in
    let recent = last_turns budget.keep_recent_turns history in
    take (length history - length recent - length leading) (drop (length leading) history)

module _ (str : Json → String) where
  abbrev pub show_text : Json → String
  show_text (text t) = t
  show_text v = str v

  -- The name of what was called.
  unfoldable pub tool_of : Fields → String
  unfolding Json.get batch_name
  tool_of action = elim (Json.get action "tool") [
    | none ↦ batch_name (Json.get action "batch")
    | some v ↦ (if is_true v then show_text v else batch_name (Json.get action "batch"))
  ]

  unfoldable pub observation_digest : Turn → String
  unfolding tool_of verdict
  observation_digest turn =
      concat (tool_of (elim turn.action [ none ↦ end | some fs ↦ fs ])) (verdict turn.observation)

  abbrev pub note_of : List Turn → Note
  unfolding counter
  note_of elided = record {
    elided_turns = length elided;
    tools =
        insertion_sort (λ a b. is_le (compare a.0 b.0))
          (counter [] (map observation_digest elided));
  }

  abbrev pub compacted : ContextBudget → List Turn → List Turn → List Turn × Option Note
  compacted budget history [] = (history, none)
  compacted budget history (t ∷ ts) = (
    take budget.keep_leading_turns history ++ last_turns budget.keep_recent_turns history,
    some (note_of (t ∷ ts)),
  )

  unfoldable pub compact_history :
      (size : Turn → ℕ) → List Turn → ContextBudget → List Turn × Option Note
  unfolding observation_digest
  compact_history size history budget =
      if not (ltb (budget.keep_recent_turns + budget.keep_leading_turns) (length history))
        && leb (sum_of size history) budget.max_history_chars
      then (history, none)
      else compacted budget history (elided_of budget history)

-- `json` is the JSON of the observation.
unfoldable pub truncate_observation : String → ContextBudget → String
unfolding prefix decimal_of
truncate_observation json budget =
    if leb (count json) budget.max_observation_chars
    then json
    else concat (prefix budget.max_observation_chars json)
        (concat "...[+" (concat (decimal (count json - budget.max_observation_chars)) " chars]"))

abbrev pub max_instruction_chars : ℕ
max_instruction_chars = 8000

abbrev pub cut_instructions : String → String
cut_instructions s =
    if ltb max_instruction_chars (count s)
    then concat (prefix max_instruction_chars s) "\n\n[...project instructions truncated...]"
    else s

-- The contents of AGENTS.md and .agents/AGENTS.md, where there is such a file that can be read.
unfoldable pub load_project_instructions : List (Option String) → Option String
unfolding strip prefix
load_project_instructions [] = none
load_project_instructions (none ∷ files) = load_project_instructions files
load_project_instructions (some content ∷ files) =
    let rest = load_project_instructions files in
    let found = strip content in if is_empty found then rest else some (cut_instructions found)
