-- ===== src/Events/Replay.antt =====
-- src/sovereign_ai/kernel/replay.py: a run reconstructed from the journal. `str` of a JSON value that is
-- no text is a parameter.
use Prim.Native.Char.{code}
use Prim.Native.String.{count}
use achilles.Prelude.{
  ℕ, zero, suc, ◌-◌, String, Bool, true, false, ◌==◌, nat_eq, none, some, List, [], ◌∷◌, ◌++◌, map,
  any, length, concat, if◌then◌else◌, Result, ok, raised, attribute_error, ◌>>=◌,
}
use achilles.Json
use achilles.Json.{Json, Fields, null, object}
use achilles.Table
use achilles.Agents.Context.{is_true, has, decimal, prefix, show_text}
use achilles.Events.{Event, EventStore, read_stream}

-- What the journal's event types mean. All others are kept as `other`.
pub data Kind : Type 0 where
  tool_call done unparsable checkpoint checkpoint_failed compacted degraded advisor other : Kind

-- _KNOWN.get(event_type, "other")
abbrev pub kind_of : String → Kind
kind_of t =
    if t == "agent.step.tool_call"
    then Kind.tool_call
    else if t == "agent.step.done"
    then Kind.done
    else if t == "agent.step.unparsable"
    then Kind.unparsable
    else if t == "agent.checkpoint.created"
    then Kind.checkpoint
    else if t == "agent.checkpoint.failed"
    then Kind.checkpoint_failed
    else if t == "agent.context.compacted"
    then Kind.compacted
    else if t == "agent.decoding.degraded"
    then Kind.degraded
    else if t == "agent.advisor.verdict"
    then Kind.advisor
    else Kind.other

pub record ReplayEntry : Type 0 where
  pub seq : ℕ
  pub kind : Kind
  pub event_type : String
  pub trust : String
  pub payload : Fields

pub record RunTranscript : Type 0 where
  pub run_id : String
  pub entries : List ReplayEntry

unfoldable pub denied : ReplayEntry → Bool
unfolding Json.get has
denied e = elim (Json.get e.payload "observation") [
  | some (object fs) ↦ has fs "denied"
  | _ ↦ false
]

abbrev pub is_tool_call : Kind → Bool
is_tool_call Kind.tool_call = true
is_tool_call _ = false

abbrev pub is_done : Kind → Bool
is_done Kind.done = true
is_done _ = false

unfoldable pub tool_calls : RunTranscript → List ReplayEntry
tool_calls t = Table.select (λ e. is_tool_call e.kind) t.entries

unfoldable pub denials : RunTranscript → List ReplayEntry
unfolding denied
denials t = Table.select denied t.entries

unfoldable pub outcome : RunTranscript → String
outcome t = if any (λ (e : ReplayEntry). is_done e.kind) t.entries then "done" else "incomplete"

unfoldable pub untrusted_entries : RunTranscript → ℕ
untrusted_entries t = Table.count (λ e. e.trust == "untrusted_model_output") t.entries

-- s.startswith(prefix)
unfoldable pub starts_with : (prefix s : String) → Bool
starts_with String.[] s = true
starts_with (String.◌∷◌ p prefix) String.[] = false
starts_with (String.◌∷◌ p prefix) (String.◌∷◌ c s) =
    let rest = starts_with prefix s in if nat_eq (code p) (code c) then rest else false

abbrev pub stream_of : String → String
stream_of run_id = if starts_with "agent-loop:" run_id then run_id else concat "agent-loop:" run_id

-- A payload that the journal reads back is an object, so its two other cases do not arise.
abbrev pub entry_of : Event → ReplayEntry
entry_of row = record {
  seq = row.seq;
  kind = kind_of row.event_type;
  event_type = row.event_type;
  trust = row.trust;
  payload = row.payload;
}

unfoldable pub replay_run : EventStore → (run_id : String) → RunTranscript
unfolding read_stream starts_with
replay_run events run_id = record {
  run_id = run_id;
  entries = map entry_of (read_stream (stream_of run_id) 0 events);
}

-- payload.get(k)
abbrev pub get_or_none : Fields → String → Json
get_or_none fs k = elim (Json.get fs k) [ none ↦ null | some v ↦ v ]

-- The observation of a tool call, on which `get` is called.
abbrev pub observation_of : Fields → Result Fields
observation_of payload = elim (Json.get payload "observation") [
  | none ↦ ok Fields.end
  | some (object fs) ↦ ok fs
  | some v ↦ (if is_true v then raised attribute_error else ok Fields.end)
]

unfoldable pub pad_left : ℕ → String → String
pad_left zero s = s
pad_left (suc n) s = concat " " (pad_left n s)

unfoldable pub join_lines : List String → String
join_lines [] = ""
join_lines (l ∷ []) = l
join_lines (l ∷ m ∷ lines) = concat l (concat "\n" (join_lines (m ∷ lines)))

module _ (str : Json → String) where
  -- f"{payload.get(k, default)}"
  abbrev pub shown : String → Fields → String → String
  shown default fs k = elim (Json.get fs k) [ none ↦ default | some v ↦ show_text str v ]

  abbrev pub summarise_call : Fields → Fields → String
  summarise_call payload observation =
      if has observation "denied"
      then concat (shown "?" payload "tool") (concat " DENIED: " (shown "" observation "error"))
      else if has observation "error"
      then concat (shown "?" payload "tool") (concat " error: " (shown "" observation "error"))
      else concat (shown "?" payload "tool") (if has payload "batched" then " (batched)" else "")

  unfoldable pub summarise : ReplayEntry → Result String
  unfolding Json.get has prefix
  summarise e = elim e.kind [
    | Kind.tool_call ↦ do
      observation ← observation_of e.payload
      ok (summarise_call e.payload observation)
    | Kind.done ↦ ok (concat "done: " (shown "" e.payload "summary"))
    | Kind.checkpoint ↦ ok (
        concat "checkpoint "
          (concat (prefix 12 (shown "" e.payload "sha")) " — this edit can be undone"))
    | Kind.compacted ↦ ok (
        concat "context compacted: "
          (concat (show_text str (get_or_none e.payload "elided_turns")) " steps elided"))
    | Kind.advisor ↦ ok (
        concat "advisor " (
          concat (show_text str (get_or_none e.payload "severity"))
            (concat ": " (shown "" e.payload "concern"))))
    | Kind.degraded ↦ ok (concat "decoding degraded: " (shown "" e.payload "reason"))
    | Kind.unparsable ↦ ok "model reply could not be parsed into an action"
    | Kind.checkpoint_failed ↦ ok e.event_type
    | Kind.other ↦ ok e.event_type
  ]

  abbrev pub is_checkpoint : Kind → Bool
  is_checkpoint Kind.checkpoint = true
  is_checkpoint _ = false

  abbrev pub sha_of : ReplayEntry → String
  sha_of e = show_text str (get_or_none e.payload "sha")

  unfoldable pub checkpoints : RunTranscript → List String
  unfolding has Json.get
  checkpoints t =
      map sha_of
        (Table.select (λ e. if is_checkpoint e.kind then has e.payload "sha" else false) t.entries)

  -- One line of the report, f"{marker} {entry.seq:>5}  [{entry.trust}]  {entry.summarise()}"
  abbrev pub line_of : ReplayEntry → Result String
  line_of e = do
    summary ← summarise e
    let number = decimal e.seq in
        ok (
          concat (if denied e then "! " else "  ") (
            concat (concat (pad_left (5 - count number) number) "  [")
              (concat e.trust (concat "]  " summary))))

  unfoldable pub lines_of : List ReplayEntry → Result (List String)
  unfolding summarise denied pad_left
  lines_of [] = ok []
  lines_of (e ∷ entries) = do line ← line_of e; rest ← lines_of entries; ok (line ∷ rest)

  abbrev pub last_of : String → List String → String
  last_of x [] = x
  last_of x (y ∷ ys) = last_of y ys

  abbrev pub restore_lines : List String → List String
  restore_lines [] = []
  restore_lines (sha ∷ shas) =
      concat "\n" (
        concat (decimal (length (sha ∷ shas))) (
          concat " checkpoint(s) — restore with: sovereign checkpoints --restore "
            (prefix 12 (last_of sha shas))))
      ∷ []

  unfoldable pub render : RunTranscript → Result String
  unfolding lines_of checkpoints join_lines outcome prefix
  render t = do
    lines ← lines_of t.entries
    let title = concat "run " (
          concat t.run_id (
            concat " — "
              (concat (decimal (length t.entries)) (concat " recorded events, " (outcome t))))) in
        ok (join_lines ((title ∷ lines) ++ restore_lines (checkpoints t)))
