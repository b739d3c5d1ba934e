-- ===== src/Events/Tests.antt =====
-- Runs and witnesses for the journal (src/sovereign_ai/kernel/events.py and replay.py).
use achilles.Prelude.{◌≡◌, refl, true, none, List, [], ◌∷◌, ◌++◌, map, ok, arith}
use achilles.Prelude.Order.{insertion_sort}
use achilles.Json.{Fields, end, field, text, boolean, object}
use achilles.Table
use achilles.Agents.Context.{decimal_of}
use achilles.Events.{EventStore, append, like}
use achilles.Events.Stream.{frames}
use achilles.Events.Journal.{empty, Later}
use achilles.Events.Cursor.{remaining, polls, frames_gap_free, frames_catch_up}
use achilles.Events.Replay.{replay_run, render, starts_with}
use achilles.Events.Transcript.{Draft, append_all, account_of, replay_is_record}

abbrev call : Fields
call = field "tool" (text "read_file") end

abbrev refused : Fields
refused = field "tool" (text "shell") (
    field "observation"
      (object (field "denied" (boolean true) (field "error" (text "no grant") end))) end)

abbrev drafts : List Draft
drafts =
    record {
      event_id = "e1";
      now = 1;
      stream_id = "agent-loop:r1";
      event_type = "agent.step.tool_call";
      payload = call;
      trust = "trusted_local";
      parent_event_id = none;
    }
    ∷ record {
      event_id = "e2";
      now = 2;
      stream_id = "agent-loop:r2";
      event_type = "agent.step.done";
      payload = end;
      trust = "trusted_local";
      parent_event_id = none;
    }
    ∷ record {
      event_id = "e3";
      now = 3;
      stream_id = "agent-loop:r1";
      event_type = "agent.step.tool_call";
      payload = refused;
      trust = "untrusted_model_output";
      parent_event_id = none;
    }
    ∷ []

abbrev first : EventStore
first = (append "e1" 1 "agent-loop:r1" "agent.step.tool_call" call "trusted_local" none empty).1

abbrev second : EventStore
second = (append "e2" 2 "agent-loop:r2" "agent.step.done" end "trusted_local" none first).1

replay_runs :
    render (λ v. "?") (replay_run (append_all drafts empty) "r1")
    ≡ ok
        "run r1 — 2 recorded events, incomplete\n      1  [trusted_local]  read_file\n!     3  [untrusted_model_output]  shell DENIED: no grant"
unfolding render replay_run decimal_of append Table.insert Table.find Table.select insertion_sort
replay_runs = refl

-- An underscore of a prefix stands for any character.
underscore_runs : like "agent_loop%" "agent-loop:r1" ≡ true
unfolding like
underscore_runs = refl

frames_gap_free_example :
    (frames none (first ∷ second ∷ []) 0).0
      ++ remaining (frames none (first ∷ second ∷ []) 0).1 none second
    ≡ remaining 0 none second
frames_gap_free_example =
    frames_gap_free none (first ∷ second ∷ []) 0
      (Later.next "e2" 2 "agent-loop:r2" "agent.step.done" end "trusted_local" none (
        Later.next "e1" 1 "agent-loop:r1" "agent.step.tool_call" call "trusted_local" none
          Later.here))
      (
        (
          Later.next "e1" 1 "agent-loop:r1" "agent.step.tool_call" call "trusted_local" none
              Later.here,
          Later.next "e2" 2 "agent-loop:r2" "agent.step.done" end "trusted_local" none Later.here,
        ),
        (
          (
            Later.next "e2" 2 "agent-loop:r2" "agent.step.done" end "trusted_local" none (
                Later.next "e1" 1 "agent-loop:r1" "agent.step.tool_call" call "trusted_local" none
                  Later.here),
            Later.here,
          ),
          tt,
        ),
      )

frames_catch_up_example : (frames none (polls 1 first) 0).0 ≡ remaining 0 none first
unfolding append Table.insert Table.find Table.select
frames_catch_up_example =
    frames_catch_up none 1 0
      (Later.next "e1" 1 "agent-loop:r1" "agent.step.tool_call" call "trusted_local" none
        Later.here)
      (omega arith)

replay_is_record_example :
    map account_of (replay_run (append_all drafts empty) "r1").entries
    ≡ ("agent.step.tool_call", "trusted_local", call)
      ∷ ("agent.step.tool_call", "untrusted_model_output", refused)
      ∷ []
unfolding Table.select Table.find starts_with
replay_is_record_example = replay_is_record drafts "r1" (refl, (refl, (refl, tt)))
