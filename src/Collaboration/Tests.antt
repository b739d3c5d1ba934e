-- ===== src/Collaboration/Tests.antt =====
-- Tests of the rooms (src/sovereign_ai/collaboration).
use achilles.Prelude.{
  ℕ, String, ◌≡◌, refl, Bool, true, false, List, [], ◌∷◌, ◌++◌, none, some, ok, raised, value_error,
  length, is_some, All, ◌⊎◌,
}
use achilles.Json.{Json, end, field, text}
use achilles.Table
use achilles.Collaboration.Store.{
  IdentityKind, IdentityRecord, RoomRecord, Canonical, CollaborationEvent, CollaborationStore,
  empty, room_rows, last_hash, genesis_hash,
}
use achilles.Collaboration.Identities.{upsert_identity, create_identity_exclusive}
use achilles.Collaboration.Rooms.{
  genesis, with_member, draft, get_room, create_room, is_member, add_member, verified, verify_chain,
  append_event,
}
use achilles.Collaboration.History.{Step, Reach}
use achilles.Collaboration.Audit.{chains_verify, history_is_append_only, authors_are_members}
use achilles.Collaboration.Tamper.{Forgery, contents, tampering_needs_collision}
use achilles.Collaboration.Text.{strip, lower, validate_id, find_mentions}
use achilles.Collaboration.Service.{Config, AgentDispatch, Mailbox, mailbox}
use achilles.Collaboration.Messages.{
  message_payload, agent_messages, dispatch_of, dispatches, dedupe, texts, post_message,
}
use achilles.Collaboration.Calls.{Posted, post_message-Posted}
use achilles.Collaboration.Inbox.{called_agent_finds_message}

strip_runs : strip "  a b \n" ≡ "a b"
unfolding strip
strip_runs = refl

validate_id_runs : validate_id " Ada_1 " ≡ ok "ada_1"
unfolding validate_id
validate_id_runs = refl

validate_id_refuses : validate_id "_ada" ≡ raised value_error
unfolding validate_id
validate_id_refuses = refl

abbrev no_letter : ℕ → Bool
no_letter c = false

mentions_run :
    find_mentions no_letter "@ada, see x@bob and (@Cy-1)@dan @@eve" ≡ "ada" ∷ "Cy-1" ∷ "dan" ∷ []
unfolding find_mentions
mentions_run = refl

-- Ada and the agent bot in one room, where Ada writes to it. An event's hash is its id here.
abbrev digest : Canonical → String
digest c = c.event_id

abbrev config : Config
config = record {
  max_message_chars = 100;
  max_agent_mentions = 3;
  context_events = 5;
  auto_dispatch_mentions = true;
}

abbrev ada : IdentityRecord
ada = record {
  id = "ada";
  display_name = "Ada";
  kind = IdentityKind.human;
  trust = "trusted_local";
  agent = none;
  agent_profile_id = none;
  created_at_ns = 1;
}

abbrev bot : IdentityRecord
bot = record {
  id = "bot";
  display_name = "Bot";
  kind = IdentityKind.agent;
  trust = "trusted_local";
  agent = some (field "mode" (text "fast") end);
  agent_profile_id = none;
  created_at_ns = 2;
}

abbrev with_ada : CollaborationStore
with_ada = record empty { identities = ada ∷ [] }

abbrev with_bot : CollaborationStore
with_bot = record with_ada { identities = ada ∷ bot ∷ [] }

abbrev lab : RoomRecord
lab = record { id = "lab"; name = "Lab"; purpose = ""; created_at_ns = 3 }

abbrev with_room : CollaborationStore
with_room = record with_bot { rooms = lab ∷ []; room_heads = genesis "lab" ∷ [] }

abbrev with_ada_in : CollaborationStore
with_ada_in = with_member 4 "lab" "ada" with_room

abbrev with_bot_in : CollaborationStore
with_bot_in = with_member 5 "lab" "bot" with_ada_in

abbrev payload : Json
payload = message_payload "hello @bot" ("bot" ∷ []) end

abbrev event : CollaborationEvent
event = record {
  seq = 1;
  canonical = draft "e1" 6 "lab" "message.posted" "ada" payload "trusted_local" none;
  event_hash = "e1";
}

abbrev with_message : CollaborationStore
with_message = record with_bot_in {
  events = event ∷ [];
  room_heads = record { room_id = "lab"; event_hash = "e1"; event_count = 1 } ∷ [];
}

abbrev call : AgentDispatch
call = record {
  agent_id = "bot";
  room_id = "lab";
  source_event_id = "e1";
  capability = text "reasoning";
  mode = text "fast";
  messages = agent_messages config (field "mode" (text "fast") end) event with_message;
}

posted :
    post_message no_letter digest config "e1" 6 "lab" "ada" " hello @bot " none true end with_bot_in
    ≡ ok ((event, call ∷ []), with_message)
unfolding post_message append_event dispatches dispatch_of find_mentions strip lower dedupe texts
posted = refl

abbrev reached_message : Reach digest empty with_message
unfolding upsert_identity create_identity_exclusive create_room add_member append_event
reached_message =
    Reach.next
      (Reach.next
        (Reach.next
          (Reach.next
            (Reach.next
              (Reach.next Reach.here (
                Step.identity_upserted 1 "ada" "Ada" IdentityKind.human "trusted_local" none none
                  ada refl))
              (Step.identity_created 2 "bot" "Bot" IdentityKind.agent "trusted_local"
                (some (field "mode" (text "fast") end)) none bot refl))
            (Step.room_created 3 "lab" "Lab" "" lab refl))
          (Step.member_added 4 "lab" "ada" refl))
        (Step.member_added 5 "lab" "bot" refl))
      (Step.event_appended "e1" 6 "lab" "message.posted" "ada" payload none event refl)

chains_verify_example :
    verify_chain digest "lab" with_message
    ≡ verified
        (length (room_rows "lab" with_message))
        (last_hash genesis_hash (room_rows "lab" with_message))
chains_verify_example = chains_verify digest with_message "lab" reached_message lab_exists
  where
    lab_exists : is_some (get_room "lab" with_message) ≡ true
    lab_exists = unfold get_room Table.find in refl

history_is_append_only_example :
    ((later : List CollaborationEvent) × (room_rows "lab" with_message
        ≡ room_rows "lab" empty ++ later))
    × ((identity_id : String)
        → is_member "lab" identity_id empty ≡ true
        → is_member "lab" identity_id with_message ≡ true)
history_is_append_only_example =
    history_is_append_only digest empty with_message "lab" reached_message

authors_are_members_example :
    All
      (λ (e : CollaborationEvent). is_member e.room_id e.actor_id with_message ≡ true)
      with_message.events
authors_are_members_example = authors_are_members digest with_message reached_message

verifies : verify_chain digest "lab" with_message ≡ verified 1 "e1"
unfolding verify_chain
verifies = refl

-- Another text under the same id: with this hash, that of the id alone, nobody notices.
abbrev tampered : CollaborationStore
tampered = record with_message {
  events = record event { canonical = record (event.canonical) { payload = text "forged" } } ∷ [];
}

verifies_tampered : verify_chain digest "lab" tampered ≡ verified 1 "e1"
unfolding verify_chain
verifies_tampered = refl

tampering_needs_collision_example :
    (contents digest (room_rows "lab" with_message) ≡ contents digest (room_rows "lab" tampered))
    ⊎ Forgery digest (room_rows "lab" with_message) (room_rows "lab" tampered)
tampering_needs_collision_example =
    tampering_needs_collision digest with_message tampered "lab" 1 "e1" verifies verifies_tampered

post_message-Posted_example :
    Posted no_letter digest config with_bot_in with_message "lab" "ada" " hello @bot " end event
      (call ∷ [])
post_message-Posted_example =
    post_message-Posted no_letter digest config "e1" 6 "lab" "ada" " hello @bot " none true end
      with_bot_in with_message event (call ∷ []) posted

called_agent_finds_message_example :
    (box : Mailbox) × (rest : List CollaborationEvent) × (mailbox "bot" 10 with_message ≡ ok box)
    × (box.inbox ≡ event ∷ rest)
called_agent_finds_message_example =
    called_agent_finds_message no_letter digest config with_bot_in with_message "lab" "ada"
      " hello @bot " end event [] [] call 10
      (post_message-Posted no_letter digest config "e1" 6 "lab" "ada" " hello @bot " none true end
        with_bot_in with_message event (call ∷ []) posted)
      refl
