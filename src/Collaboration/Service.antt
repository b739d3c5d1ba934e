-- ===== src/Collaboration/Service.antt =====
-- CollaborationService (src/sovereign_ai/collaboration/service.py): who may speak in a room, and which
-- agents a message calls. Numbers of the configuration are natural numbers. `is_letter` is the part
-- of \w beyond ASCII, `digest` the hash of the store. A `system_prompt`, a `capability` and a `mode` are
-- the JSON values of the configuration.
use achilles.Prelude.{
  ℕ, String, Bool, true, false, not, ◌&&◌, ◌||◌, ◌==◌, Option, none, some, List, all, is_some,
  if◌then◌else◌, Result, ok, raised, ◌>>=◌, value_error, permission_error,
}
use achilles.Json
use achilles.Json.{Json, Items, Fields, end, field, nil, cons, null, text, array, object}
use achilles.Table
use achilles.Collaboration.Store.{
  IdentityKind, IdentityRecord, RoomRecord, CollaborationEvent, Canonical, CollaborationStore,
  get_identity,
}
use achilles.Collaboration.Identities.{create_identity_exclusive}
use achilles.Collaboration.Identities
use achilles.Collaboration.Rooms.{
  get_room, is_member, events_for_member, get_event, latest_canvas, Verification, verify_chain,
  append_event,
}
use achilles.Collaboration.Rooms
use achilles.Collaboration.Text.{strip, validate_id}

pub record Config : Type 0 where
  pub max_message_chars : ℕ
  pub max_agent_mentions : ℕ
  pub context_events : ℕ
  pub auto_dispatch_mentions : Bool

pub record Message : Type 0 where
  pub role : String
  pub content : Json

pub record AgentDispatch : Type 0 where
  pub agent_id : String
  pub room_id : String
  pub source_event_id : String
  pub capability : Json
  pub mode : Json
  pub messages : List Message

-- `kind == "agent" and not agent`
abbrev pub lacks_agent : IdentityKind → Option Fields → Bool
lacks_agent IdentityKind.agent (some (Fields.field k v fs)) = false
lacks_agent IdentityKind.agent _ = true
lacks_agent _ _ = false

unfoldable pub create_identity :
    (now_ns : ℕ) (identity_id display_name : String)
    → IdentityKind
    → (trust : String) → Option Fields
    → Option String
    → CollaborationStore
    → Result (IdentityRecord × CollaborationStore)
create_identity now_ns identity_id display_name kind trust config agent_profile_id s = do
  id ← validate_id identity_id
  if lacks_agent kind config
      then raised value_error
      else create_identity_exclusive now_ns id display_name kind trust config agent_profile_id s

unfoldable pub link_agent_profile :
    String → Option String → CollaborationStore → Result (IdentityRecord × CollaborationStore)
link_agent_profile identity_id agent_profile_id s =
    if is_some (get_identity identity_id s)
    then Identities.link_agent_profile identity_id agent_profile_id s
    else raised value_error

unfoldable pub update_identity :
    (identity_id display_name : String)
    → IdentityKind
    → (trust : String) → Option Fields
    → CollaborationStore
    → Result (IdentityRecord × CollaborationStore)
update_identity identity_id display_name kind trust config s = do
  id ← validate_id identity_id
  if lacks_agent kind config
      then raised value_error
      else Identities.update_identity id display_name kind trust config s

-- What follows an `add_member`; a room that is written before stays if it raises.
abbrev pub joined :
    Result CollaborationStore
    → CollaborationStore
    → (CollaborationStore → Result RoomRecord × CollaborationStore)
    → Result RoomRecord × CollaborationStore
joined (raised e) s next = (raised e, s)
joined (ok s') s next = next s'

abbrev pub with_owner :
    (now_ns : ℕ) (id owner_id : String)
    → CollaborationStore
    → Result (RoomRecord × CollaborationStore)
    → Result RoomRecord × CollaborationStore
with_owner now_ns id owner_id s (raised e) = (raised e, s)
with_owner now_ns id owner_id s (ok (room, s')) =
    joined (Rooms.add_member now_ns id owner_id s') s'
      (λ t. joined (Rooms.add_member now_ns id "kernel" t) t (λ u. (ok room, u)))

abbrev pub room_of_id :
    (now_ns : ℕ)
    → Result String
    → (name purpose owner_id : String) → CollaborationStore
    → Result RoomRecord × CollaborationStore
room_of_id now_ns (raised e) name purpose owner_id s = (raised e, s)
room_of_id now_ns (ok id) name purpose owner_id s =
    if is_some (get_identity owner_id s)
    then with_owner now_ns id owner_id s
        (Rooms.create_room now_ns id (strip name) (strip purpose) s)
    else (raised value_error, s)

unfoldable pub create_room :
    (now_ns : ℕ) (room_id name purpose owner_id : String)
    → CollaborationStore
    → Result RoomRecord × CollaborationStore
create_room now_ns room_id name purpose owner_id s =
    room_of_id now_ns (validate_id room_id) name purpose owner_id s

unfoldable pub add_member :
    (now_ns : ℕ) (room_id identity_id requester_id : String)
    → CollaborationStore
    → Result CollaborationStore
add_member now_ns room_id identity_id requester_id s =
    if not (is_some (get_room room_id s)) || not (is_some (get_identity identity_id s))
    then raised value_error
    else if not (requester_id == "kernel") && not (is_member room_id requester_id s)
    then raised permission_error
    else Rooms.add_member now_ns room_id identity_id s

unfoldable pub events : String → ℕ → CollaborationStore → Result (List CollaborationEvent)
events room_id limit s =
    if is_some (get_room room_id s) then ok (Rooms.events room_id limit s) else raised value_error

-- `k in payload.get("mentions")`, of a list of texts
unfoldable pub holds : String → Items → Bool
holds k nil = false
holds k (cons (text t) items) = k == t || holds k items
holds k (cons _ items) = holds k items

abbrev pub in_mentions : String → Option Json → Bool
in_mentions k (some (array items)) = holds k items
in_mentions k _ = false

unfoldable pub payload_get : Json → String → Option Json
unfolding Json.get
payload_get (object fs) k = Json.get fs k
payload_get _ k = none

abbrev pub is_mentioned : String → CollaborationEvent → Bool
is_mentioned k e = in_mentions k (payload_get e.payload "mentions")

pub record Mailbox : Type 0 where
  pub inbox : List CollaborationEvent
  pub outbox : List CollaborationEvent

abbrev pub box_of : String → List CollaborationEvent → Mailbox
box_of identity_id found = record {
  inbox = Table.select (λ e. not (e.actor_id == identity_id) && is_mentioned identity_id e) found;
  outbox = Table.select (λ e. e.actor_id == identity_id) found;
}

unfoldable pub mailbox : String → ℕ → CollaborationStore → Result Mailbox
unfolding Table.select
mailbox identity_id limit s =
    if is_some (get_identity identity_id s)
    then ok (box_of identity_id (events_for_member identity_id limit s))
    else raised value_error

abbrev pub is_valid : Verification → Bool
is_valid (Verification.verified events head) = true
is_valid _ = false

-- `chains_valid` of `status`
unfoldable pub chains_valid : (Canonical → String) → CollaborationStore → Bool
unfolding verify_chain
chains_valid digest s = all (λ r. is_valid (verify_chain digest r.id s)) s.rooms
