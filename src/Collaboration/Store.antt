-- ===== src/Collaboration/Store.antt =====
-- CollaborationStore (src/sovereign_ai/collaboration/store.py): identities, rooms, members and, for
-- each room, a chain of events that are linked by hashes. Rows are never deleted, so the rows of the
-- event table stand in the order of `seq`. The hash of the nine canonical fields, SHA-256 of their
-- JSON, is a parameter.
use achilles.Prelude.{ℕ, String, Bool, ◌==◌, Option, List, [], ◌∷◌}
use achilles.Json.{Json, Fields}
use achilles.Table

pub data IdentityKind : Type 0 where
  human agent system : IdentityKind

pub record IdentityRecord : Type 0 where
  pub id : String
  pub display_name : String
  pub kind : IdentityKind
  pub trust : String
  pub agent : Option Fields
  pub agent_profile_id : Option String
  pub created_at_ns : ℕ

pub record RoomRecord : Type 0 where
  pub id : String
  pub name : String
  pub purpose : String
  pub created_at_ns : ℕ

pub record Membership : Type 0 where
  pub room_id : String
  pub identity_id : String
  pub joined_at_ns : ℕ

pub record RoomHead : Type 0 where
  pub room_id : String
  pub event_hash : String
  pub event_count : ℕ

-- What `_digest` hashes: a text that these nine fields determine. The payload stands for the column
-- `payload_json`, with its keys in the order in which they stand there: rows that the store wrote
-- have them sorted. A column that is not in the compact form of `json.dumps` is not modelled.
pub record Canonical : Type 0 where
  pub event_id : String
  pub room_id : String
  pub event_type : String
  pub actor_id : String
  pub payload : Json
  pub trust : String
  pub parent_event_id : Option String
  pub created_at_ns : ℕ
  pub previous_hash : String

pub record CollaborationEvent : Type 0 where
  pub seq : ℕ
  pub canonical : Canonical
  pub open canonical use *
  pub event_hash : String

pub record CollaborationStore : Type 0 where
  pub identities : List IdentityRecord
  pub rooms : List RoomRecord
  pub memberships : List Membership
  pub room_heads : List RoomHead
  pub events : List CollaborationEvent

abbrev pub genesis_hash : String
genesis_hash = "0000000000000000000000000000000000000000000000000000000000000000"

abbrev pub identity_key : IdentityRecord → String
identity_key i = i.id

abbrev pub room_key : RoomRecord → String
room_key r = r.id

abbrev pub head_key : RoomHead → String
head_key h = h.room_id

abbrev pub event_key : CollaborationEvent → String
event_key e = e.event_id

abbrev pub is_in_room : String → CollaborationEvent → Bool
is_in_room room_id e = e.room_id == room_id

-- The database of a new file.
abbrev pub empty : CollaborationStore
empty = record { identities = []; rooms = []; memberships = []; room_heads = []; events = [] }

-- The rows of one room, ORDER BY seq.
unfoldable pub room_rows : String → CollaborationStore → List CollaborationEvent
unfolding Table.select
room_rows room_id s = Table.select (is_in_room room_id) s.events

-- The hash of the last row, or GENESIS_HASH.
abbrev pub last_hash : String → List CollaborationEvent → String
last_hash h [] = h
last_hash h (e ∷ es) = last_hash e.event_hash es

unfoldable pub get_identity : String → CollaborationStore → Option IdentityRecord
unfolding Table.find
get_identity identity_id s = Table.find identity_key identity_id s.identities
