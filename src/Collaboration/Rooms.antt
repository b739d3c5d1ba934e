-- ===== src/Collaboration/Rooms.antt =====
-- Rooms, members and events of the store (src/sovereign_ai/collaboration/store.py).
use achilles.Prelude.{
  ℕ, suc, ◌+◌, ◌-◌, String, Bool, false, not, ◌&&◌, ◌||◌, ◌==◌, nat_eq, Option, none, some, List,
  [], ◌∷◌, ◌++◌, length, drop, take, is_some, if◌then◌else◌, Result, ok, raised, ◌>>=◌, fetched,
  integrity_error, permission_error,
}
use Prim.Native.Nat.{max, min}
use mathlib.Core.List.{reverse}
use achilles.Prelude.Order.{sort_by}
use achilles.Json
use achilles.Json.{Json}
use achilles.Table
use achilles.Collaboration.Store.{
  RoomRecord, IdentityRecord, Membership, RoomHead, Canonical, CollaborationEvent,
  CollaborationStore, room_key, head_key, event_key, is_in_room, room_rows, last_hash, genesis_hash,
  get_identity,
}

unfoldable pub get_room : String → CollaborationStore → Option RoomRecord
unfolding Table.find
get_room room_id s = Table.find room_key room_id s.rooms

abbrev pub genesis : String → RoomHead
genesis room_id = record { room_id = room_id; event_hash = genesis_hash; event_count = 0 }

-- INSERT OR IGNORE INTO collaboration_room_heads
unfoldable pub add_head : RoomHead → List RoomHead → List RoomHead
unfolding Table.find
add_head h heads = if is_some (Table.find head_key h.room_id heads) then heads else heads ++ h ∷ []

-- INSERT ... ON CONFLICT(id) DO UPDATE: the time of the first creation stays.
unfoldable pub put_room : RoomRecord → List RoomRecord → List RoomRecord
unfolding Table.find Table.update
put_room r rooms =
    if is_some (Table.find room_key r.id rooms)
    then Table.update (λ x. x.id == r.id) (λ x. record x { name = r.name; purpose = r.purpose })
        rooms
    else rooms ++ r ∷ []

unfoldable pub create_room :
    (now_ns : ℕ) (room_id name purpose : String)
    → CollaborationStore
    → Result (RoomRecord × CollaborationStore)
unfolding get_room put_room add_head
create_room now_ns room_id name purpose s = do
  let s' = record s {
    rooms =
        put_room (record { id = room_id; name = name; purpose = purpose; created_at_ns = now_ns })
          s.rooms;
    room_heads = add_head (genesis room_id) s.room_heads;
  }
  room ← fetched (get_room room_id s')
  ok (room, s')

-- The last hash of a room and the number of its events, as they are.
abbrev pub present_head : String → CollaborationStore → RoomHead
present_head room_id s = record {
  room_id = room_id;
  event_hash = last_hash genesis_hash (room_rows room_id s);
  event_count = length (room_rows room_id s);
}

-- The adoption of `_init_db`: a head for each room that has none.
unfoldable pub adopt_heads : CollaborationStore → List RoomRecord → List RoomHead → List RoomHead
unfolding add_head room_rows
adopt_heads s [] heads = heads
adopt_heads s (r ∷ rooms) heads = adopt_heads s rooms (add_head (present_head r.id s) heads)

unfoldable pub init_db : CollaborationStore → CollaborationStore
unfolding adopt_heads
init_db s = record s { room_heads = adopt_heads s s.rooms s.room_heads }

abbrev pub is_membership : String → String → Membership → Bool
is_membership room_id identity_id m = m.room_id == room_id && m.identity_id == identity_id

unfoldable pub is_member : String → String → CollaborationStore → Bool
unfolding Table.exists
is_member room_id identity_id s = Table.exists (is_membership room_id identity_id) s.memberships

abbrev pub with_member : ℕ → String → String → CollaborationStore → CollaborationStore
with_member now_ns room_id identity_id s = record s {
  memberships =
      s.memberships
      ++ record { room_id = room_id; identity_id = identity_id; joined_at_ns = now_ns } ∷ [];
}

-- INSERT OR IGNORE passes over a row that is there, not over a foreign key that is missing.
unfoldable pub add_member :
    (now_ns : ℕ) (room_id identity_id : String) → CollaborationStore → Result CollaborationStore
unfolding is_member get_room get_identity
add_member now_ns room_id identity_id s =
    if is_member room_id identity_id s
    then ok s
    else if is_some (get_room room_id s) && is_some (get_identity identity_id s)
    then ok (with_member now_ns room_id identity_id s)
    else raised integrity_error

-- The identities of the members, before ORDER BY kind, display_name.
unfoldable pub members : String → CollaborationStore → List IdentityRecord
unfolding is_member Table.select
members room_id s = Table.select (λ i. is_member room_id i.id s) s.identities

abbrev pub rooms : CollaborationStore → List RoomRecord
rooms s = sort_by (λ r. r.created_at_ns) s.rooms

abbrev pub clamp_limit : ℕ → ℕ → ℕ
clamp_limit most limit = max 1 (min limit most)

-- The last rows of the room, in their order.
unfoldable pub events : String → ℕ → CollaborationStore → List CollaborationEvent
unfolding room_rows
events room_id limit s =
    let rows = room_rows room_id s in drop (length rows - clamp_limit 500 limit) rows

-- The last rows of all rooms of a member, the latest first.
unfoldable pub events_for_member : String → ℕ → CollaborationStore → List CollaborationEvent
unfolding is_member Table.select
events_for_member identity_id limit s =
    take (clamp_limit 1000 limit)
      (reverse (Table.select (λ e. is_member e.room_id identity_id s) s.events))

unfoldable pub get_event : String → CollaborationStore → Option CollaborationEvent
unfolding Table.find
get_event event_id s = Table.find event_key event_id s.events

abbrev pub last : List CollaborationEvent → Option CollaborationEvent
last [] = none
last (e ∷ []) = some e
last (e ∷ d ∷ es) = last (d ∷ es)

unfoldable pub latest_canvas : String → CollaborationStore → Option CollaborationEvent
unfolding Table.select
latest_canvas room_id s =
    last (Table.select (λ e. is_in_room room_id e && e.event_type == "canvas.updated") s.events)

-- The fields of a new event, before it is linked to the last one; the payload is what
-- `json.dumps(payload, sort_keys=True)` writes down.
abbrev pub draft :
    (event_id : String) (now_ns : ℕ) (room_id event_type actor_id : String)
    → Json
    → (trust : String) → (parent_event_id : Option String) → Canonical
draft event_id now_ns room_id event_type actor_id payload trust parent_event_id = record {
  event_id = event_id;
  room_id = room_id;
  event_type = event_type;
  actor_id = actor_id;
  payload = Json.sorted payload;
  trust = trust;
  parent_event_id = parent_event_id;
  created_at_ns = now_ns;
  previous_hash = genesis_hash;
}

-- What `verify_chain` reports.
pub data Verification : Type 0 where
  broken : (events : ℕ) (broken_at : String) → Verification
  unanchored : (events : ℕ) (head : String) → Verification
  verified : (events : ℕ) (head : String) → Verification

-- What the loop of `verify_chain` ends with.
pub data Walk : Type 0 where
  stopped_at : (event_id : String) → Walk
  reached : (previous_hash : String) → Walk

abbrev pub is_anchored : String → ℕ → Option RoomHead → Bool
is_anchored head count none = false
is_anchored head count (some h) = h.event_hash == head && nat_eq h.event_count count

abbrev pub report : ℕ → Option RoomHead → Walk → Verification
report count anchor (stopped_at event_id) = Verification.broken count event_id
report count anchor (reached head) =
    if is_anchored head count anchor
    then Verification.verified count head
    else Verification.unanchored count head

-- INSERT INTO collaboration_events, under its unique columns and foreign keys.
unfoldable pub insert_event :
    CollaborationEvent → CollaborationStore → Result (List CollaborationEvent)
unfolding get_room get_identity Table.exists
insert_event e s =
    if Table.exists (λ x. x.event_id == e.event_id || x.event_hash == e.event_hash) s.events
      || not (is_some (get_room e.room_id s))
      || not (is_some (get_identity e.actor_id s))
    then raised integrity_error
    else ok (s.events ++ e ∷ [])

abbrev pub advance : String → RoomHead → RoomHead
advance event_hash h = record h { event_hash = event_hash; event_count = h.event_count + 1 }

-- The rows with the new one, and the head of its room moved to it.
abbrev pub with_event :
    CollaborationEvent → List CollaborationEvent → CollaborationStore → CollaborationStore
with_event e rows s = record s {
  events = rows;
  room_heads = Table.update (λ h. h.room_id == e.room_id) (advance e.event_hash) s.room_heads;
}

module _ (digest : Canonical → String) where
  abbrev pub links : String → CollaborationEvent → Bool
  links previous_hash e =
      e.previous_hash == previous_hash
      && e.event_hash == digest (record (e.canonical) { previous_hash = previous_hash })

  unfoldable pub walk : String → List CollaborationEvent → Walk
  walk previous_hash [] = reached previous_hash
  walk previous_hash (e ∷ es) =
      if links previous_hash e then walk e.event_hash es else stopped_at e.event_id

  unfoldable pub verify_chain : String → CollaborationStore → Verification
  unfolding walk room_rows Table.find
  verify_chain room_id s =
      report (length (room_rows room_id s)) (Table.find head_key room_id s.room_heads)
        (walk genesis_hash (room_rows room_id s))

  -- The row that is written after the last one of its room.
  abbrev pub next_event : Canonical → CollaborationStore → CollaborationEvent
  next_event fields s =
      let linked : Canonical = record fields {
        previous_hash = last_hash genesis_hash (room_rows fields.room_id s);
      } in
      record { seq = suc (length s.events); canonical = linked; event_hash = digest linked }

  -- `append_event` from the hash of the last row on. The SELECT of that hash runs before the INSERT
  -- begins its transaction: the two are one step under `self._lock`, which the callers of one process
  -- share, and are taken as one step here.
  unfoldable pub append_canonical :
      Canonical → CollaborationStore → Result (CollaborationEvent × CollaborationStore)
  unfolding insert_event room_rows Table.update Table.find
  append_canonical fields s = do
    let e = next_event fields s
    rows ← insert_event e s
    row ← fetched (Table.find event_key e.event_id rows)
    ok (row, with_event e rows s)

  -- `event_id` is the one given, or a new one.
  unfoldable pub append_event :
      (event_id : String) (now_ns : ℕ) (room_id event_type actor_id : String)
      → Json
      → (parent_event_id : Option String) → CollaborationStore
      → Result (CollaborationEvent × CollaborationStore)
  unfolding append_canonical is_member get_identity
  append_event event_id now_ns room_id event_type actor_id payload parent_event_id s =
      if is_member room_id actor_id s
      then (do
        identity ← fetched (get_identity actor_id s)
        append_canonical
            (draft event_id now_ns room_id event_type actor_id payload identity.trust
              parent_event_id)
            s)
      else raised permission_error
