-- ===== src/Collaboration/Bootstrap.antt =====
-- CollaborationService._bootstrap (src/sovereign_ai/collaboration/service.py): the identities and rooms of
-- the configuration. A key that is missing there, which raises, is left out.
pub mod Verified
pub mod Written
pub mod Kernel
pub mod Opened
mod Tests
use achilles.Prelude.{
  ℕ, suc, String, Bool, true, false, not, ◌==◌, Option, none, some, List, [], ◌∷◌, ◌++◌, map, any,
  is_some, concat, if◌then◌else◌, Result, ok, raised, index_error, Supply,
}
use achilles.Json
use achilles.Json.{Json, Fields, nil, text, array, object, boolean}
use achilles.Table
use achilles.Collaboration.Store.{
  IdentityKind, IdentityRecord, Canonical, CollaborationEvent, CollaborationStore, get_identity,
}
use achilles.Collaboration.Identities.{upsert_identity}
use achilles.Collaboration.Rooms
use achilles.Collaboration.Rooms.{create_room, latest_canvas, members, append_event}
use achilles.Collaboration.Text.{is_empty, validate_id}
use achilles.Collaboration.Service.{Config}
use achilles.Collaboration.Messages.{join, update_canvas}

pub record RawIdentity : Type 0 where
  pub id : String
  pub display_name : String
  pub kind : IdentityKind
  pub trust : String
  pub agent : Option Fields

pub record RawRoom : Type 0 where
  pub id : String
  pub name : String
  pub purpose : Option String
  pub members : Option (List String)
  pub canvas : Option String

-- The store, and how many ids and readings of the clock were drawn.
pub record Boot : Type 0 where
  pub drawn : ℕ
  pub store : CollaborationStore

-- What a statement leaves, if it raises as well.
abbrev pub Progress : Type 0
Progress = Result (Unit {0}) × Boot

abbrev pub and_then : Progress → (Boot → Progress) → Progress
and_then (raised e, b) rest = (raised e, b)
and_then (ok done, b) rest = rest b

-- A call of the store: its transaction is stored, or it raises and leaves the store alone.
abbrev pub settle {ℓ} : {A : Type ℓ} → Boot → Result (A × CollaborationStore) → Progress
settle b (raised e) = (raised e, b)
settle b (ok (a, s)) = (ok tt, record { drawn = suc b.drawn; store = s })

abbrev pub settle_store : Boot → Result CollaborationStore → Progress
settle_store b (raised e) = (raised e, b)
settle_store b (ok s) = (ok tt, record { drawn = suc b.drawn; store = s })

abbrev pub validated : Result String → Boot → (String → Boot → Progress) → Progress
validated (raised e) b rest = (raised e, b)
validated (ok id) b rest = rest id b

abbrev pub given_text : Option String → String
given_text none = ""
given_text (some t) = t

abbrev pub given_members : Option (List String) → List String
given_members none = []
given_members (some ids) = ids

module _ (supply : Supply) where
  abbrev pub put_identity : RawIdentity → Boot → Progress
  put_identity raw b = validated (validate_id raw.id) b (λ id b. settle b (
      upsert_identity (supply.clock b.drawn) id raw.display_name raw.kind raw.trust raw.agent none
        b.store))

  unfoldable pub put_identities : List RawIdentity → Boot → Progress
  put_identities [] b = (ok tt, b)
  put_identities (raw ∷ raws) b = and_then (put_identity raw b) (λ b. put_identities raws b)

  abbrev pub put_kernel : Boot → Progress
  put_kernel b = settle b (
      upsert_identity (supply.clock b.drawn) "kernel" "Kernel" IdentityKind.system "trusted_local"
        none none b.store)

  abbrev pub put_member : String → String → Boot → Progress
  put_member room_id identity_id b =
      if is_some (get_identity identity_id b.store)
      then settle_store b (Rooms.add_member (supply.clock b.drawn) room_id identity_id b.store)
      else (ok tt, b)

  unfoldable pub put_members : String → List String → Boot → Progress
  put_members room_id [] b = (ok tt, b)
  put_members room_id (identity_id ∷ ids) b =
      and_then (put_member room_id identity_id b) (λ b. put_members room_id ids b)

abbrev pub is_agent : IdentityRecord → Bool
is_agent i = elim i.kind [ IdentityKind.agent ↦ true | _ ↦ false ]

abbrev pub invitation : List String → String
invitation [] = ""
invitation (a ∷ agents) = concat " Room agents: " (concat (join ", " (a ∷ agents)) ".")

abbrev pub greeting : String → CollaborationStore → Json
greeting room_id s =
    let agents =
      map (λ (i : IdentityRecord). concat "@" i.id) (Table.select is_agent (members room_id s)) in
    object (
      Fields.field "content"
        (text (concat "Room ready. Ideas become durable work here." (invitation agents)))
        (Fields.field "mentions" (array nil) (
          Fields.field "metadata" (object (Fields.field "bootstrap" (boolean true) Fields.end))
            Fields.end)))

module _ (is_letter : ℕ → Bool) (config : Config) (supply : Supply)
    (digest : Canonical → String) where
  abbrev pub canvas_by : String → String → Option (List String) → Boot → Progress
  canvas_by room_id content (some []) b = (raised index_error, b)
  canvas_by room_id content (some (actor_id ∷ ids)) b = settle b (
      update_canvas is_letter digest config (supply.uuid b.drawn) (supply.clock b.drawn) room_id
        actor_id content b.store)
  canvas_by room_id content none b = settle b (
      update_canvas is_letter digest config (supply.uuid b.drawn) (supply.clock b.drawn) room_id
        "kernel" content b.store)

  abbrev pub put_canvas : String → RawRoom → Boot → Progress
  put_canvas room_id raw b =
      if is_empty (given_text raw.canvas)
      then (ok tt, b)
      else if is_some (latest_canvas room_id b.store)
      then (ok tt, b)
      else canvas_by room_id (given_text raw.canvas) raw.members b

  abbrev pub put_greeting : String → Boot → Progress
  put_greeting room_id b =
      if any (λ (e : CollaborationEvent). e.event_type == "message.posted")
        (Rooms.events room_id 20 b.store)
      then (ok tt, b)
      else settle b (
          append_event digest (supply.uuid b.drawn) (supply.clock b.drawn) room_id "message.posted"
            "kernel" (greeting room_id b.store) none b.store)

  abbrev pub open_room : String → RawRoom → Boot → Progress
  open_room room_id raw b = and_then (put_canvas room_id raw b) (put_greeting room_id)

  abbrev pub fill_room : String → RawRoom → Boot → Progress
  fill_room room_id raw b =
      and_then (put_members supply room_id (given_members raw.members ++ "kernel" ∷ []) b)
        (open_room room_id raw)

  abbrev pub put_valid_room : RawRoom → String → Boot → Progress
  put_valid_room raw room_id b =
      and_then
        (settle b
          (create_room (supply.clock b.drawn) room_id raw.name (given_text raw.purpose) b.store))
        (fill_room room_id raw)

  abbrev pub put_room : RawRoom → Boot → Progress
  put_room raw b = validated (validate_id raw.id) b (put_valid_room raw)

  unfoldable pub put_rooms : List RawRoom → Boot → Progress
  unfolding put_members
  put_rooms [] b = (ok tt, b)
  put_rooms (raw ∷ raws) b = and_then (put_room raw b) (put_rooms raws)

  unfoldable pub bootstrap : List RawIdentity → List RawRoom → Boot → Progress
  unfolding put_identities put_rooms
  bootstrap identities rooms b =
      and_then (put_identities supply identities b)
        (λ b. and_then (put_kernel supply b) (put_rooms rooms))
