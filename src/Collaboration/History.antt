-- ===== src/Collaboration/History.antt =====
-- The store under any sequence of its operations (src/sovereign_ai/collaboration/store.py).
use achilles.Prelude.{
  ℕ, String, ◌≡◌, refl, sym, ap, subst, ◌∙◌, true, ◌&&◌, Option, List, [], ◌∷◌, ◌++◌, is_some, ok,
  All, Bool-cases, inl, inr,
}
use mathlib.Core.List.{append-nil}
use achilles.Json.{Json, Fields}
use achilles.Table.Queries
use achilles.Collaboration.Store.{
  IdentityKind, IdentityRecord, RoomRecord, Canonical, CollaborationEvent, CollaborationStore,
  room_rows, get_identity,
}
use achilles.Collaboration.Identities.{
  upsert_identity, create_identity_exclusive, write_identity, update_identity, link_agent_profile,
}
use achilles.Collaboration.Rooms.{
  get_room, create_room, init_db, is_membership, is_member, with_member, add_member, next_event,
  append_event,
}
use achilles.Collaboration.Chain.{
  read_back, IsIntact, create_room-IsIntact, add_member-IsIntact, init_db-IsIntact,
}
use achilles.Collaboration.Append.{append_canonical_ok, append_event-IsIntact, append_event_ok}

-- One call of the store that succeeds.
pub data Step (digest : Canonical → String) (s s' : CollaborationStore) : Type 0 where
  opened : init_db s ≡ s' → Step digest s s'
  identity_upserted :
      (now_ns : ℕ) (identity_id display_name : String) (kind : IdentityKind) (trust : String)
      (config : Option Fields) (profile : Option String) (i : IdentityRecord)
      → upsert_identity now_ns identity_id display_name kind trust config profile s ≡ ok (i, s')
      → Step digest s s'
  identity_created :
      (now_ns : ℕ) (identity_id display_name : String) (kind : IdentityKind) (trust : String)
      (config : Option Fields) (profile : Option String) (i : IdentityRecord)
      → create_identity_exclusive now_ns identity_id display_name kind trust config profile s
        ≡ ok (i, s')
      → Step digest s s'
  identity_updated :
      (identity_id display_name : String) (kind : IdentityKind) (trust : String)
      (config : Option Fields) (i : IdentityRecord)
      → update_identity identity_id display_name kind trust config s ≡ ok (i, s')
      → Step digest s s'
  profile_linked :
      (identity_id : String) (profile : Option String) (i : IdentityRecord)
      → link_agent_profile identity_id profile s ≡ ok (i, s')
      → Step digest s s'
  room_created :
      (now_ns : ℕ) (room_id name purpose : String) (r : RoomRecord)
      → create_room now_ns room_id name purpose s ≡ ok (r, s')
      → Step digest s s'
  member_added :
      (now_ns : ℕ) (room_id identity_id : String)
      → add_member now_ns room_id identity_id s ≡ ok s'
      → Step digest s s'
  event_appended :
      (event_id : String) (now_ns : ℕ) (room_id event_type actor_id : String) (payload : Json)
      (parent_event_id : Option String) (row : CollaborationEvent)
      → append_event digest event_id now_ns room_id event_type actor_id payload parent_event_id s
        ≡ ok (row, s')
      → Step digest s s'

pub data Reach (digest : Canonical → String) (s : CollaborationStore)
    : CollaborationStore → Type 0 where
  here : Reach digest s s
  next : {mid s' : CollaborationStore} → Reach digest s mid → Step digest mid s' → Reach digest s s'

-- Nothing but the table of the identities is written.
abbrev OnlyIdentities : CollaborationStore → CollaborationStore → Type 0
OnlyIdentities s s' =
    (identities : List IdentityRecord) × (record s { identities = identities } ≡ s')

upsert_only :
    (now_ns : ℕ) (identity_id display_name : String) (kind : IdentityKind) (trust : String)
    (config : Option Fields) (profile : Option String) (s s' : CollaborationStore)
    (i : IdentityRecord)
    → upsert_identity now_ns identity_id display_name kind trust config profile s ≡ ok (i, s')
    → OnlyIdentities s s'
unfolding upsert_identity
upsert_only now_ns identity_id display_name kind trust config profile s s' i h =
    (_, read_back _ _ s' i h)

create_only :
    (now_ns : ℕ) (identity_id display_name : String) (kind : IdentityKind) (trust : String)
    (config : Option Fields) (profile : Option String) (s s' : CollaborationStore)
    (i : IdentityRecord)
    → create_identity_exclusive now_ns identity_id display_name kind trust config profile s
      ≡ ok (i, s')
    → OnlyIdentities s s'
unfolding create_identity_exclusive
create_only now_ns identity_id display_name kind trust config profile s s' i h =
    elim (Bool-cases (is_some (get_identity identity_id s))) [
      | inl old ↦ cc (rw old at h)
      | inr new ↦ (_, read_back _ _ s' i (rw new at h))
    ]

write_only :
    (identity_id : String) (change : IdentityRecord → IdentityRecord) (s s' : CollaborationStore)
    (i : IdentityRecord)
    → write_identity identity_id change s ≡ ok (i, s')
    → OnlyIdentities s s'
unfolding write_identity
write_only identity_id change s s' i h = elim (Bool-cases (is_some (get_identity identity_id s))) [
  | inr unknown ↦ cc (rw unknown at h)
  | inl old ↦ (_, read_back _ _ s' i (rw old at h))
]

module _ (digest : Canonical → String) where
  -- What a call adds to the events, of members only, and to the members.
  pub record Effect (s s' : CollaborationStore) : Type 0 where
    pub added : List CollaborationEvent
    pub appended : s'.events ≡ s.events ++ added
    pub by_members : All (λ e. is_member e.room_id e.actor_id s' ≡ true) added
    pub still_members :
        (room_id identity_id : String)
        → is_member room_id identity_id s ≡ true
        → is_member room_id identity_id s' ≡ true

  -- The store after a call: its chains stay whole, and what has been written stays.
  abbrev pub Kept : CollaborationStore → CollaborationStore → Type 0
  Kept s s' = (IsIntact digest s → IsIntact digest s') × Effect s s'

  pub unwritten-Effect :
      (s s' : CollaborationStore)
      → s'.events ≡ s.events
      → s'.memberships ≡ s.memberships
      → Effect s s'
  unfolding is_member
  unwritten-Effect s s' same_events same_members = record {
    added = [];
    appended = same_events ∙ sym (append-nil s.events);
    by_members = tt;
    still_members = λ room_id identity_id m. rw same_members m;
  }

  create_room-Effect :
      (now_ns : ℕ) (room_id name purpose : String) (s s' : CollaborationStore) (r : RoomRecord)
      → create_room now_ns room_id name purpose s ≡ ok (r, s')
      → Effect s s'
  unfolding create_room
  create_room-Effect now_ns room_id name purpose s s' r h =
      let same = read_back _ _ s' r h in
      unwritten-Effect s s' (sym (ap (λ (x : CollaborationStore). x.events) same))
        (sym (ap (λ (x : CollaborationStore). x.memberships) same))

  add_member-Effect :
      (now_ns : ℕ) (room_id identity_id : String) (s s' : CollaborationStore)
      → add_member now_ns room_id identity_id s ≡ ok s'
      → Effect s s'
  unfolding add_member is_member
  add_member-Effect now_ns room_id identity_id s s' h =
      elim (Bool-cases (is_member room_id identity_id s)) [
        | inl old ↦
            let same : s ≡ s' = cc (rw old at h) in
            subst (Effect s) same (unwritten-Effect s s refl refl)
        | inr new ↦
            elim (Bool-cases
              (is_some (get_room room_id s) && is_some (get_identity identity_id s))) [
                | inr n ↦ cc (rw (new, n) at h)
                | inl both ↦
                    let same : with_member now_ns room_id identity_id s ≡ s' =
                      cc (rw (new, both) at h) in
                    subst (Effect s) same
                      (joined (with_member now_ns room_id identity_id s) refl refl)
              ]
      ]
    where
      joined :
          (t : CollaborationStore)
          → t.events ≡ s.events
          → t.memberships ≡ (with_member now_ns room_id identity_id s).memberships
          → Effect s t
      joined t same more = record {
        added = [];
        appended = same ∙ sym (append-nil s.events);
        by_members = tt;
        still_members = λ k j m. rw more (
            Queries.exists-append (is_membership k j) s.memberships
              (record { room_id = room_id; identity_id = identity_id; joined_at_ns = now_ns })
            ∙ rw m refl);
      }

  append_event-Effect :
      (event_id : String) (now_ns : ℕ) (room_id event_type actor_id : String) (payload : Json)
      (parent : Option String) (s s' : CollaborationStore) (row : CollaborationEvent)
      → append_event digest event_id now_ns room_id event_type actor_id payload parent s
        ≡ ok (row, s')
      → Effect s s'
  unfolding is_member
  append_event-Effect event_id now_ns room_id event_type actor_id payload parent s s' row h =
      let (member, fields, of_room, of_actor, _, _, appends) =
        append_event_ok digest event_id now_ns room_id event_type actor_id payload parent s s' row
          h in
      let (_, _, _, same) = append_canonical_ok digest fields s s' row appends in
      subst (Effect s) same (record {
        added = next_event digest fields s ∷ [];
        appended = refl;
        by_members = (rw (of_room, of_actor) member, tt);
        still_members = λ k j m. m;
      })

  OnlyIdentities-Kept : (s s' : CollaborationStore) → OnlyIdentities s s' → Kept s s'
  unfolding is_member room_rows get_room
  OnlyIdentities-Kept s s' (identities, same) = subst (Kept s) same (
    λ i. record { headed = i.headed; unheaded = i.unheaded; anchored = i.anchored },
    record {
      added = [];
      appended = sym (append-nil s.events);
      by_members = tt;
      still_members = λ room_id identity_id m. m;
    },
  )

  pub Step-Kept : (s s' : CollaborationStore) → Step digest s s' → Kept s s'
  unfolding update_identity link_agent_profile init_db
  Step-Kept s s' (Step.opened h) =
      subst (Kept s) h (init_db-IsIntact digest s, unwritten-Effect s (init_db s) refl refl)
  Step-Kept s s'
        (Step.identity_upserted now_ns identity_id display_name kind trust config profile i h) =
      OnlyIdentities-Kept s s'
        (upsert_only now_ns identity_id display_name kind trust config profile s s' i h)
  Step-Kept s s'
        (Step.identity_created now_ns identity_id display_name kind trust config profile i h) =
      OnlyIdentities-Kept s s'
        (create_only now_ns identity_id display_name kind trust config profile s s' i h)
  Step-Kept s s' (Step.identity_updated identity_id display_name kind trust config i h) =
      OnlyIdentities-Kept s s' (write_only identity_id _ s s' i h)
  Step-Kept s s' (Step.profile_linked identity_id profile i h) =
      OnlyIdentities-Kept s s' (write_only identity_id _ s s' i h)
  Step-Kept s s' (Step.room_created now_ns room_id name purpose r h) = (
    create_room-IsIntact digest now_ns room_id name purpose s s' r h,
    create_room-Effect now_ns room_id name purpose s s' r h,
  )
  Step-Kept s s' (Step.member_added now_ns room_id identity_id h) = (
    add_member-IsIntact digest now_ns room_id identity_id s s' h,
    add_member-Effect now_ns room_id identity_id s s' h,
  )
  Step-Kept s s'
        (Step.event_appended event_id now_ns room_id event_type actor_id payload parent row h) =
      (
        append_event-IsIntact digest event_id now_ns room_id event_type actor_id payload parent s s'
            row h,
        append_event-Effect event_id now_ns room_id event_type actor_id payload parent s s' row h,
      )
