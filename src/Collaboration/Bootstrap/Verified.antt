-- ===== src/Collaboration/Bootstrap/Verified.antt =====
-- The chains of the rooms after a bootstrap (src/sovereign_ai/collaboration/service.py).
use Prim.Native.String.{count}
use achilles.Prelude.{
  ℕ, String, ◌≡◌, refl, Bool, true, Option, none, some, List, [], ◌∷◌, ◌++◌, length, is_some, any,
  ◌==◌, Bool-cases, inl, inr, Result, ok, raised, Supply, ltb,
}
use achilles.Json.{Json, Fields, text, object}
use achilles.Collaboration.Store.{
  IdentityKind, Canonical, CollaborationEvent, CollaborationStore, empty, room_rows, last_hash,
  genesis_hash, get_identity,
}
use achilles.Collaboration.Rooms
use achilles.Collaboration.Rooms.{
  get_room, verify_chain, verified, latest_canvas, append_event, create_room,
}
use achilles.Collaboration.Text.{is_empty, validate_id}
use achilles.Collaboration.Service.{Config}
use achilles.Collaboration.Messages.{update_canvas, id_of}
use achilles.Collaboration.History.{Step, Reach}
use achilles.Collaboration.Audit.{chains_verify}
use achilles.Collaboration.Bootstrap.{
  RawIdentity, RawRoom, Boot, Progress, and_then, settle, settle_store, validated, put_identity,
  put_identities, put_kernel, put_member, put_members, canvas_by, put_canvas, put_greeting,
  put_room, put_rooms, bootstrap, given_text, given_members, greeting, open_room, fill_room,
  put_valid_room,
}

module _ (digest : Canonical → String) where
  pub Reach-Reach :
      {a b c : CollaborationStore} → Reach digest a b → Reach digest b c → Reach digest a c
  Reach-Reach ab Reach.here = ab
  Reach-Reach ab (Reach.next bc step) = Reach.next (Reach-Reach ab bc) step

  -- What is left was reached by calls of the store.
  abbrev IsReached : Boot → Progress → Type 0
  IsReached b p = Reach digest b.store p.1.store

  and_then-IsReached :
      (b : Boot) (p : Progress) (rest : Boot → Progress)
      → IsReached b p
      → ((b : Boot) → IsReached b (rest b))
      → IsReached b (and_then p rest)
  and_then-IsReached b (raised e, c) rest h more = h
  and_then-IsReached b (ok done, c) rest h more = Reach-Reach h (more c)

  settle-IsReached {ℓ} :
      {A : Type ℓ} (b : Boot) (r : Result (A × CollaborationStore))
      → ((a : A) (s : CollaborationStore) → r ≡ ok (a, s) → Step digest b.store s)
      → IsReached b (settle b r)
  settle-IsReached b (raised e) step = Reach.here
  settle-IsReached b (ok (a, s)) step = Reach.next Reach.here (step a s refl)

  settle_store-IsReached :
      (b : Boot) (r : Result CollaborationStore)
      → ((s : CollaborationStore) → r ≡ ok s → Step digest b.store s)
      → IsReached b (settle_store b r)
  settle_store-IsReached b (raised e) step = Reach.here
  settle_store-IsReached b (ok s) step = Reach.next Reach.here (step s refl)

  validated-IsReached :
      (r : Result String) (b : Boot) (rest : String → Boot → Progress)
      → ((id : String) (b : Boot) → IsReached b (rest id b))
      → IsReached b (validated r b rest)
  validated-IsReached (raised e) b rest h = Reach.here
  validated-IsReached (ok id) b rest h = h id b

module _ (is_letter : ℕ → Bool) (config : Config) (supply : Supply)
    (digest : Canonical → String) where
  put_identities-IsReached :
      (raws : List RawIdentity) (b : Boot) → IsReached digest b (put_identities supply raws b)
  unfolding put_identities
  put_identities-IsReached [] b = Reach.here
  put_identities-IsReached (raw ∷ raws) b =
      and_then-IsReached digest b (put_identity supply raw b) _
        (validated-IsReached digest (validate_id raw.id) b _ (λ id b.
          settle-IsReached digest b _ (λ i s h.
            Step.identity_upserted (supply.clock b.drawn) id raw.display_name raw.kind raw.trust
              raw.agent none i h)))
        (put_identities-IsReached raws)

  put_member-IsReached :
      (room_id k : String) (b : Boot) → IsReached digest b (put_member supply room_id k b)
  put_member-IsReached room_id k b = elim (Bool-cases (is_some (get_identity k b.store))) [
    | inl known ↦ rw known (
        settle_store-IsReached digest b _
          (λ s h. Step.member_added (supply.clock b.drawn) room_id k h))
    | inr unknown ↦ rw unknown Reach.here
  ]

  put_members-IsReached :
      (room_id : String) (ids : List String) (b : Boot)
      → IsReached digest b (put_members supply room_id ids b)
  unfolding put_members
  put_members-IsReached room_id [] b = Reach.here
  put_members-IsReached room_id (k ∷ ids) b =
      and_then-IsReached digest b (put_member supply room_id k b) _
        (put_member-IsReached room_id k b) (put_members-IsReached room_id ids)

  append_event-IsReached :
      (room_id event_type actor_id : String) (payload : Json) (parent : Option String) (b : Boot)
      → IsReached digest b (
          settle b (
            append_event digest
              (supply.uuid b.drawn)
              (supply.clock b.drawn)
              room_id
              event_type
              actor_id
              payload
              parent
              b.store))
  append_event-IsReached room_id event_type actor_id payload parent b =
      settle-IsReached digest b
        (append_event digest (supply.uuid b.drawn) (supply.clock b.drawn) room_id event_type
          actor_id payload parent b.store)
        (λ e s h.
          Step.event_appended (supply.uuid b.drawn) (supply.clock b.drawn) room_id event_type
            actor_id payload parent e h)

  update_canvas-IsReached :
      (room_id actor_id content : String) (b : Boot)
      → IsReached digest b (
          settle b (
            update_canvas is_letter digest config
              (supply.uuid b.drawn)
              (supply.clock b.drawn)
              room_id
              actor_id
              content
              b.store))
  unfolding update_canvas
  update_canvas-IsReached room_id actor_id content b =
      elim (Bool-cases (ltb 100000 (count content))) [
        | inl long ↦ rw long Reach.here
        | inr fits ↦ rw fits (
            append_event-IsReached room_id "canvas.updated" actor_id
              (object (Fields.field "content" (text content) Fields.end))
              (id_of is_letter digest config (latest_canvas room_id b.store)) b)
      ]

  canvas_by-IsReached :
      (room_id content : String) (ids : Option (List String)) (b : Boot)
      → IsReached digest b (canvas_by is_letter config supply digest room_id content ids b)
  canvas_by-IsReached room_id content none b = update_canvas-IsReached room_id "kernel" content b
  canvas_by-IsReached room_id content (some []) b = Reach.here
  canvas_by-IsReached room_id content (some (k ∷ ids)) b =
      update_canvas-IsReached room_id k content b

  pub put_canvas-IsReached :
      (room_id : String) (raw : RawRoom) (b : Boot)
      → IsReached digest b (put_canvas is_letter config supply digest room_id raw b)
  put_canvas-IsReached room_id raw b = elim (Bool-cases (is_empty (given_text raw.canvas))) [
    | inl nothing ↦ rw nothing Reach.here
    | inr given ↦ elim (Bool-cases (is_some (latest_canvas room_id b.store))) [
      | inl old ↦ rw (given, old) Reach.here
      | inr new ↦
          rw (given, new) (canvas_by-IsReached room_id (given_text raw.canvas) raw.members b)
    ]
  ]

  pub put_greeting-IsReached :
      (room_id : String) (b : Boot)
      → IsReached digest b (put_greeting is_letter config supply digest room_id b)
  put_greeting-IsReached room_id b =
      elim (Bool-cases (
        any (λ (e : CollaborationEvent). e.event_type == "message.posted")
          (Rooms.events room_id 20 b.store))) [
            | inl greeted ↦ rw greeted Reach.here
            | inr silent ↦ rw silent (
                append_event-IsReached room_id "message.posted" "kernel" (greeting room_id b.store)
                  none b)
          ]

  fill_room-IsReached :
      (room_id : String) (raw : RawRoom) (b : Boot)
      → IsReached digest b (fill_room is_letter config supply digest room_id raw b)
  fill_room-IsReached room_id raw b =
      let ids = given_members raw.members ++ "kernel" ∷ [] in
      and_then-IsReached digest b (put_members supply room_id ids b)
        (open_room is_letter config supply digest room_id raw) (put_members-IsReached room_id ids b)
        (λ c.
          and_then-IsReached digest c (put_canvas is_letter config supply digest room_id raw c)
            (put_greeting is_letter config supply digest room_id)
            (put_canvas-IsReached room_id raw c) (put_greeting-IsReached room_id))

  put_valid_room-IsReached :
      (raw : RawRoom) (room_id : String) (b : Boot)
      → IsReached digest b (put_valid_room is_letter config supply digest raw room_id b)
  put_valid_room-IsReached raw room_id b =
      let made =
        create_room (supply.clock b.drawn) room_id raw.name (given_text raw.purpose) b.store in
      and_then-IsReached digest b (settle b made)
        (fill_room is_letter config supply digest room_id raw)
        (settle-IsReached digest b made (λ r s h.
          Step.room_created (supply.clock b.drawn) room_id raw.name (given_text raw.purpose) r h))
        (fill_room-IsReached room_id raw)

  pub put_rooms-IsReached :
      (raws : List RawRoom) (b : Boot)
      → IsReached digest b (put_rooms is_letter config supply digest raws b)
  unfolding put_rooms
  put_rooms-IsReached [] b = Reach.here
  put_rooms-IsReached (raw ∷ raws) b =
      and_then-IsReached digest b (put_room is_letter config supply digest raw b)
        (put_rooms is_letter config supply digest raws)
        (validated-IsReached digest (validate_id raw.id) b
          (put_valid_room is_letter config supply digest raw) (put_valid_room-IsReached raw))
        (put_rooms-IsReached raws)

  pub bootstrap-IsReached :
      (identities : List RawIdentity) (rooms : List RawRoom) (b : Boot)
      → IsReached digest b (bootstrap is_letter config supply digest identities rooms b)
  unfolding bootstrap
  bootstrap-IsReached identities rooms b =
      and_then-IsReached digest b (put_identities supply identities b) _
        (put_identities-IsReached identities b)
        (λ b.
          and_then-IsReached digest b (put_kernel supply b) _
            (settle-IsReached digest b _ (λ i s h.
              Step.identity_upserted (supply.clock b.drawn) "kernel" "Kernel" IdentityKind.system
                "trusted_local" none none i h))
            (put_rooms-IsReached rooms))

  -- Where the store was reached by its own calls, the chain of every room is verified after a bootstrap,
  -- whether it ends or is left by an exception.
  pub bootstrap_verified :
      (identities : List RawIdentity) (rooms : List RawRoom) (b : Boot) (room_id : String)
      → Reach digest empty b.store
      → let s = (bootstrap is_letter config supply digest identities rooms b).1.store in
        is_some (get_room room_id s) ≡ true
        → verify_chain digest room_id s
          ≡ verified (length (room_rows room_id s)) (last_hash genesis_hash (room_rows room_id s))
  bootstrap_verified identities rooms b room_id reach known =
      chains_verify digest _ room_id
        (Reach-Reach digest reach (bootstrap-IsReached identities rooms b)) known
