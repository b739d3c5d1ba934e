-- ===== src/Collaboration/Bootstrap/Kernel.antt =====
-- The identities stay what they are while a bootstrap fills its rooms
-- (src/sovereign_ai/collaboration/service.py).
use achilles.Prelude.{
  ℕ, String, ◌≡◌, refl, sym, ap, subst, ◌∙◌, true, ◌&&◌, Option, none, some, List, [], ◌∷◌, ◌++◌,
  any, ◌==◌, Bool, is_some, Bool-cases, inl, inr, Result, ok, raised, fetched, ◌>>=◌, Supply, ltb,
  eq_refl, arith,
}
use Prim.Native.String.{count}
use achilles.Json.{Json, Fields, text, object}
use achilles.Collaboration.Store.{
  IdentityRecord, RoomRecord, Canonical, CollaborationEvent, CollaborationStore, get_identity,
}
use achilles.Collaboration.Identities.{upsert_identity}
use achilles.Table.Queries
use achilles.Collaboration.Rooms
use achilles.Collaboration.Rooms.{
  get_room, create_room, is_membership, is_member, add_member, with_member, latest_canvas,
  append_event,
}
use achilles.Collaboration.Chain.{read_back}
use achilles.Collaboration.Append.{append_canonical_ok, append_event_ok}
use achilles.Collaboration.Text.{is_empty}
use achilles.Collaboration.Service.{Config}
use achilles.Collaboration.Messages.{update_canvas, id_of}
use achilles.Collaboration.Bootstrap.{
  RawRoom, Boot, Progress, and_then, settle, settle_store, put_kernel, put_member, put_members,
  canvas_by, put_canvas, put_greeting, given_text, given_members, greeting, open_room, fill_room,
  put_valid_room,
}
use achilles.Collaboration.Bootstrap.Written.{and_then_ok, settle_ok}

-- What is left has the identities that were there.
abbrev pub IsSteady : Boot → Progress → Type 0
IsSteady b p = p.1.store.identities ≡ b.store.identities

and_then-IsSteady :
    (b : Boot) (p : Progress) (rest : Boot → Progress)
    → IsSteady b p
    → ((c : Boot) → IsSteady c (rest c))
    → IsSteady b (and_then p rest)
and_then-IsSteady b (raised e, c) rest h more = h
and_then-IsSteady b (ok done, c) rest h more = more c ∙ h

settle-IsSteady {ℓ} :
    {A : Type ℓ} (b : Boot) (r : Result (A × CollaborationStore))
    → ((a : A) (s : CollaborationStore) → r ≡ ok (a, s) → s.identities ≡ b.store.identities)
    → IsSteady b (settle b r)
settle-IsSteady b (raised e) same = refl
settle-IsSteady b (ok (a, s)) same = same a s refl

-- A member that is known is let in, and no identity changes.
add_member_ok :
    (now_ns : ℕ) (room_id k : String) (s s' : CollaborationStore)
    → add_member now_ns room_id k s ≡ ok s'
    → (s'.identities ≡ s.identities) × (is_member room_id k s' ≡ true)
unfolding add_member is_member
add_member_ok now_ns room_id k s s' h = elim (Bool-cases (is_member room_id k s)) [
  | inl old ↦
      let same : s ≡ s' = cc (rw old at h) in
      (
        sym (ap (λ (x : CollaborationStore). x.identities) same),
        ap (is_member room_id k) (sym same) ∙ old,
      )
  | inr new ↦ elim (Bool-cases (is_some (get_room room_id s) && is_some (get_identity k s))) [
    | inr n ↦ cc (rw (new, n) at h)
    | inl both ↦
        let same : with_member now_ns room_id k s ≡ s' = cc (rw (new, both) at h) in
        (
          sym (ap (λ (x : CollaborationStore). x.identities) same),
          ap (is_member room_id k) (sym same) ∙ joined,
        )
  ]
]
  where
    joined : is_member room_id k (with_member now_ns room_id k s) ≡ true
    joined =
        Queries.exists-append (is_membership room_id k) s.memberships
          (record { room_id = room_id; identity_id = k; joined_at_ns = now_ns })
        ∙ rw (eq_refl room_id, eq_refl k) (ground arith)

put_member-IsSteady :
    (supply : Supply) (room_id k : String) (b : Boot) → IsSteady b (put_member supply room_id k b)
put_member-IsSteady supply room_id k b = elim (Bool-cases (is_some (get_identity k b.store))) [
  | inr unknown ↦ rw unknown refl
  | inl known ↦ rw known (go (add_member (supply.clock b.drawn) room_id k b.store) refl)
]
  where
    go :
        (r : Result CollaborationStore)
        → add_member (supply.clock b.drawn) room_id k b.store ≡ r
        → IsSteady b (settle_store b r)
    go (raised e) h = refl
    go (ok s) h = (add_member_ok (supply.clock b.drawn) room_id k b.store s h).0

-- Who is put last is a member, if it is known.
pub put_members_ok :
    (supply : Supply) (room_id k : String) (ids : List String) (b b' : Boot)
    → put_members supply room_id (ids ++ k ∷ []) b ≡ (ok tt, b')
    → is_some (get_identity k b.store) ≡ true
    → is_member room_id k b'.store ≡ true
unfolding put_members get_identity
put_members_ok supply room_id k [] b b' h known =
    go (add_member (supply.clock b.drawn) room_id k b.store) refl (rw known at h)
  where
    go :
        (r : Result CollaborationStore)
        → add_member (supply.clock b.drawn) room_id k b.store ≡ r
        → and_then (settle_store b r) (λ c. (ok tt, c)) ≡ (ok tt, b')
        → is_member room_id k b'.store ≡ true
    go (raised e) f g = cc (g)
    go (ok s) f g =
        ap (is_member room_id k) (sym (ap (λ (p : Progress). p.1.store) g))
        ∙ (add_member_ok (supply.clock b.drawn) room_id k b.store s f).1
put_members_ok supply room_id k (j ∷ ids) b b' h known =
    let (mid, first, rest) =
      and_then_ok (put_member supply room_id j b)
        (λ c. put_members supply room_id (ids ++ k ∷ []) c) b' h in
    put_members_ok supply room_id k ids mid b' rest (
      rw
        (sym (ap (λ (p : Progress). p.1.store.identities) first)
          ∙ put_member-IsSteady supply room_id j b)
        known)

put_members-IsSteady :
    (supply : Supply) (room_id : String) (ids : List String) (b : Boot)
    → IsSteady b (put_members supply room_id ids b)
unfolding put_members
put_members-IsSteady supply room_id [] b = refl
put_members-IsSteady supply room_id (k ∷ ids) b =
    and_then-IsSteady b (put_member supply room_id k b) _ (put_member-IsSteady supply room_id k b)
      (put_members-IsSteady supply room_id ids)

pub create_room_same :
    (now_ns : ℕ) (room_id name purpose : String) (s s' : CollaborationStore) (r : RoomRecord)
    → create_room now_ns room_id name purpose s ≡ ok (r, s')
    → s'.identities ≡ s.identities
unfolding create_room
create_room_same now_ns room_id name purpose s s' r h =
    sym (ap (λ (x : CollaborationStore). x.identities) (read_back _ _ s' r h))

module _ (is_letter : ℕ → Bool) (config : Config) (supply : Supply)
    (digest : Canonical → String) where
  append_event_same :
      (event_id : String) (now_ns : ℕ) (room_id event_type actor_id : String) (payload : Json)
      (parent : Option String) (s s' : CollaborationStore) (row : CollaborationEvent)
      → append_event digest event_id now_ns room_id event_type actor_id payload parent s
        ≡ ok (row, s')
      → s'.identities ≡ s.identities
  append_event_same event_id now_ns room_id event_type actor_id payload parent s s' row h =
      let (_, fields, _, _, _, _, appends) =
        append_event_ok digest event_id now_ns room_id event_type actor_id payload parent s s' row
          h in
      let (_, _, _, same) = append_canonical_ok digest fields s s' row appends in
      sym (ap (λ (x : CollaborationStore). x.identities) same)

  append-IsSteady :
      (room_id event_type actor_id : String) (payload : Json) (parent : Option String) (b : Boot)
      → IsSteady b (
          settle b (
            append_event digest
              (supply.uuid b.drawn)
              (supply.clock b.drawn)
              room_id
              event_type
              actor_id
              payload
              parent
              b.store))
  append-IsSteady room_id event_type actor_id payload parent b =
      settle-IsSteady b
        (append_event digest (supply.uuid b.drawn) (supply.clock b.drawn) room_id event_type
          actor_id payload parent b.store)
        (λ e s h.
          append_event_same (supply.uuid b.drawn) (supply.clock b.drawn) room_id event_type actor_id
            payload parent b.store s e h)

  update_canvas-IsSteady :
      (room_id actor_id content : String) (b : Boot)
      → IsSteady b (
          settle b (
            update_canvas is_letter digest config
              (supply.uuid b.drawn)
              (supply.clock b.drawn)
              room_id
              actor_id
              content
              b.store))
  unfolding update_canvas
  update_canvas-IsSteady room_id actor_id content b =
      elim (Bool-cases (ltb 100000 (count content))) [
        | inl long ↦ rw long refl
        | inr fits ↦ rw fits (
            append-IsSteady room_id "canvas.updated" actor_id
              (object (Fields.field "content" (text content) Fields.end))
              (id_of is_letter digest config (latest_canvas room_id b.store)) b)
      ]

  canvas_by-IsSteady :
      (room_id content : String) (ids : Option (List String)) (b : Boot)
      → IsSteady b (canvas_by is_letter config supply digest room_id content ids b)
  canvas_by-IsSteady room_id content none b = update_canvas-IsSteady room_id "kernel" content b
  canvas_by-IsSteady room_id content (some []) b = refl
  canvas_by-IsSteady room_id content (some (k ∷ ids)) b = update_canvas-IsSteady room_id k content b

  put_canvas-IsSteady :
      (room_id : String) (raw : RawRoom) (b : Boot)
      → IsSteady b (put_canvas is_letter config supply digest room_id raw b)
  put_canvas-IsSteady room_id raw b = elim (Bool-cases (is_empty (given_text raw.canvas))) [
    | inl nothing ↦ rw nothing refl
    | inr given ↦ elim (Bool-cases (is_some (latest_canvas room_id b.store))) [
      | inl old ↦ rw (given, old) refl
      | inr new ↦ rw (given, new) (canvas_by-IsSteady room_id (given_text raw.canvas) raw.members b)
    ]
  ]

  put_greeting-IsSteady :
      (room_id : String) (b : Boot)
      → IsSteady b (put_greeting is_letter config supply digest room_id b)
  put_greeting-IsSteady room_id b =
      elim (Bool-cases (
        any (λ (e : CollaborationEvent). e.event_type == "message.posted")
          (Rooms.events room_id 20 b.store))) [
            | inl greeted ↦ rw greeted refl
            | inr silent ↦ rw silent (
                append-IsSteady room_id "message.posted" "kernel" (greeting room_id b.store) none b)
          ]

  pub put_valid_room-IsSteady :
      (raw : RawRoom) (room_id : String) (b : Boot)
      → IsSteady b (put_valid_room is_letter config supply digest raw room_id b)
  put_valid_room-IsSteady raw room_id b =
      let made =
        create_room (supply.clock b.drawn) room_id raw.name (given_text raw.purpose) b.store in
      let ids = given_members raw.members ++ "kernel" ∷ [] in
      and_then-IsSteady b (settle b made) (fill_room is_letter config supply digest room_id raw)
        (settle-IsSteady b made (λ r s h.
          create_room_same (supply.clock b.drawn) room_id raw.name (given_text raw.purpose) b.store
            s r h))
        (λ c.
          and_then-IsSteady c (put_members supply room_id ids c)
            (open_room is_letter config supply digest room_id raw)
            (put_members-IsSteady supply room_id ids c)
            (λ d.
              and_then-IsSteady d (put_canvas is_letter config supply digest room_id raw d)
                (put_greeting is_letter config supply digest room_id)
                (put_canvas-IsSteady room_id raw d) (put_greeting-IsSteady room_id)))

  -- A kernel that is put is known.
  pub put_kernel_ok :
      (b b' : Boot)
      → put_kernel supply b ≡ (ok tt, b')
      → is_some (get_identity "kernel" b'.store) ≡ true
  unfolding upsert_identity
  put_kernel_ok b b' h =
      let (i, made) = settle_ok b b' _ h in
      subst (λ s. is_some (get_identity "kernel" s) ≡ true) (read_back _ _ _ i made)
        (read_some _ _ made)
    where
      read_some :
          (o : Option IdentityRecord) (s : CollaborationStore)
          {x : IdentityRecord × CollaborationStore}
          → ◌>>=◌ {B = IdentityRecord × CollaborationStore} (fetched o) (λ i. ok (i, s)) ≡ ok x
          → is_some o ≡ true
      read_some none s q = cc (q)
      read_some (some i) s q = refl
