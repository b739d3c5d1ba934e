-- ===== src/Collaboration/Bootstrap/Opened.antt =====
-- After a bootstrap every room of the configuration is open (src/sovereign_ai/collaboration/service.py).
use achilles.Prelude.{
  ℕ, String, ◌≡◌, refl, sym, ap, subst, ◌∙◌, Bool, true, false, List, [], ◌∷◌, ◌++◌, is_some,
  Result, ok, raised, Supply,
}
use achilles.Collaboration.Store.{Canonical, CollaborationStore, get_identity}
use achilles.Collaboration.Rooms.{is_member, create_room}
use achilles.Collaboration.Text.{is_empty, validate_id}
use achilles.Collaboration.Service.{Config}
use achilles.Collaboration.History.{Reach}
use achilles.Collaboration.Audit.{history_is_append_only}
use achilles.Collaboration.Bootstrap.{
  RawIdentity, RawRoom, Boot, Progress, settle, validated, put_identities, put_kernel, put_members,
  put_canvas, put_greeting, put_room, put_rooms, bootstrap, given_text, given_members, open_room,
  fill_room, put_valid_room,
}
use achilles.Collaboration.Bootstrap.Verified.{
  Reach-Reach, put_canvas-IsReached, put_greeting-IsReached, put_rooms-IsReached,
}
use achilles.Collaboration.Bootstrap.Written.{
  has_event, has_event-kept, and_then_ok, settle_ok, put_greeting_ok, put_canvas_ok,
}
use achilles.Collaboration.Bootstrap.Kernel.{
  put_members_ok, create_room_same, put_valid_room-IsSteady, put_kernel_ok,
}

-- The kernel is a member of the room, which has a message, and a canvas if the configuration has one
-- for it.
abbrev pub IsOpen : RawRoom → String → CollaborationStore → Type 0
IsOpen raw room_id s =
    (is_member room_id "kernel" s ≡ true)
    × (has_event "message.posted" room_id s ≡ true)
    × (is_empty (given_text raw.canvas) ≡ false → has_event "canvas.updated" room_id s ≡ true)

module _ (is_letter : ℕ → Bool) (config : Config) (supply : Supply)
    (digest : Canonical → String) where
  IsOpen-kept :
      (raw : RawRoom) (room_id : String) (s s' : CollaborationStore)
      → Reach digest s s'
      → IsOpen raw room_id s
      → IsOpen raw room_id s'
  IsOpen-kept raw room_id s s' r (member, greeted, drawn) = (
    (history_is_append_only digest s s' room_id r).1 "kernel" member,
    has_event-kept digest "message.posted" room_id s s' r greeted,
    λ given. has_event-kept digest "canvas.updated" room_id s s' r (drawn given),
  )

  open_room-IsOpen :
      (raw : RawRoom) (room_id : String) (b b' : Boot)
      → open_room is_letter config supply digest room_id raw b ≡ (ok tt, b')
      → is_member room_id "kernel" b.store ≡ true
      → IsOpen raw room_id b'.store
  open_room-IsOpen raw room_id b b' h member =
      let (mid, canvas, greeting) =
        and_then_ok (put_canvas is_letter config supply digest room_id raw b)
          (put_greeting is_letter config supply digest room_id) b' h in
      let first : Reach digest b.store mid.store =
        subst (λ (p : Progress). Reach digest b.store p.1.store) canvas
          (put_canvas-IsReached is_letter config supply digest room_id raw b) in
      let second : Reach digest mid.store b'.store =
        subst (λ (p : Progress). Reach digest mid.store p.1.store) greeting
          (put_greeting-IsReached is_letter config supply digest room_id mid) in
      (
        (history_is_append_only digest b.store b'.store room_id (Reach-Reach digest first second)).1
            "kernel" member,
        put_greeting_ok is_letter config supply digest room_id mid b' greeting,
        λ given.
            has_event-kept digest "canvas.updated" room_id mid.store b'.store second
              (put_canvas_ok is_letter config supply digest room_id raw b mid canvas given),
      )

  put_valid_room-IsOpen :
      (raw : RawRoom) (room_id : String) (b b' : Boot)
      → put_valid_room is_letter config supply digest raw room_id b ≡ (ok tt, b')
      → is_some (get_identity "kernel" b.store) ≡ true
      → IsOpen raw room_id b'.store
  unfolding get_identity
  put_valid_room-IsOpen raw room_id b b' h known =
      let made =
        create_room (supply.clock b.drawn) room_id raw.name (given_text raw.purpose) b.store in
      let ids = given_members raw.members in
      let (c, created, filled) =
        and_then_ok (settle b made) (fill_room is_letter config supply digest room_id raw) b' h in
      let (d, joined, opened) =
        and_then_ok (put_members supply room_id (ids ++ "kernel" ∷ []) c)
          (open_room is_letter config supply digest room_id raw) b' filled in
      let (r, is_made) = settle_ok b c made created in
      let same : c.store.identities ≡ b.store.identities =
        create_room_same (supply.clock b.drawn) room_id raw.name (given_text raw.purpose) b.store
          c.store r is_made in
      open_room-IsOpen raw room_id d b' opened
        (put_members_ok supply room_id "kernel" ids c d joined (rw same known))

  validated_ok :
      (r : Result String) (b b' : Boot) (rest : String → Boot → Progress)
      → validated r b rest ≡ (ok tt, b')
      → (id : String) × (r ≡ ok id) × (rest id b ≡ (ok tt, b'))
  validated_ok (raised e) b b' rest h = cc (h)
  validated_ok (ok id) b b' rest h = (id, refl, h)

  put_rooms-IsOpen :
      (before after : List RawRoom) (raw : RawRoom) (room_id : String) (b b' : Boot)
      → put_rooms is_letter config supply digest (before ++ raw ∷ after) b ≡ (ok tt, b')
      → validate_id raw.id ≡ ok room_id
      → is_some (get_identity "kernel" b.store) ≡ true
      → IsOpen raw room_id b'.store
  unfolding put_rooms get_identity
  put_rooms-IsOpen [] after raw room_id b b' h valid known =
      let (mid, first, rest) =
        and_then_ok (put_room is_letter config supply digest raw b)
          (put_rooms is_letter config supply digest after) b' h in
      let (id, is_id, put) =
        validated_ok (validate_id raw.id) b mid (put_valid_room is_letter config supply digest raw)
          first in
      let same : id ≡ room_id = cc (is_id, valid) in
      IsOpen-kept raw room_id mid.store b'.store
        (subst (λ (p : Progress). Reach digest mid.store p.1.store) rest
          (put_rooms-IsReached is_letter config supply digest after mid))
        (subst (λ j. IsOpen raw j mid.store) same (put_valid_room-IsOpen raw id b mid put known))
  put_rooms-IsOpen (other ∷ before) after raw room_id b b' h valid known =
      let (mid, first, rest) =
        and_then_ok (put_room is_letter config supply digest other b)
          (put_rooms is_letter config supply digest (before ++ raw ∷ after)) b' h in
      let (id, _, put) =
        validated_ok (validate_id other.id) b mid
          (put_valid_room is_letter config supply digest other) first in
      let same : mid.store.identities ≡ b.store.identities =
        sym (ap (λ (p : Progress). p.1.store.identities) put)
        ∙ put_valid_room-IsSteady is_letter config supply digest other id b in
      put_rooms-IsOpen before after raw room_id mid b' rest valid (rw same known)

  -- After a bootstrap that returns, from whatever was stored before, each room of the configuration is
  -- open, under the id that its own is read as: the kernel is a member of it, it has a message, and it
  -- has a canvas if the configuration gives it one.
  pub bootstrap-IsOpen :
      (identities : List RawIdentity) (rooms before after : List RawRoom) (raw : RawRoom)
      (room_id : String) (b b' : Boot)
      → rooms ≡ before ++ raw ∷ after
      → validate_id raw.id ≡ ok room_id
      → bootstrap is_letter config supply digest identities rooms b ≡ (ok tt, b')
      → IsOpen raw room_id b'.store
  unfolding bootstrap
  bootstrap-IsOpen identities rooms before after raw room_id b b' split valid h =
      let (c, _, then_kernel) = and_then_ok (put_identities supply identities b) _ b' h in
      let (d, kernel, then_rooms) =
        and_then_ok (put_kernel supply c) (put_rooms is_letter config supply digest rooms) b'
          then_kernel in
      put_rooms-IsOpen before after raw room_id d b'
        (subst (λ l. put_rooms is_letter config supply digest l d ≡ (ok tt, b')) split then_rooms)
        valid (put_kernel_ok is_letter config supply digest c d kernel)
