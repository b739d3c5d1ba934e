-- ===== src/Collaboration/Bootstrap/Written.antt =====
-- What a bootstrap has written into the rooms of the configuration
-- (src/sovereign_ai/collaboration/service.py).
use achilles.Prelude.{
  ℕ, String, ◌≡◌, refl, sym, ap, subst, ◌∙◌, Bool, true, false, ◌&&◌, ◌||◌, ◌==◌, eq_refl, arith,
  Option, none, some, List, [], ◌∷◌, ◌++◌, any, is_some, Bool-cases, inl, inr, Result, ok, raised,
  fetched, ◌>>=◌, Supply, ltb, take, drop, take-append-drop, length, ◌-◌,
}
use Prim.Native.String.{count}
use achilles.Json.{Json, Fields, text, object}
use achilles.Table
use achilles.Collaboration.Store.{
  IdentityRecord, Canonical, CollaborationEvent, CollaborationStore, is_in_room, room_rows,
  get_identity,
}
use achilles.Collaboration.Rooms
use achilles.Collaboration.Rooms.{
  is_member, add_member, with_member, latest_canvas, draft, append_canonical, append_event,
  clamp_limit, next_event,
}
use achilles.Collaboration.Append.{append_canonical_ok, append_event_stores}
use achilles.Collaboration.Text.{is_empty}
use achilles.Collaboration.Service.{Config}
use achilles.Collaboration.Messages.{update_canvas, id_of}
use achilles.Collaboration.History.{Reach}
use achilles.Collaboration.Audit.{history_is_append_only}
use achilles.Collaboration.Bootstrap.{
  RawRoom, Boot, Progress, and_then, settle, canvas_by, put_canvas, put_greeting, given_text,
  greeting,
}

-- The room has an event of this type.
abbrev pub has_event : String → String → CollaborationStore → Bool
has_event event_type room_id s =
    any (λ (e : CollaborationEvent). e.event_type == event_type) (room_rows room_id s)

any-append {ℓ} :
    {A : Type ℓ} (p : A → Bool) (xs ys : List A) → any p (xs ++ ys) ≡ (any p xs || any p ys)
any-append p [] ys = refl
any-append p (x ∷ xs) ys = ground (arith, any-append p xs ys)

any-drop {ℓ} :
    {A : Type ℓ} (p : A → Bool) (n : ℕ) (xs : List A) → any p (drop n xs) ≡ true → any p xs ≡ true
any-drop p n xs h =
    ap (any p) (sym (take-append-drop n xs))
    ∙ any-append p (take n xs) (drop n xs)
    ∙ rw h (ground arith)

-- A statement behind another has run if both have.
pub and_then_ok :
    (p : Progress) (rest : Boot → Progress) (b' : Boot)
    → and_then p rest ≡ (ok tt, b')
    → (mid : Boot) × (p ≡ (ok tt, mid)) × (rest mid ≡ (ok tt, b'))
and_then_ok (raised e, b) rest b' h = cc (h)
and_then_ok (ok tt, b) rest b' h = (b, refl, h)

pub settle_ok {ℓ} :
    {A : Type ℓ} (b b' : Boot) (r : Result (A × CollaborationStore))
    → settle b r ≡ (ok tt, b')
    → (a : A) × (r ≡ ok (a, b'.store))
settle_ok b b' (raised e) h = cc (h)
settle_ok b b' (ok (a, s)) h = (a, ap (λ (p : Progress). ok (a, p.1.store)) h)

module _ (digest : Canonical → String) where
  -- What is there stays there.
  pub has_event-kept :
      (event_type room_id : String) (s s' : CollaborationStore)
      → Reach digest s s'
      → has_event event_type room_id s ≡ true
      → has_event event_type room_id s' ≡ true
  has_event-kept event_type room_id s s' r h =
      let ((later, split), _) = history_is_append_only digest s s' room_id r in
      ap (any (λ (e : CollaborationEvent). e.event_type == event_type)) split
      ∙ any-append _ (room_rows room_id s) later
      ∙ rw h refl

  append_event_type :
      (event_id : String) (now_ns : ℕ) (room_id event_type actor_id : String) (payload : Json)
      (parent : Option String) (s s' : CollaborationStore) (row : CollaborationEvent)
      → append_event digest event_id now_ns room_id event_type actor_id payload parent s
        ≡ ok (row, s')
      → row.event_type ≡ event_type
  unfolding append_event
  append_event_type event_id now_ns room_id event_type actor_id payload parent s s' row h =
      elim (Bool-cases (is_member room_id actor_id s)) [
        | inr n ↦ cc (rw n at h)
        | inl member ↦ go (get_identity actor_id s) (rw member at h)
      ]
    where
      go :
          (o : Option IdentityRecord)
          → ◌>>=◌ {B = CollaborationEvent × CollaborationStore} (fetched o) (λ identity.
            append_canonical digest
              (draft event_id now_ns room_id event_type actor_id payload identity.trust parent)
              s)
            ≡ ok (row, s')
          → row.event_type ≡ event_type
      go none q = cc (q)
      go (some identity) q =
          let fields =
            draft event_id now_ns room_id event_type actor_id payload identity.trust parent in
          let (_, _, is_row, _) = append_canonical_ok digest fields s s' row q in
          ap (λ (e : CollaborationEvent). e.event_type) is_row

  appended_has_event :
      (event_id : String) (now_ns : ℕ) (room_id event_type actor_id : String) (payload : Json)
      (parent : Option String) (s s' : CollaborationStore) (row : CollaborationEvent)
      → append_event digest event_id now_ns room_id event_type actor_id payload parent s
        ≡ ok (row, s')
      → has_event event_type room_id s' ≡ true
  appended_has_event event_id now_ns room_id event_type actor_id payload parent s s' row h =
      let (_, split, _, _, _, _) =
        append_event_stores digest event_id now_ns room_id event_type actor_id payload parent s s'
          row h in
      let typed =
        append_event_type event_id now_ns room_id event_type actor_id payload parent s s' row h in
      ap (any (λ (e : CollaborationEvent). e.event_type == event_type)) split
      ∙ any-append _ (room_rows room_id s) (row ∷ [])
      ∙ rw (typed, eq_refl event_type) (ground arith)

canvas_there :
    (room_id : String) (events : List CollaborationEvent)
    → is_some (
        Rooms.last
          (Table.select (λ e. is_in_room room_id e && e.event_type == "canvas.updated") events))
      ≡ true
    → any
        (λ (e : CollaborationEvent). e.event_type == "canvas.updated")
        (Table.select (is_in_room room_id) events)
      ≡ true
unfolding Table.select
canvas_there room_id [] h = cc (h)
canvas_there room_id (e ∷ es) h = elim (Bool-cases (is_in_room room_id e)) [
  | inr n ↦ rw n (canvas_there room_id es (rw n at h))
  | inl y ↦ elim (Bool-cases (e.event_type == "canvas.updated")) [
    | inl t ↦ rw (y, t) refl
    | inr f ↦ rw (y, f) (canvas_there room_id es (rw (y, f) at h))
  ]
]

module _ (is_letter : ℕ → Bool) (config : Config) (supply : Supply)
    (digest : Canonical → String) where
  pub put_greeting_ok :
      (room_id : String) (b b' : Boot)
      → put_greeting is_letter config supply digest room_id b ≡ (ok tt, b')
      → has_event "message.posted" room_id b'.store ≡ true
  unfolding Rooms.events
  put_greeting_ok room_id b b' h =
      elim (Bool-cases (
        any (λ (e : CollaborationEvent). e.event_type == "message.posted")
          (Rooms.events room_id 20 b.store))) [
            | inl greeted ↦
                let same : b ≡ b' = ap (λ (p : Progress). p.1) (rw greeted at h) in
                subst (λ (x : Boot). has_event "message.posted" room_id x.store ≡ true) same
                  (any-drop _ (length (room_rows room_id b.store) - clamp_limit 500 20)
                    (room_rows room_id b.store) greeted)
            | inr silent ↦
                let (e, appends) =
                  settle_ok b b'
                    (append_event digest (supply.uuid b.drawn) (supply.clock b.drawn) room_id
                      "message.posted" "kernel" (greeting room_id b.store) none b.store)
                    (rw silent at h) in
                appended_has_event digest (supply.uuid b.drawn) (supply.clock b.drawn) room_id
                  "message.posted" "kernel" (greeting room_id b.store) none b.store b'.store e
                  appends
          ]

  update_canvas_ok :
      (room_id actor_id content : String) (b b' : Boot)
      → settle b (
          update_canvas is_letter digest config
            (supply.uuid b.drawn)
            (supply.clock b.drawn)
            room_id
            actor_id
            content
            b.store)
        ≡ (ok tt, b')
      → has_event "canvas.updated" room_id b'.store ≡ true
  unfolding update_canvas
  update_canvas_ok room_id actor_id content b b' h =
      elim (Bool-cases (ltb 100000 (count content))) [
        | inl long ↦ cc (rw long at h)
        | inr fits ↦
            let (e, appends) =
              settle_ok b b'
                (append_event digest (supply.uuid b.drawn) (supply.clock b.drawn) room_id
                  "canvas.updated" actor_id
                  (object (Fields.field "content" (text content) Fields.end))
                  (id_of is_letter digest config (latest_canvas room_id b.store)) b.store)
                (rw fits at h) in
            appended_has_event digest (supply.uuid b.drawn) (supply.clock b.drawn) room_id
              "canvas.updated" actor_id (object (Fields.field "content" (text content) Fields.end))
              (id_of is_letter digest config (latest_canvas room_id b.store)) b.store b'.store e
              appends
      ]

  canvas_by_ok :
      (room_id content : String) (ids : Option (List String)) (b b' : Boot)
      → canvas_by is_letter config supply digest room_id content ids b ≡ (ok tt, b')
      → has_event "canvas.updated" room_id b'.store ≡ true
  canvas_by_ok room_id content none b b' h = update_canvas_ok room_id "kernel" content b b' h
  canvas_by_ok room_id content (some []) b b' h = cc (h)
  canvas_by_ok room_id content (some (k ∷ ids)) b b' h = update_canvas_ok room_id k content b b' h

  pub put_canvas_ok :
      (room_id : String) (raw : RawRoom) (b b' : Boot)
      → put_canvas is_letter config supply digest room_id raw b ≡ (ok tt, b')
      → is_empty (given_text raw.canvas) ≡ false
      → has_event "canvas.updated" room_id b'.store ≡ true
  unfolding latest_canvas room_rows
  put_canvas_ok room_id raw b b' h given =
      elim (Bool-cases (is_some (latest_canvas room_id b.store))) [
        | inl old ↦
            let same : b ≡ b' = ap (λ (p : Progress). p.1) (rw (given, old) at h) in
            subst (λ (x : Boot). has_event "canvas.updated" room_id x.store ≡ true) same
              (canvas_there room_id b.store.events old)
        | inr new ↦
            canvas_by_ok room_id (given_text raw.canvas) raw.members b b' (rw (given, new) at h)
      ]
