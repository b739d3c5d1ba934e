-- ===== src/Collaboration/Append.antt =====
-- What `append_event` does to the chain of its room (src/sovereign_ai/collaboration/store.py).
use achilles.Prelude.{
  ℕ, String, ◌≡◌, refl, sym, ap, subst, ◌∙◌, true, false, ◌==◌, Option, none, some, List, [], ◌∷◌,
  ◌++◌, length, length-append, is_some, if◌then◌else◌, Result, ok, raised, ◌>>=◌, fetched, arith,
  eq_iff, eq_refl, Bool-cases, inl, inr,
}
use achilles.Json
use achilles.Json.{Json}
use achilles.Table
use achilles.Table.Laws
use achilles.Table.Queries
use achilles.Collaboration.Store.{
  IdentityRecord, RoomHead, Canonical, CollaborationEvent, CollaborationStore, head_key, event_key,
  is_in_room, room_rows, last_hash, genesis_hash, get_identity,
}
use achilles.Collaboration.Rooms.{
  get_room, draft, is_member, reached, links, walk, insert_event, advance, next_event, with_event,
  append_canonical, append_event,
}
use achilles.Collaboration.Chain.{
  read_back, head_of, walk-append, walk-last_hash, IsAnchor, IsIntact,
}

-- The row goes to the end, under a new id, in a room that exists.
insert_event_ok :
    (e : CollaborationEvent) (s : CollaborationStore) (rows : List CollaborationEvent)
    → insert_event e s ≡ ok rows
    → (Table.find event_key e.event_id s.events ≡ none)
      × (is_some (get_room e.room_id s) ≡ true)
      × (s.events ++ e ∷ [] ≡ rows)
unfolding insert_event
insert_event_ok e s rows h =
    ground (arith, Laws.find-none event_key (λ x. x.event_hash == e.event_hash) e.event_id s.events)

module _ (digest : Canonical → String) where
  pub append_canonical_ok :
      (fields : Canonical) (s s' : CollaborationStore) (row : CollaborationEvent)
      → append_canonical digest fields s ≡ ok (row, s')
      → (Table.find event_key fields.event_id s.events ≡ none)
        × (is_some (get_room fields.room_id s) ≡ true)
        × (row ≡ next_event digest fields s)
        × (with_event (next_event digest fields s) (s.events ++ next_event digest fields s ∷ []) s
            ≡ s')
  unfolding append_canonical
  append_canonical_ok fields s s' row h = go (insert_event (next_event digest fields s) s) refl h
    where
      go :
          (r : Result (List CollaborationEvent))
          → insert_event (next_event digest fields s) s ≡ r
          → ◌>>=◌ {B = CollaborationEvent × CollaborationStore} r (λ rows.
            fetched (Table.find event_key fields.event_id rows)
            >>= (λ x. ok (x, with_event (next_event digest fields s) rows s)))
            ≡ ok (row, s')
          → (Table.find event_key fields.event_id s.events ≡ none)
            × (is_some (get_room fields.room_id s) ≡ true)
            × (row ≡ next_event digest fields s)
            × (with_event
                  (next_event digest fields s)
                  (s.events ++ next_event digest fields s ∷ [])
                  s
                ≡ s')
      go (raised e) f q = cc
      go (ok rows) f q =
          let (new, known, split) = insert_event_ok (next_event digest fields s) s rows f in
          let found : Table.find event_key fields.event_id rows
              ≡ some (next_event digest fields s) =
            subst (λ l. Table.find event_key fields.event_id l ≡ some (next_event digest fields s))
              split
              (rw
                (
                  Laws.find-append event_key fields.event_id s.events (next_event digest fields s),
                  new,
                  eq_refl fields.event_id,
                )
                refl) in
          (new, known, cc (rw found at q), rw split (read_back _ _ s' row q))

  room_rows-with_event :
      (k : String) (e : CollaborationEvent) (s : CollaborationStore)
      → room_rows k (with_event e (s.events ++ e ∷ []) s)
        ≡ (if e.room_id == k then room_rows k s ++ e ∷ [] else room_rows k s)
  unfolding room_rows
  room_rows-with_event k e s = Queries.select-append (is_in_room k) s.events e

  head_of-with_event :
      (k : String) (e : CollaborationEvent) (rows : List CollaborationEvent)
      (s : CollaborationStore)
      → head_of k (with_event e rows s).room_heads
        ≡ Laws.updated (λ h. h.room_id == e.room_id) (advance e.event_hash) (head_of k s.room_heads)
  unfolding head_of
  head_of-with_event k e rows s =
      Laws.find-update head_key (λ h. h.room_id == e.room_id) (advance e.event_hash) (λ h. refl) k
        s.room_heads

  abbrev EndsAt : List CollaborationEvent → RoomHead → Type 0
  EndsAt rows h =
      (walk digest genesis_hash rows ≡ reached h.event_hash) × (h.event_count ≡ length rows)

  with_event-IsIntact :
      (e : CollaborationEvent) (s : CollaborationStore)
      → is_some (get_room e.room_id s) ≡ true
      → links digest (last_hash genesis_hash (room_rows e.room_id s)) e ≡ true
      → IsIntact digest s
      → IsIntact digest (with_event e (s.events ++ e ∷ []) s)
  unfolding get_room head_of
  with_event-IsIntact e s known linked i = record {
    headed = λ k h.
        rw
          (
            head_of-with_event k e (s.events ++ e ∷ []) s,
            Laws.is_some-updated (λ y. y.room_id == e.room_id) (advance e.event_hash)
                (head_of k s.room_heads),
          )
          (i.headed k h);
    unheaded = λ k h. no_head k (sym (head_of-with_event k e (s.events ++ e ∷ []) s) ∙ h);
    anchored = λ k x h.
        end_of k x (head_of k s.room_heads) refl
          (sym (head_of-with_event k e (s.events ++ e ∷ []) s) ∙ h);
  }
    where
      no_head :
          (k : String)
          → Laws.updated
              (λ y. y.room_id == e.room_id)
              (advance e.event_hash)
              (head_of k s.room_heads)
            ≡ none
          → room_rows k (with_event e (s.events ++ e ∷ []) s) ≡ []
      no_head k h =
          let new : head_of k s.room_heads ≡ none = ground arith in
          rw (room_rows-with_event k e s) (elim (Bool-cases (e.room_id == k)) [
            | inr n ↦ rw n (i.unheaded k new)
            | inl is_k ↦
                let there : is_some (head_of e.room_id s.room_heads) ≡ true =
                  i.headed e.room_id known in
                cc (rw ((eq_iff e.room_id k).0 is_k, new) at there)
          ])

      end_of :
          (k : String) (x : RoomHead) (o : Option RoomHead)
          → head_of k s.room_heads ≡ o
          → Laws.updated (λ y. y.room_id == e.room_id) (advance e.event_hash) o ≡ some x
          → IsAnchor digest (with_event e (s.events ++ e ∷ []) s) k x
      end_of k x none f h = cc
      end_of k x (some y) f h =
          let (whole, counted) = i.anchored k y f in
          let of_k : y.room_id ≡ k = Laws.find-key head_key k s.room_heads y f in
          let rows = room_rows k s in
          rw (room_rows-with_event k e s) (elim (Bool-cases (e.room_id == k)) [
            | inr n ↦
                let apart : y.room_id == e.room_id ≡ false =
                  ground (arith, eq_iff y.room_id e.room_id, eq_iff e.room_id k) in
                let same : y ≡ x = cc (rw apart at h) in
                rw n (subst (λ z. EndsAt rows z) same (whole, counted))
            | inl is_k ↦
                let of_e : e.room_id ≡ k = (eq_iff e.room_id k).0 is_k in
                let met : y.room_id == e.room_id ≡ true =
                  ground (arith, eq_iff y.room_id e.room_id) in
                let same : advance e.event_hash y ≡ x = cc (rw met at h) in
                let at_y : links digest y.event_hash e ≡ true =
                  rw (walk-last_hash digest genesis_hash y.event_hash rows whole) (
                    subst (λ j. links digest (last_hash genesis_hash (room_rows j s)) e ≡ true) of_e
                      linked) in
                rw is_k (
                  subst (λ z. EndsAt (rows ++ e ∷ []) z) same
                    (
                      walk-append digest genesis_hash y.event_hash rows e whole at_y,
                      omega (arith, counted, length-append rows (e ∷ [])),
                    ))
          ])

  append_canonical-IsIntact :
      (fields : Canonical) (s s' : CollaborationStore) (row : CollaborationEvent)
      → append_canonical digest fields s ≡ ok (row, s')
      → IsIntact digest s
      → IsIntact digest s'
  append_canonical-IsIntact fields s s' row h i =
      let (new, known, _, same) = append_canonical_ok fields s s' row h in
      let last = last_hash genesis_hash (room_rows fields.room_id s) in
      let e = next_event digest fields s in
      subst (IsIntact digest) same
        (with_event-IsIntact e s known (rw (eq_refl last, eq_refl e.event_hash) refl) i)

  -- An event that is appended is one of a member, with what the call gave it.
  pub append_event_ok :
      (event_id : String) (now_ns : ℕ) (room_id event_type actor_id : String) (payload : Json)
      (parent_event_id : Option String) (s s' : CollaborationStore) (row : CollaborationEvent)
      → append_event digest event_id now_ns room_id event_type actor_id payload parent_event_id s
        ≡ ok (row, s')
      → (is_member room_id actor_id s ≡ true)
        × (fields : Canonical) × (fields.room_id ≡ room_id)
        × (fields.actor_id ≡ actor_id)
        × (fields.event_id ≡ event_id)
        × (fields.payload ≡ Json.sorted payload)
        × (append_canonical digest fields s ≡ ok (row, s'))
  unfolding append_event
  append_event_ok event_id now_ns room_id event_type actor_id payload parent_event_id s s' row h =
      elim (Bool-cases (is_member room_id actor_id s)) [
        | inr n ↦ cc (rw n at h)
        | inl member ↦ go (get_identity actor_id s) (rw member at h) member
      ]
    where
      go :
          (o : Option IdentityRecord)
          → ◌>>=◌ {B = CollaborationEvent × CollaborationStore} (fetched o) (λ identity.
            append_canonical digest
              (draft event_id now_ns room_id event_type actor_id payload identity.trust
                parent_event_id)
              s)
            ≡ ok (row, s')
          → is_member room_id actor_id s ≡ true
          → (is_member room_id actor_id s ≡ true)
            × (fields : Canonical) × (fields.room_id ≡ room_id)
            × (fields.actor_id ≡ actor_id)
            × (fields.event_id ≡ event_id)
            × (fields.payload ≡ Json.sorted payload)
            × (append_canonical digest fields s ≡ ok (row, s'))
      go none q member = cc
      go (some identity) q member = (
        member,
        draft event_id now_ns room_id event_type actor_id payload identity.trust parent_event_id,
        refl,
        refl,
        refl,
        refl,
        q,
      )

  pub append_event-IsIntact :
      (event_id : String) (now_ns : ℕ) (room_id event_type actor_id : String) (payload : Json)
      (parent_event_id : Option String) (s s' : CollaborationStore) (row : CollaborationEvent)
      → append_event digest event_id now_ns room_id event_type actor_id payload parent_event_id s
        ≡ ok (row, s')
      → IsIntact digest s
      → IsIntact digest s'
  append_event-IsIntact event_id now_ns room_id event_type actor_id payload parent s s' row h i =
      let (_, fields, _, _, _, _, appends) =
        append_event_ok event_id now_ns room_id event_type actor_id payload parent s s' row h in
      append_canonical-IsIntact fields s s' row appends i

  -- The row that comes back is the last one of its room.
  pub append_event_stores :
      (event_id : String) (now_ns : ℕ) (room_id event_type actor_id : String) (payload : Json)
      (parent_event_id : Option String) (s s' : CollaborationStore) (row : CollaborationEvent)
      → append_event digest event_id now_ns room_id event_type actor_id payload parent_event_id s
        ≡ ok (row, s')
      → (is_member room_id actor_id s ≡ true)
        × (room_rows room_id s' ≡ room_rows room_id s ++ row ∷ [])
        × (row.room_id ≡ room_id)
        × (row.actor_id ≡ actor_id)
        × (row.payload ≡ Json.sorted payload)
        × (s'.events ≡ s.events ++ row ∷ [])
  append_event_stores event_id now_ns room_id event_type actor_id payload parent s s' row h =
      let (member, fields, of_room, of_actor, _, says, appends) =
        append_event_ok event_id now_ns room_id event_type actor_id payload parent s s' row h in
      let (_, _, is_row, same) = append_canonical_ok fields s s' row appends in
      let e = next_event digest fields s in
      let met : e.room_id == room_id ≡ true = (eq_iff e.room_id room_id).1 of_room in
      (
        member,
        subst (λ t. room_rows room_id t ≡ room_rows room_id s ++ row ∷ []) same
            (room_rows-with_event room_id e s
              ∙ rw met (ap (λ x. room_rows room_id s ++ x ∷ []) (sym is_row))),
        rw is_row of_room,
        rw is_row of_actor,
        rw is_row says,
        ap (λ (x : CollaborationStore). x.events) (sym same)
            ∙ ap (λ x. s.events ++ x ∷ []) (sym is_row),
      )
