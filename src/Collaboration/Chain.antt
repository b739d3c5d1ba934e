-- ===== src/Collaboration/Chain.antt =====
-- The chains of events stay whole (src/sovereign_ai/collaboration/store.py).
use achilles.Prelude.{
  ℕ, String, ◌≡◌, refl, sym, subst, ◌∙◌, true, ◌&&◌, ◌||◌, ◌==◌, Option, none, some, List, [], ◌∷◌,
  ◌++◌, length, is_some, if◌then◌else◌, ok, ◌>>=◌, fetched, arith, eq_iff, Bool-cases, inl, inr,
  ◌⊎◌,
}
use achilles.Table
use achilles.Table.Laws
use achilles.Collaboration.Store.{
  RoomRecord, RoomHead, Canonical, CollaborationEvent, CollaborationStore, room_key, head_key,
  room_rows, last_hash, genesis_hash, get_identity,
}
use achilles.Collaboration.Rooms.{
  get_room, genesis, add_head, create_room, put_room, adopt_heads, init_db, present_head, is_member,
  with_member, add_member, reached, links, walk,
}

-- What a read back answers beside the new state.
pub read_back {ℓ κ} :
    {A : Type ℓ} {S : Type κ} (o : Option A) (s s' : S) (x : A)
    → ◌>>=◌ {B = A × S} (fetched o) (λ a. ok (a, s)) ≡ ok (x, s')
    → s ≡ s'
read_back none s s' x h = cc
read_back (some a) s s' x h = cc (h)

unfoldable pub head_of : String → List RoomHead → Option RoomHead
unfolding Table.find
head_of room_id heads = Table.find head_key room_id heads

find-add_head :
    (room_id : String) (h : RoomHead) (heads : List RoomHead)
    → head_of room_id (add_head h heads) ≡ elim (head_of room_id heads) [
      | none ↦ (if h.room_id == room_id then some h else none)
      | some x ↦ some x
    ]
unfolding head_of add_head
find-add_head room_id h heads =
    ground (arith, eq_iff h.room_id room_id, Laws.find-append head_key room_id heads h)

find-put_room :
    (r : RoomRecord) (k : String) (rooms : List RoomRecord)
    → is_some (Table.find room_key k (put_room r rooms))
      ≡ (is_some (Table.find room_key k rooms) || r.id == k)
unfolding put_room
find-put_room r k rooms = ground (
  arith,
  eq_iff r.id k,
  Laws.find-append room_key k rooms r,
  Laws.find-update room_key (λ x. x.id == r.id)
      (λ x. record x { name = r.name; purpose = r.purpose }) (λ x. refl) k rooms,
)

-- A head is an old one, or the new one of a room that had none.
add_head_inv :
    (k : String) (h x : RoomHead) (heads : List RoomHead)
    → head_of k (add_head h heads) ≡ some x
    → (head_of k heads ≡ some x) ⊎ ((head_of k heads ≡ none) × (h.room_id ≡ k) × (h ≡ x))
add_head_inv k h x heads e = go (head_of k heads) refl (sym (find-add_head k h heads) ∙ e)
  where
    go :
        (o : Option RoomHead)
        → head_of k heads ≡ o
        → elim o [ none ↦ (if h.room_id == k then some h else none) | some y ↦ some y ] ≡ some x
        → (head_of k heads ≡ some x) ⊎ ((head_of k heads ≡ none) × (h.room_id ≡ k) × (h ≡ x))
    go (some y) f q = inl (f ∙ q)
    go none f q = elim (Bool-cases (h.room_id == k)) [
      | inl same ↦ inr (f, (eq_iff h.room_id k).0 same, cc (rw same at q))
      | inr n ↦ cc (rw n at q)
    ]

module _ (digest : Canonical → String) where
  walk_nil : (h : String) → walk digest h [] ≡ reached h
  unfolding walk
  walk_nil h = refl

  pub walk_step :
      (prev h : String) (x : CollaborationEvent) (es : List CollaborationEvent)
      → walk digest prev (x ∷ es) ≡ reached h
      → (links digest prev x ≡ true) × (walk digest x.event_hash es ≡ reached h)
  unfolding walk
  walk_step prev h x es w = elim (Bool-cases (links digest prev x)) [
    | inl l ↦ (l, rw l at w)
    | inr n ↦ cc (rw n at w)
  ]

  pub walk-append :
      (prev h : String) (es : List CollaborationEvent) (e : CollaborationEvent)
      → walk digest prev es ≡ reached h
      → links digest h e ≡ true
      → walk digest prev (es ++ e ∷ []) ≡ reached e.event_hash
  unfolding walk
  walk-append prev h [] e w l = cc (w, l)
  walk-append prev h (x ∷ es) e w l =
      let (first, rest) = walk_step prev h x es w in
      rw first (walk-append x.event_hash h es e rest l)

  pub walk-last_hash :
      (prev h : String) (es : List CollaborationEvent)
      → walk digest prev es ≡ reached h
      → h ≡ last_hash prev es
  unfolding walk
  walk-last_hash prev h [] w = cc (w)
  walk-last_hash prev h (x ∷ es) w = walk-last_hash x.event_hash h es (walk_step prev h x es w).1

-- What holds of the tables that no statement of the store breaks: a room has a head, a room without a head
-- has no events, and the rows of a room are linked up to its head, which counts them.
module _ (digest : Canonical → String) where
  pub record IsIntact (s : CollaborationStore) : Type 0 where
    pub headed :
        (room_id : String)
        → is_some (get_room room_id s) ≡ true
        → is_some (head_of room_id s.room_heads) ≡ true
    pub unheaded :
        (room_id : String) → head_of room_id s.room_heads ≡ none → room_rows room_id s ≡ []
    pub anchored :
        (room_id : String) (h : RoomHead)
        → head_of room_id s.room_heads ≡ some h
        → (walk digest genesis_hash (room_rows room_id s) ≡ reached h.event_hash)
          × (h.event_count ≡ length (room_rows room_id s))

  -- `h` is the end of the chain of room `k`.
  abbrev pub IsAnchor : CollaborationStore → String → RoomHead → Type 0
  IsAnchor s k h =
      (walk digest genesis_hash (room_rows k s) ≡ reached h.event_hash)
      × (h.event_count ≡ length (room_rows k s))

  add_head-IsIntact :
      (h : RoomHead) (s : CollaborationStore)
      → (head_of h.room_id s.room_heads ≡ none → IsAnchor s h.room_id h)
      → IsIntact s
      → IsIntact (record s { room_heads = add_head h s.room_heads })
  unfolding room_rows get_room
  add_head-IsIntact h s right i = record {
    headed = λ k e. ground (arith, i.headed k, find-add_head k h s.room_heads);
    unheaded = λ k e. i.unheaded k (ground (arith, find-add_head k h s.room_heads, e));
    anchored = λ k x e. elim (add_head_inv k h x s.room_heads e) [
      | inl old ↦ i.anchored k x old
      | inr (new, same, is_h) ↦
          subst (λ j. IsAnchor s j x) same (subst (IsAnchor s h.room_id) is_h (right (rw same new)))
    ];
  }

  -- The rooms, each of which has a head.
  rooms-IsIntact :
      (s : CollaborationStore) (rooms : List RoomRecord)
      → ((k : String)
          → is_some (Table.find room_key k rooms) ≡ true
          → is_some (head_of k s.room_heads) ≡ true)
      → IsIntact s
      → IsIntact (record s { rooms = rooms })
  unfolding get_room room_rows
  rooms-IsIntact s rooms headed i = record {
    headed = headed;
    unheaded = i.unheaded;
    anchored = i.anchored;
  }

  -- A room that is written is an old one, or the one that is created.
  pub create_room-IsIntact :
      (now_ns : ℕ) (room_id name purpose : String) (s s' : CollaborationStore) (r : RoomRecord)
      → create_room now_ns room_id name purpose s ≡ ok (r, s')
      → IsIntact s
      → IsIntact s'
  unfolding create_room get_room
  create_room-IsIntact now_ns room_id name purpose s s' r h i =
      subst IsIntact (read_back _ _ s' r h) (
        rooms-IsIntact (record s { room_heads = add_head (genesis room_id) s.room_heads }) _ headed
          (add_head-IsIntact (genesis room_id) s at_genesis i))
    where
      at_genesis : head_of room_id s.room_heads ≡ none → IsAnchor s room_id (genesis room_id)
      at_genesis new = rw (i.unheaded room_id new) (walk_nil digest genesis_hash, refl)

      headed :
          (k : String)
          → is_some (
              Table.find room_key k (
                put_room
                  (record { id = room_id; name = name; purpose = purpose; created_at_ns = now_ns })
                  s.rooms))
            ≡ true
          → is_some (head_of k (add_head (genesis room_id) s.room_heads)) ≡ true
      headed k e = ground (
        arith,
        find-put_room
            (record { id = room_id; name = name; purpose = purpose; created_at_ns = now_ns }) k
            s.rooms,
        find-add_head k (genesis room_id) s.room_heads,
        i.headed k,
        e,
      )

  pub add_member-IsIntact :
      (now_ns : ℕ) (room_id identity_id : String) (s s' : CollaborationStore)
      → add_member now_ns room_id identity_id s ≡ ok s'
      → IsIntact s
      → IsIntact s'
  unfolding add_member get_room room_rows
  add_member-IsIntact now_ns room_id identity_id s s' h i =
      elim (Bool-cases (is_member room_id identity_id s)) [
        | inl old ↦ let same : s ≡ s' = cc (rw old at h) in subst IsIntact same i
        | inr new ↦
            elim (Bool-cases
              (is_some (get_room room_id s) && is_some (get_identity identity_id s))) [
                | inr n ↦ cc (rw (new, n) at h)
                | inl both ↦
                    let same : with_member now_ns room_id identity_id s ≡ s' =
                      cc (rw (new, both) at h) in
                    subst IsIntact same
                      (record { headed = i.headed; unheaded = i.unheaded; anchored = i.anchored })
              ]
      ]

  adopt_heads-IsIntact :
      (s : CollaborationStore) (rooms : List RoomRecord) (heads : List RoomHead)
      → IsIntact (record s { room_heads = heads })
      → IsIntact (record s { room_heads = adopt_heads s rooms heads })
  unfolding adopt_heads room_rows
  adopt_heads-IsIntact s [] heads i = i
  adopt_heads-IsIntact s (r ∷ rooms) heads i =
      adopt_heads-IsIntact s rooms (add_head (present_head r.id s) heads) (
        add_head-IsIntact (present_head r.id s) (record s { room_heads = heads })
          (λ new. rw (i.unheaded r.id new) (walk_nil digest genesis_hash, refl)) i)

  pub init_db-IsIntact : (s : CollaborationStore) → IsIntact s → IsIntact (init_db s)
  unfolding init_db
  init_db-IsIntact s i = adopt_heads-IsIntact s s.rooms s.room_heads i
