-- ===== src/Collaboration/Tamper.antt =====
-- What the head of a room pins down (src/sovereign_ai/collaboration/store.py): whoever changes the rows
-- of a room and keeps its head has put an event in place of one with the same hash.
use achilles.Prelude.{
  ℕ, String, ◌≡◌, ◌≢◌, refl, sym, ap, ◌∙◌, true, ◌&&◌, ◌==◌, nat_eq, Option, none, some, List, [],
  ◌∷◌, ◌++◌, ◌⊎◌, inl, inr, map, length, arith, eq_iff, Bool-cases,
}
use native.Mathlib.Decide.{ℕ_discrete}
use achilles.Json.{Json}
use achilles.Table
use achilles.Collaboration.Store.{
  RoomHead, Canonical, CollaborationEvent, CollaborationStore, head_key, room_rows, genesis_hash,
}
use achilles.Collaboration.Rooms.{
  Walk, reached, stopped_at, verified, report, links, walk, verify_chain,
}
use achilles.Collaboration.Chain.{walk_step}

String-discrete : Discrete String
String-discrete s t = elim (Bool-cases (s == t)) [
  | inl e ↦ yes ((eq_iff s t).0 e)
  | inr n ↦ no (λ e. cc (n, (eq_iff s t).1 e))
]

Json-discrete : Discrete Json
Json-discrete = hlevel (String-discrete, ℕ_discrete)

Canonical-discrete : Discrete Canonical
Canonical-discrete = hlevel (String-discrete, Json-discrete, ℕ_discrete)

-- What a verified report says of the walk and of the number of rows.
verified_inv :
    (count n : ℕ) (head : String) (anchor : Option RoomHead) (w : Walk)
    → report count anchor w ≡ verified n head
    → (count ≡ n) × (w ≡ reached head)
verified_inv count n head anchor (stopped_at x) h = cc
verified_inv count n head none (reached y) h = cc
verified_inv count n head (some a) (reached y) h =
    elim (Bool-cases (a.event_hash == y && nat_eq a.event_count count)) [
      | inl e ↦ ground (arith, rw e at h)
      | inr e ↦ cc (rw e at h)
    ]

module _ (digest : Canonical → String) where
  abbrev pub contents : List CollaborationEvent → List Canonical
  contents = map (λ e. e.canonical)

  -- At one place of the two histories stand events with different contents and one hash, and behind
  -- them the histories agree.
  pub record Forgery (es es' : List CollaborationEvent) : Type 0 where
    pub before : List CollaborationEvent
    pub before' : List CollaborationEvent
    pub after : List CollaborationEvent
    pub after' : List CollaborationEvent
    pub e : CollaborationEvent
    pub e' : CollaborationEvent
    pub split : es ≡ before ++ e ∷ after
    pub split' : es' ≡ before' ++ e' ∷ after'
    pub same_place : length before ≡ length before'
    pub differ : e.canonical ≢ e'.canonical
    pub one_hash : digest e.canonical ≡ digest e'.canonical
    pub agree : contents after ≡ contents after'

  Forgery-skip :
      (x x' : CollaborationEvent) (es es' : List CollaborationEvent)
      → Forgery es es'
      → Forgery (x ∷ es) (x' ∷ es')
  Forgery-skip x x' es es' c = record {
    before = x ∷ c.before;
    before' = x' ∷ c.before';
    after = c.after;
    after' = c.after';
    e = c.e;
    e' = c.e';
    split = ap (λ l. x ∷ l) c.split;
    split' = ap (λ l. x' ∷ l) c.split';
    same_place = omega (arith, c.same_place);
    differ = c.differ;
    one_hash = c.one_hash;
    agree = c.agree;
  }

  -- A row that is linked has the hash of what it stores, and its previous hash.
  links_inv :
      (prev : String) (e : CollaborationEvent)
      → links digest prev e ≡ true
      → (e.canonical.previous_hash ≡ prev) × (e.event_hash ≡ digest e.canonical)
  links_inv prev e h =
      let at_prev : e.canonical.previous_hash ≡ prev =
        ground (arith, eq_iff e.canonical.previous_hash prev, h) in
      let hashed : e.event_hash ≡ digest (record (e.canonical) { previous_hash = prev }) =
        ground (
          arith,
          eq_iff e.event_hash (digest (record (e.canonical) { previous_hash = prev })),
          h,
        ) in
      (
        at_prev,
        hashed ∙ ap (λ p. digest (record (e.canonical) { previous_hash = p })) (sym at_prev),
      )

  -- Two chains of one length with one end have one beginning and the same contents.
  walks_meet :
      (prev prev' head : String) (es es' : List CollaborationEvent)
      → length es ≡ length es'
      → walk digest prev es ≡ reached head
      → walk digest prev' es' ≡ reached head
      → ((prev ≡ prev') × (contents es ≡ contents es')) ⊎ Forgery es es'
  unfolding walk
  walks_meet prev prev' head [] [] n w w' = inl (cc (w, w'), refl)
  walks_meet prev prev' head [] (x' ∷ es') n w w' = absurd (omega (arith, n))
  walks_meet prev prev' head (x ∷ es) [] n w w' = absurd (omega (arith, n))
  walks_meet prev prev' head (x ∷ es) (x' ∷ es') n w w' =
      go (walks_meet x.event_hash x'.event_hash head es es' (omega (arith, n)) after.1 after'.1)
    where
      after : (links digest prev x ≡ true) × (walk digest x.event_hash es ≡ reached head)
      after = walk_step digest prev head x es w

      after' : (links digest prev' x' ≡ true) × (walk digest x'.event_hash es' ≡ reached head)
      after' = walk_step digest prev' head x' es' w'

      go :
          ((x.event_hash ≡ x'.event_hash) × (contents es ≡ contents es')) ⊎ Forgery es es'
          → ((prev ≡ prev') × (contents (x ∷ es) ≡ contents (x' ∷ es')))
            ⊎ Forgery (x ∷ es) (x' ∷ es')
      go (inr c) = inr (Forgery-skip x x' es es' c)
      go (inl (same, rest)) =
          let (at_prev, hashed) = links_inv prev x after.0 in
          let (at_prev', hashed') = links_inv prev' x' after'.0 in
          elim (Canonical-discrete x.canonical x'.canonical) [
            | yes e ↦
                inl
                  (sym at_prev ∙ ap (λ (c : Canonical). c.previous_hash) e ∙ at_prev', cc (e, rest))
            | no apart ↦ inr (record {
              before = [];
              before' = [];
              after = es;
              after' = es';
              e = x;
              e' = x';
              split = refl;
              split' = refl;
              same_place = refl;
              differ = apart;
              one_hash = sym hashed ∙ same ∙ hashed';
              agree = rest;
            })
          ]

  -- Where two states of the store are verified with the same count and the same head for a room, the
  -- room has the same contents in both, in the same order, or the two histories are a collision of
  -- the hash: at one place they have events with different contents and one hash, and the same
  -- contents behind it.
  pub tampering_needs_collision :
      (s s' : CollaborationStore) (room_id : String) (n : ℕ) (head : String)
      → verify_chain digest room_id s ≡ verified n head
      → verify_chain digest room_id s' ≡ verified n head
      → (contents (room_rows room_id s) ≡ contents (room_rows room_id s'))
        ⊎ Forgery (room_rows room_id s) (room_rows room_id s')
  unfolding verify_chain room_rows
  tampering_needs_collision s s' room_id n head h h' =
      let (count, w) =
        verified_inv (length (room_rows room_id s)) n head
          (Table.find head_key room_id s.room_heads)
          (walk digest genesis_hash (room_rows room_id s)) h in
      let (count', w') =
        verified_inv (length (room_rows room_id s')) n head
          (Table.find head_key room_id s'.room_heads)
          (walk digest genesis_hash (room_rows room_id s')) h' in
      go (
        walks_meet genesis_hash genesis_hash head (room_rows room_id s) (room_rows room_id s')
          (count ∙ sym count') w w')
    where
      go :
          ((genesis_hash ≡ genesis_hash)
              × (contents (room_rows room_id s) ≡ contents (room_rows room_id s')))
            ⊎ Forgery (room_rows room_id s) (room_rows room_id s')
          → (contents (room_rows room_id s) ≡ contents (room_rows room_id s'))
            ⊎ Forgery (room_rows room_id s) (room_rows room_id s')
      go (inl (_, same)) = inl same
      go (inr c) = inr c
