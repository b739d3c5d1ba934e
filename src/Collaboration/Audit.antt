-- ===== src/Collaboration/Audit.antt =====
-- What an audit of the store may rely on (src/sovereign_ai/collaboration/store.py).
use achilles.Prelude.{
  String, ◌≡◌, refl, ap, ◌∙◌, true, Option, none, some, List, ◌++◌, length, is_some, All,
  All-append, All-map, arith, eq_refl,
}
use mathlib.Core.List.{append_assoc}
use achilles.Table
use achilles.Table.Queries
use achilles.Collaboration.Store.{
  RoomHead, Canonical, CollaborationEvent, CollaborationStore, empty, is_in_room, room_rows,
  last_hash, genesis_hash,
}
use achilles.Collaboration.Rooms.{get_room, is_member, verified, report, walk, verify_chain}
use achilles.Collaboration.Chain.{head_of, walk-last_hash, IsIntact}
use achilles.Collaboration.History.{Reach, Effect, unwritten-Effect, Step-Kept}

module _ (digest : Canonical → String) where
  empty-IsIntact : IsIntact digest empty
  unfolding get_room head_of room_rows Table.find
  empty-IsIntact = record {
    headed = λ k h. cc (h);
    unheaded = λ k h. refl;
    anchored = λ k x h. cc (h);
  }

  Reach-IsIntact :
      (s s' : CollaborationStore) → Reach digest s s' → IsIntact digest s → IsIntact digest s'
  Reach-IsIntact s s' Reach.here i = i
  Reach-IsIntact s s' (Reach.next {mid} r step) i =
      (Step-Kept digest mid s' step).0 (Reach-IsIntact s mid r i)

  Reach-Effect : (s s' : CollaborationStore) → Reach digest s s' → Effect digest s s'
  Reach-Effect s s' Reach.here = unwritten-Effect digest s s refl refl
  Reach-Effect s s' (Reach.next {mid} r step) =
      let first = Reach-Effect s mid r in
      let last = (Step-Kept digest mid s' step).1 in
      record {
        added = first.added ++ last.added;
        appended =
            last.appended
            ∙ ap (λ l. l ++ last.added) first.appended
            ∙ append_assoc s.events first.added last.added;
        by_members =
            All-append (λ e. is_member e.room_id e.actor_id s' ≡ true) first.added last.added
              (All-map (λ e. is_member e.room_id e.actor_id mid ≡ true)
                (λ e. is_member e.room_id e.actor_id s' ≡ true)
                (λ e. last.still_members e.room_id e.actor_id) first.added first.by_members)
              last.by_members;
        still_members = λ k j m. last.still_members k j (first.still_members k j m);
      }

  -- After any calls of the store, the chain of every room is verified: `verify_chain` counts all its
  -- events, and the head that it reports is the hash of the last one.
  pub chains_verify :
      (s : CollaborationStore) (room_id : String)
      → Reach digest empty s
      → is_some (get_room room_id s) ≡ true
      → verify_chain digest room_id s
        ≡ verified (length (room_rows room_id s)) (last_hash genesis_hash (room_rows room_id s))
  unfolding verify_chain head_of
  chains_verify s room_id r known = go (head_of room_id s.room_heads) refl
    where
      intact : IsIntact digest s
      intact = Reach-IsIntact empty s r empty-IsIntact

      go :
          (o : Option RoomHead)
          → head_of room_id s.room_heads ≡ o
          → report
              (length (room_rows room_id s))
              (head_of room_id s.room_heads)
              (walk digest genesis_hash (room_rows room_id s))
            ≡ verified (length (room_rows room_id s)) (last_hash genesis_hash (room_rows room_id s))
      go none e =
          let there : is_some (head_of room_id s.room_heads) ≡ true = intact.headed room_id known in
          cc (rw e at there)
      go (some h) e =
          let (whole, counted) = intact.anchored room_id h e in
          let at_end : h.event_hash ≡ last_hash genesis_hash (room_rows room_id s) =
            walk-last_hash digest genesis_hash h.event_hash (room_rows room_id s) whole in
          rw (whole, e, eq_refl h.event_hash) (ground (arith, counted, at_end))

  -- Calls of the store only append: the events of a room stay in place, and a member stays one.
  pub history_is_append_only :
      (s s' : CollaborationStore) (room_id : String)
      → Reach digest s s'
      → ((later : List CollaborationEvent) × (room_rows room_id s' ≡ room_rows room_id s ++ later))
        × ((identity_id : String)
            → is_member room_id identity_id s ≡ true
            → is_member room_id identity_id s' ≡ true)
  unfolding room_rows
  history_is_append_only s s' room_id r =
      let effect = Reach-Effect s s' r in
      (
        (
          Table.select (is_in_room room_id) effect.added,
          ap (Table.select (is_in_room room_id)) effect.appended
              ∙ Queries.select-append_all (is_in_room room_id) s.events effect.added,
        ),
        effect.still_members room_id,
      )

  -- Whoever wrote an event of a room is a member of it.
  pub authors_are_members :
      (s : CollaborationStore)
      → Reach digest empty s
      → All (λ e. is_member e.room_id e.actor_id s ≡ true) s.events
  unfolding is_member
  authors_are_members s r =
      let effect = Reach-Effect empty s r in rw effect.appended effect.by_members
