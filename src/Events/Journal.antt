-- ===== src/Events/Journal.antt =====
-- The states of the journal that appends lead to (src/sovereign_ai/kernel/events.py).
use achilles.Prelude.{
  ℕ, ◌+◌, ◌≤◌, ◌<◌, String, ◌≡◌, refl, ap, sym, ◌∙◌, ◌⊎◌, inl, inr, Option, none, List, [], ◌∷◌,
  ◌++◌, arith, All, All-map, All-append,
}
use mathlib.Core.List.{append_assoc, append-nil}
use achilles.Json.{Fields}
use achilles.Table
use achilles.Table.Found
use achilles.Events.{Event, EventStore, key, append}
use achilles.Events.Ordered.{Ascends}

abbrev pub empty : EventStore
empty = record { rows = []; last_seq = 0 }

-- The journal after some more appends.
pub data Later (store : EventStore) : EventStore → Type 0 where
  here : Later store store
  next :
      {mid : EventStore} (event_id : String) (now : ℕ) (stream_id event_type : String)
      (payload : Fields) (trust : String) (parent_event_id : Option String)
      → Later store mid
      → Later store (append event_id now stream_id event_type payload trust parent_event_id mid).1

abbrev pub IsJournal : EventStore → Type 0
IsJournal store = Ascends 0 store.rows × All (λ (e : Event). e.seq ≤ store.last_seq) store.rows

module _ (event_id : String) (now : ℕ) (stream_id event_type : String) (payload : Fields)
    (trust : String) (parent_event_id : Option String) (store : EventStore) where
  abbrev pub new_event : Event
  new_event = record {
    seq = store.last_seq + 1;
    event_id = event_id;
    stream_id = stream_id;
    event_type = event_type;
    ts = now;
    payload = payload;
    trust = trust;
    parent_event_id = parent_event_id;
  }

  abbrev pub grown : EventStore
  grown = record { rows = store.rows ++ new_event ∷ []; last_seq = store.last_seq + 1 }

  abbrev pub appended : EventStore
  appended = (append event_id now stream_id event_type payload trust parent_event_id store).1

  -- Under a new id the event is stored at the end.
  pub append_new : Table.find key event_id store.rows ≡ none → appended ≡ grown
  unfolding append
  append_new new = rw (appended, Found.insert_new key new_event store.rows new) refl

  pub append-cases : (appended ≡ store) ⊎ (appended ≡ grown)
  unfolding append
  append-cases = elim (Found.insert-cases key new_event store.rows) [
    | inl (e, refused) ↦ inl (rw (appended, refused) refl)
    | inr (new, _) ↦ inr (append_new new)
  ]

Ascends-append :
    (low n : ℕ) (events : List Event) (e : Event)
    → Ascends low events
    → All (λ (x : Event). x.seq ≤ n) events
    → low ≤ n
    → n < e.seq
    → Ascends low (events ++ e ∷ [])
Ascends-append low n [] e h a le lt = (omega (arith, le, lt), tt)
Ascends-append low n (x ∷ events) e (l, h) (x_le, a) le lt =
    (l, Ascends-append x.seq n events e h a x_le lt)

pub append-IsJournal :
    (event_id : String) (now : ℕ) (stream_id event_type : String) (payload : Fields)
    (trust : String) (parent_event_id : Option String) (store : EventStore)
    → IsJournal store
    → IsJournal (append event_id now stream_id event_type payload trust parent_event_id store).1
append-IsJournal event_id now stream_id event_type payload trust parent_event_id store
      (ascends, bound) =
    elim (append-cases event_id now stream_id event_type payload trust parent_event_id store) [
      | inl same ↦ rw same (ascends, bound)
      | inr more ↦
          let e = new_event event_id now stream_id event_type payload trust parent_event_id store in
          rw more (
            Ascends-append 0 store.last_seq store.rows e ascends bound (omega arith) (omega arith),
            All-append (λ (x : Event). x.seq ≤ store.last_seq + 1) store.rows (e ∷ [])
                (All-map (λ (x : Event). x.seq ≤ store.last_seq)
                  (λ (x : Event). x.seq ≤ store.last_seq + 1) (λ x le. omega (arith, le)) store.rows
                  bound)
                (omega arith, tt),
          )
    ]

pub Later-IsJournal : {store : EventStore} → Later empty store → IsJournal store
Later-IsJournal Later.here = (tt, tt)
Later-IsJournal (Later.next {mid} event_id now stream_id event_type payload trust parent later) =
    append-IsJournal event_id now stream_id event_type payload trust parent mid
      (Later-IsJournal later)

-- Appends only add to the end.
pub Later-rows :
    {store store' : EventStore}
    → Later store store'
    → (more : List Event) × (store'.rows ≡ store.rows ++ more)
Later-rows {store} Later.here = ([], sym (append-nil store.rows))
Later-rows {store} (Later.next {mid} event_id now stream_id event_type payload trust parent later) =
    let (more, at_more) = Later-rows later in
    elim (append-cases event_id now stream_id event_type payload trust parent mid) [
      | inl same ↦ (more, rw same at_more)
      | inr one ↦
          let e = new_event event_id now stream_id event_type payload trust parent mid in
          (
            more ++ e ∷ [],
            rw one (ap (λ l. l ++ e ∷ []) at_more ∙ append_assoc store.rows more (e ∷ [])),
          )
    ]

pub Later-Later : {a b c : EventStore} → Later a b → Later b c → Later a c
Later-Later ab Later.here = ab
Later-Later ab (Later.next event_id now stream_id event_type payload trust parent bc) =
    Later.next event_id now stream_id event_type payload trust parent (Later-Later ab bc)
