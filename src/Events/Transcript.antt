-- ===== src/Events/Transcript.antt =====
-- That a transcript (src/sovereign_ai/kernel/replay.py) is what was appended to the journal.
use achilles.Prelude.{
  ℕ, String, ◌≡◌, refl, ap, sym, ◌∙◌, inl, inr, Bool, ◌==◌, eq_iff, Option, none, List, [], ◌∷◌,
  ◌++◌, map, arith, All, Bool-cases,
}
use mathlib.Core.List.{append_assoc, append-nil, map-append}
use achilles.Json.{Fields}
use achilles.Table
use achilles.Table.{IsKeyed}
use achilles.Table.Laws
use achilles.Events.{Event, EventStore, key, append, in_stream, read_stream}
use achilles.Events.Ordered.{Ascends, sort_by-Ascends, select-Ascends}
use achilles.Events.Journal.{
  empty, Later, Later-Later, Later-IsJournal, append_new, new_event, grown,
}
use achilles.Events.Replay.{ReplayEntry, entry_of, stream_of, replay_run}

-- The arguments of one append.
pub record Draft : Type 0 where
  pub event_id : String
  pub now : ℕ
  pub stream_id : String
  pub event_type : String
  pub payload : Fields
  pub trust : String
  pub parent_event_id : Option String

abbrev pub draft_id : Draft → String
draft_id d = d.event_id

abbrev draft_of : Event → Draft
draft_of e = record {
  event_id = e.event_id;
  now = e.ts;
  stream_id = e.stream_id;
  event_type = e.event_type;
  payload = e.payload;
  trust = e.trust;
  parent_event_id = e.parent_event_id;
}

abbrev pub append_draft : Draft → EventStore → EventStore
append_draft d store =
    (append d.event_id d.now d.stream_id d.event_type d.payload d.trust d.parent_event_id store).1

-- The journal after the appends, in their order.
abbrev pub append_all : List Draft → EventStore → EventStore
append_all [] store = store
append_all (d ∷ drafts) store = append_all drafts (append_draft d store)

append_all-Later :
    (drafts : List Draft) (store : EventStore) → Later store (append_all drafts store)
append_all-Later [] store = Later.here
append_all-Later (d ∷ drafts) store =
    Later-Later
      (Later.next d.event_id d.now d.stream_id d.event_type d.payload d.trust d.parent_event_id
        Later.here)
      (append_all-Later drafts (append_draft d store))

abbrev AreNew : EventStore → List Draft → Type 0
AreNew store drafts = All (λ (d : Draft). Table.find key d.event_id store.rows ≡ none) drafts

-- The other drafts of a keyed list have other ids.
still_new :
    (rows : List Event) (e : Event) (drafts : List Draft)
    → Table.find draft_id e.event_id drafts ≡ none
    → All (λ (d : Draft). Table.find key d.event_id rows ≡ none) drafts
    → All (λ (d : Draft). Table.find key d.event_id (rows ++ e ∷ []) ≡ none) drafts
unfolding Table.find
still_new rows e [] h new = tt
still_new rows e (d ∷ drafts) h (new, more) = elim (Bool-cases (d.event_id == e.event_id)) [
  | inl same ↦ cc (rw same at h)
  | inr other ↦ (
    ground (
      arith,
      new,
      other,
      Laws.find-append key d.event_id rows e,
      eq_iff e.event_id d.event_id,
      eq_iff d.event_id e.event_id,
    ),
    still_new rows e drafts (rw other at h) more,
  )
]

-- Under ids that differ, every append is stored, and in order.
append_all-rows :
    (drafts : List Draft) (store : EventStore)
    → IsKeyed draft_id drafts
    → AreNew store drafts
    → map draft_of (append_all drafts store).rows ≡ map draft_of store.rows ++ drafts
append_all-rows [] store keyed new = sym (append-nil (map draft_of store.rows))
append_all-rows (d ∷ drafts) store (other, keyed) (new, more) =
    let e =
      new_event d.event_id d.now d.stream_id d.event_type d.payload d.trust d.parent_event_id
        store in
    let stored =
      append_new d.event_id d.now d.stream_id d.event_type d.payload d.trust d.parent_event_id store
        new in
    ap (λ st. map draft_of (append_all drafts st).rows) stored
    ∙ (append_all-rows drafts
          (grown d.event_id d.now d.stream_id d.event_type d.payload d.trust d.parent_event_id
            store)
          keyed (still_new store.rows e drafts other more)
        ∙ ap (λ l. l ++ drafts) (map-append draft_of store.rows (e ∷ []))
        ∙ append_assoc (map draft_of store.rows) (d ∷ []) drafts)

select-map {ℓ κ} :
    {A : Type ℓ} {B : Type κ} (f : A → B) (p : B → Bool) (xs : List A)
    → map f (Table.select (λ x. p (f x)) xs) ≡ Table.select p (map f xs)
unfolding Table.select
select-map f p [] = refl
select-map f p (x ∷ xs) = elim (Bool-cases (p (f x))) [
  | inl kept ↦ rw kept (ap (λ l. f x ∷ l) (select-map f p xs))
  | inr dropped ↦ rw dropped (select-map f p xs)
]

select_stream :
    (stream_id : String) (low : ℕ) (events : List Event)
    → Ascends low events
    → Table.select (in_stream stream_id 0) events
      ≡ Table.select (λ e. e.stream_id == stream_id) events
unfolding Table.select
select_stream stream_id low [] h = refl
select_stream stream_id low (e ∷ events) (lt, h) =
    ground (arith, lt, select_stream stream_id e.seq events h)

map-map {ℓ κ μ} :
    {A : Type ℓ} {B : Type κ} {C : Type μ} (f : A → B) (g : B → C) (xs : List A)
    → map g (map f xs) ≡ map (λ x. g (f x)) xs
map-map f g [] = refl
map-map f g (x ∷ xs) = ap (λ l. g (f x) ∷ l) (map-map f g xs)

all_new : (drafts : List Draft) → AreNew empty drafts
unfolding Table.find
all_new [] = tt
all_new (d ∷ drafts) = (refl, all_new drafts)

-- The stream of a journal that was written by appends is what was appended to it.
stream_written :
    (drafts : List Draft) (stream_id : String)
    → IsKeyed draft_id drafts
    → map draft_of (read_stream stream_id 0 (append_all drafts empty))
      ≡ Table.select (λ d. d.stream_id == stream_id) drafts
unfolding read_stream
stream_written drafts stream_id keyed =
    let journal = append_all drafts empty in
    let ascends = (Later-IsJournal (append_all-Later drafts empty)).0 in
    ap (map draft_of) (
      sort_by-Ascends 0 _ (select-Ascends (in_stream stream_id 0) 0 journal.rows ascends)
      ∙ select_stream stream_id 0 journal.rows ascends)
    ∙ select-map draft_of (λ d. d.stream_id == stream_id) journal.rows
    ∙ ap (Table.select (λ d. d.stream_id == stream_id))
        (append_all-rows drafts empty keyed (all_new drafts))

-- What an entry, and what an append, says happened.
abbrev pub Account : Type 0
Account = String × String × Fields

abbrev pub account_of : ReplayEntry → Account
account_of e = (e.event_type, e.trust, e.payload)

abbrev pub drafted : Draft → Account
drafted d = (d.event_type, d.trust, d.payload)

-- A journal is written by appends under ids that differ. The replay of a run then tells exactly what was
-- appended to the stream of the run, in that order, whatever was appended to others meanwhile.
pub replay_is_record :
    (drafts : List Draft) (run_id : String)
    → IsKeyed draft_id drafts
    → map account_of (replay_run (append_all drafts empty) run_id).entries
      ≡ map drafted (Table.select (λ d. d.stream_id == stream_of run_id) drafts)
unfolding replay_run
replay_is_record drafts run_id keyed =
    let events = read_stream (stream_of run_id) 0 (append_all drafts empty) in
    map-map entry_of account_of events
    ∙ sym (map-map draft_of drafted events)
    ∙ ap (map drafted) (stream_written drafts (stream_of run_id) keyed)
