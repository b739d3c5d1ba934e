-- ===== src/Events/Cursor.antt =====
-- A reader of the journal that goes on from its cursor (read_after in src/sovereign_ai/kernel/events.py,
-- stream_events in src/sovereign_ai/api/server.py).
use achilles.Prelude.{
  ℕ, zero, suc, ◌*◌, ◌≤◌, String, ◌≡◌, refl, ap, sym, ◌∙◌, inl, inr, ◌⊎◌, Option, List, [], ◌∷◌,
  ◌++◌, take, drop, length, arith, All, Bool-cases, leb, leb→le, take-append-drop, length-append,
  length-take, length-take_all,
}
use mathlib.Core.List.{append_assoc, append-nil}
use achilles.Table
use achilles.Table.Queries
use achilles.Events.{Event, EventStore, is_after, read_after}
use achilles.Events.Stream.{cursor_after, page_limit, page, frames, backlog}
use achilles.Events.Ordered.{
  Ascends, sort_by-Ascends, select-Ascends, cursor_after-le, beyond, select-beyond,
}
use achilles.Events.Journal.{empty, Later, IsJournal, Later-IsJournal, Later-rows}

-- What a reader at the cursor has yet to see.
abbrev pub remaining : ℕ → Option String → EventStore → List Event
remaining cursor stream store = Table.select (is_after cursor stream) store.rows

after-Ascends :
    (cursor low : ℕ) (stream : Option String) (events : List Event)
    → Ascends low events
    → Ascends cursor (Table.select (is_after cursor stream) events)
unfolding Table.select
after-Ascends cursor low stream [] h = tt
after-Ascends cursor low stream (e ∷ events) (lt, h) =
    elim (Bool-cases (is_after cursor stream e)) [
      | inl kept ↦
          rw kept (ground (arith, kept), select-Ascends (is_after cursor stream) e.seq events h)
      | inr dropped ↦ rw dropped (after-Ascends cursor e.seq stream events h)
    ]

-- Going on from a later cursor.
select_later :
    (cursor later : ℕ) (stream : Option String) (events : List Event)
    → cursor ≤ later
    → Table.select (beyond later) (Table.select (is_after cursor stream) events)
      ≡ Table.select (is_after later stream) events
unfolding Table.select
select_later cursor later stream [] le = refl
select_later cursor later stream (e ∷ events) le =
    ground (arith, le, select_later cursor later stream events le)

read_after-remaining :
    (cursor limit : ℕ) (stream : Option String) (store : EventStore)
    → IsJournal store
    → read_after cursor limit stream store ≡ take limit (remaining cursor stream store)
unfolding read_after
read_after-remaining cursor limit stream store (ascends, _) = ap (take limit) (
    sort_by-Ascends cursor (remaining cursor stream store)
      (after-Ascends cursor 0 stream store.rows ascends))

-- A page, and what is beyond it in any later journal, are together what was beyond the cursor: the
-- next page misses no event and repeats none.
page_gap_free :
    (cursor limit : ℕ) (stream : Option String) {store store' : EventStore}
    → Later empty store
    → Later empty store'
    → Later store store'
    → read_after cursor limit stream store
        ++ remaining (cursor_after cursor (read_after cursor limit stream store)) stream store'
      ≡ remaining cursor stream store'
page_gap_free cursor limit stream {store} {store'} reach reach' later =
    let (more, at_more) = Later-rows later in
    let now = remaining cursor stream store in
    let first = take limit now in
    let tail = drop limit now ++ Table.select (is_after cursor stream) more in
    let split : first ++ tail ≡ remaining cursor stream store' =
      sym (append_assoc first (drop limit now) (Table.select (is_after cursor stream) more))
      ∙ ap (λ l. l ++ Table.select (is_after cursor stream) more) (take-append-drop limit now)
      ∙ sym (Queries.select-append_all (is_after cursor stream) store.rows more)
      ∙ ap (Table.select (is_after cursor stream)) (sym at_more) in
    let ascends : Ascends cursor (first ++ tail) =
      rw split (after-Ascends cursor 0 stream store'.rows (Later-IsJournal reach').0) in
    let beyond_first : remaining (cursor_after cursor first) stream store' ≡ tail =
      sym (
        select_later cursor (cursor_after cursor first) stream store'.rows
          (cursor_after-le cursor first tail ascends))
      ∙ ap (Table.select (beyond (cursor_after cursor first))) (sym split)
      ∙ select-beyond cursor first tail ascends in
    rw (read_after-remaining cursor limit stream store (Later-IsJournal reach), beyond_first) split

-- In a journal that only its appends write, the frames that a connection has sent, and what is beyond its cursor then, are together what was
-- beyond the cursor that it came with: it misses no event and repeats none, whatever was appended
-- between its polls.
pub frames_gap_free :
    (stream : Option String) (stores : List EventStore) (cursor : ℕ) {store : EventStore}
    → Later empty store
    → All (λ s. Later empty s × Later s store) stores
    → (frames stream stores cursor).0 ++ remaining (frames stream stores cursor).1 stream store
      ≡ remaining cursor stream store
unfolding frames
frames_gap_free stream [] cursor reach h = refl
frames_gap_free stream (s ∷ stores) cursor {store} reach ((reach_s, later), h) =
    let events = page cursor stream s in
    let next = cursor_after cursor events in
    append_assoc events (frames stream stores next).0
      (remaining (frames stream stores next).1 stream store)
    ∙ ap (λ l. events ++ l) (frames_gap_free stream stores next reach h)
    ∙ page_gap_free cursor page_limit stream reach_s reach later

abbrev pub polls : ℕ → EventStore → List EventStore
polls zero store = []
polls (suc n) store = store ∷ polls n store

no_length {ℓ} : {A : Type ℓ} (xs : List A) → length xs ≤ 0 → [] ≡ xs
no_length [] h = refl
no_length (x ∷ xs) h = absurd (omega (arith, h))

-- A page has all that is beyond the cursor, or is full.
page_is_full :
    (cursor : ℕ) (stream : Option String) {store : EventStore}
    → Later empty store
    → (length (page cursor stream store) ≡ length (remaining cursor stream store))
      ⊎ (length (page cursor stream store) ≡ page_limit)
page_is_full cursor stream {store} reach =
    rw (read_after-remaining cursor page_limit stream store (Later-IsJournal reach))
      (elim (Bool-cases (leb page_limit (length (remaining cursor stream store)))) [
        | inl many ↦ inr (length-take page_limit (remaining cursor stream store) (leb→le _ _ many))
        | inr few ↦
            inl (length-take_all page_limit (remaining cursor stream store) (ground (arith, few)))
      ])

-- A journal that was written by appends, and grows no more, is sent completely after one poll for each 200 events beyond the cursor.
pub frames_catch_up :
    (stream : Option String) (n cursor : ℕ) {store : EventStore}
    → Later empty store
    → length (remaining cursor stream store) ≤ page_limit * n
    → (frames stream (polls n store) cursor).0 ≡ remaining cursor stream store
unfolding frames
frames_catch_up stream zero cursor {store} reach h = no_length (remaining cursor stream store) h
frames_catch_up stream (suc n) cursor {store} reach h =
    let events = page cursor stream store in
    let next = cursor_after cursor events in
    let whole = page_gap_free cursor page_limit stream reach reach Later.here in
    let sum : length (events ++ remaining next stream store)
        ≡ length (remaining cursor stream store) =
      ap length whole in
    let smaller : length (remaining next stream store) ≤ page_limit * n =
      elim (page_is_full cursor stream reach) [
        | inl all ↦ omega (arith, sum, length-append events (remaining next stream store), all)
        | inr full ↦ omega (arith, sum, length-append events (remaining next stream store), full, h)
      ] in
    ap (λ l. events ++ l) (frames_catch_up stream n next reach smaller) ∙ whole

-- Without `follow`, a connection sends one page of the backlog.
pub backlog-take :
    (stream : Option String) (cursor : ℕ) {store : EventStore}
    → Later empty store
    → backlog stream store cursor ≡ take page_limit (remaining cursor stream store)
unfolding backlog frames
backlog-take stream cursor {store} reach =
    append-nil (page cursor stream store)
    ∙ read_after-remaining cursor page_limit stream store (Later-IsJournal reach)
