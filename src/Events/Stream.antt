-- ===== src/Events/Stream.antt =====
-- The event stream of the API (stream_events in src/sovereign_ai/api/server.py): polls of the journal
-- from a cursor.
use achilles.Prelude.{ℕ, String, Option, List, [], ◌∷◌, ◌++◌}
use achilles.Events.{Event, EventStore, read_after}

-- cursor = int(event["seq"]), for each event of a page
unfoldable pub cursor_after : ℕ → List Event → ℕ
cursor_after cursor [] = cursor
cursor_after cursor (e ∷ events) = cursor_after e.seq events

abbrev pub page_limit : ℕ
page_limit = 200

abbrev pub page : ℕ → Option String → EventStore → List Event
page cursor stream store = read_after cursor page_limit stream store

-- The frames of a connection that follows the journal, and its cursor at the end. Each store is the
-- journal as one poll finds it. Heartbeats are no frames here, and the list ends where the connection does.
unfoldable pub frames : (stream : Option String) → List EventStore → (cursor : ℕ) → List Event × ℕ
unfolding cursor_after
frames stream [] cursor = ([], cursor)
frames stream (store ∷ stores) cursor =
    let events = page cursor stream store in
    let (rest, last) = frames stream stores (cursor_after cursor events) in (events ++ rest, last)

-- follow=false: one poll
unfoldable pub backlog : (stream : Option String) → EventStore → (cursor : ℕ) → List Event
unfolding frames
backlog stream store cursor = (frames stream (store ∷ []) cursor).0
