-- ===== src/Events.antt =====
-- EventStore (src/sovereign_ai/kernel/events.py): the append-only event journal.
pub mod Stream
pub mod Ordered
pub mod Journal
pub mod Cursor
pub mod Replay
pub mod Transcript
mod Tests
use Prim.Native.Char.{Char, code}
use achilles.Prelude.{
  ℕ, suc, concat, ◌+◌, ◌-◌, String, Bool, true, false, ◌&&◌, ◌||◌, ◌==◌, ltb, leb, nat_eq, Option,
  none, some, List, [], ◌∷◌, ◌++◌, take, if◌then◌else◌, Result, ok, raised, integrity_error,
}
use achilles.Prelude.Order.{sort_by}
use achilles.Json.{Fields}
use achilles.Collaboration.Text.{is_empty}
use achilles.Table

pub record Event : Type 0 where
  pub seq : ℕ
  pub event_id : String
  pub stream_id : String
  pub event_type : String
  pub ts : ℕ
  pub payload : Fields
  pub trust : String
  pub parent_event_id : Option String

-- The table, and the last number that AUTOINCREMENT gave.
pub record EventStore : Type 0 where
  pub rows : List Event
  pub last_seq : ℕ

abbrev pub key : Event → String
key e = e.event_id

-- INSERT under UNIQUE(event_id)
unfoldable pub append :
    (event_id : String) (now : ℕ) (stream_id event_type : String) (payload : Fields)
    (trust : String) (parent_event_id : Option String)
    → EventStore
    → Result String × EventStore
append event_id now stream_id event_type payload trust parent_event_id store =
    elim (Table.insert key
      (record {
        seq = store.last_seq + 1;
        event_id = event_id;
        stream_id = stream_id;
        event_type = event_type;
        ts = now;
        payload = payload;
        trust = trust;
        parent_event_id = parent_event_id;
      })
      store.rows) [
        | raised e ↦ (raised e, store)
        | ok rows ↦ (ok event_id, record { rows = rows; last_seq = store.last_seq + 1 })
      ]

abbrev pub upper_code : ℕ → ℕ
upper_code c = if leb b'a' c && leb c b'z' then c - 32 else c

abbrev pub same_letter : Char → Char → Bool
same_letter a b = nat_eq (upper_code (code a)) (upper_code (code b))

-- Whether some rest of the text has the property.
unfoldable pub some_rest : (String → Bool) → String → Bool
some_rest p String.[] = p ""
some_rest p (String.◌∷◌ c s) = p (String.◌∷◌ c s) || some_rest p s

abbrev pub one_char : (Char → Bool) → (String → Bool) → String → Bool
one_char p rest String.[] = false
one_char p rest (String.◌∷◌ c s) = p c && rest s

-- s LIKE pattern: `%` is any text, `_` is any one character, and the case of a letter does not matter.
unfoldable pub like : (pattern : String) → String → Bool
unfolding some_rest
like String.[] s = is_empty s
like (String.◌∷◌ p pattern) s =
    let rest = like pattern in
    if nat_eq (code p) b'%'
    then some_rest rest s
    else if nat_eq (code p) b'_'
    then one_char (λ c. true) rest s
    else one_char (same_letter p) rest s

-- AND stream_id LIKE ?
abbrev pub in_prefix : Option String → Event → Bool
in_prefix none e = true
in_prefix (some prefix) e = is_empty prefix || like (concat prefix "%") e.stream_id

abbrev pub is_after : ℕ → Option String → Event → Bool
is_after after_seq stream_prefix e = ltb after_seq e.seq && in_prefix stream_prefix e

unfoldable pub read_after :
    (after_seq limit : ℕ) (stream_prefix : Option String) → EventStore → List Event
unfolding like
read_after after_seq limit stream_prefix store =
    take limit (sort_by (λ e. e.seq) (Table.select (is_after after_seq stream_prefix) store.rows))

abbrev pub in_stream : String → ℕ → Event → Bool
in_stream stream_id after_seq e = e.stream_id == stream_id && ltb after_seq e.seq

unfoldable pub read_stream : (stream_id : String) (after_seq : ℕ) → EventStore → List Event
read_stream stream_id after_seq store =
    sort_by (λ e. e.seq) (Table.select (in_stream stream_id after_seq) store.rows)
