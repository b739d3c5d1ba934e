-- ===== src/Events/Ordered.antt =====
-- Lists of events by ascending numbers, and what SELECT and ORDER BY do to them
-- (src/sovereign_ai/kernel/events.py).
use achilles.Prelude.{
  ℕ, ◌≤◌, ◌<◌, ◌≡◌, refl, Bool, true, List, [], ◌∷◌, ◌++◌, arith, Bool-cases, inl, inr, ltb, le→leb,
}
use achilles.Prelude.Order.{insertion_sort, sort_by}
use achilles.Table
use achilles.Events.{Event}
use achilles.Events.Stream.{cursor_after}

-- Each number is above `low` and above those before it.
abbrev pub Ascends : ℕ → List Event → Type 0
Ascends low [] = Unit
Ascends low (e ∷ events) = (low < e.seq) × Ascends e.seq events

pub Ascends-below :
    (low high : ℕ) (events : List Event) → low ≤ high → Ascends high events → Ascends low events
Ascends-below low high [] le h = tt
Ascends-below low high (e ∷ events) le (lt, h) = (omega (arith, le, lt), h)

-- An ascending list is sorted.
pub sort_by-Ascends :
    (low : ℕ) (events : List Event) → Ascends low events → sort_by (λ e. e.seq) events ≡ events
unfolding insertion_sort
sort_by-Ascends low [] h = refl
sort_by-Ascends low (e ∷ []) h = refl
sort_by-Ascends low (e ∷ f ∷ events) (_, h) =
    rw (sort_by-Ascends e.seq (f ∷ events) h, le→leb e.seq f.seq (omega (arith, h.0))) refl

pub select-Ascends :
    (p : Event → Bool) (low : ℕ) (events : List Event)
    → Ascends low events
    → Ascends low (Table.select p events)
unfolding Table.select
select-Ascends p low [] h = tt
select-Ascends p low (e ∷ events) (lt, h) = elim (Bool-cases (p e)) [
  | inl kept ↦ rw kept (lt, select-Ascends p e.seq events h)
  | inr dropped ↦
      rw dropped (Ascends-below low e.seq _ (omega (arith, lt)) (select-Ascends p e.seq events h))
]

-- Past the last number of the first part, an ascending list goes on with its second part.
pub append-Ascends :
    (low : ℕ) (first more : List Event)
    → Ascends low (first ++ more)
    → Ascends (cursor_after low first) more
unfolding cursor_after
append-Ascends low [] more h = h
append-Ascends low (e ∷ first) more (_, h) = append-Ascends e.seq first more h

pub cursor_after-le :
    (low : ℕ) (first more : List Event) → Ascends low (first ++ more) → low ≤ cursor_after low first
unfolding cursor_after
cursor_after-le low [] more h = omega arith
cursor_after-le low (e ∷ first) more (lt, h) = omega (arith, lt, cursor_after-le e.seq first more h)

abbrev pub beyond : ℕ → Event → Bool
beyond n e = ltb n e.seq

pub select-beyond_all :
    (low : ℕ) (events : List Event) (n : ℕ)
    → n ≤ low
    → Ascends low events
    → Table.select (beyond n) events ≡ events
unfolding Table.select
select-beyond_all low [] n le h = refl
select-beyond_all low (e ∷ events) n le (lt, h) =
    ground (arith, le, lt, select-beyond_all e.seq events n (omega (arith, le, lt)) h)

-- What is beyond the first part of an ascending list is its second part.
pub select-beyond :
    (low : ℕ) (first more : List Event)
    → Ascends low (first ++ more)
    → Table.select (beyond (cursor_after low first)) (first ++ more) ≡ more
unfolding Table.select cursor_after
select-beyond low [] more h = select-beyond_all low more low (omega arith) h
select-beyond low (e ∷ first) more (lt, h) =
    ground (arith, cursor_after-le e.seq first more h, select-beyond e.seq first more h)

-- A narrower condition after a wider one.
pub select-select :
    (p q : Event → Bool)
    → ((e : Event) → q e ≡ true → p e ≡ true)
    → (events : List Event) → Table.select q (Table.select p events) ≡ Table.select q events
unfolding Table.select
select-select p q wider [] = refl
select-select p q wider (e ∷ events) = ground (arith, wider e, select-select p q wider events)
