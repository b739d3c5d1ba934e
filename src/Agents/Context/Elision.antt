-- ===== src/Agents/Context/Elision.antt =====
-- What the compaction of a history leaves out, and says of it (src/sovereign_ai/agents/context.py).
use achilles.Prelude.{
  ℕ, suc, ◌+◌, ◌-◌, ◌≤◌, ◌<◌, String, ◌≡◌, refl, sym, ap, ◌∙◌, ltb, leb, Option, none, some, List,
  [], ◌∷◌, ◌++◌, map, length, take, drop, length-append, length-drop, length-take, length-take_all,
  leb→le, ltb→lt, drop-drop, sum_of, take-append-drop, arith, Bool-cases, inl, inr, if◌then◌else◌,
}
use achilles.Prelude.Order.{sum_of-insertion_sort}
use Prim.Native.String.{compare}
use package.text.Mathlib.Text.{is_le}
use achilles.Json.{Json}
use achilles.Agents.Context.{
  ContextBudget, Turn, Note, last_turns, tally, counter, elided_of, observation_digest, note_of,
  compacted, compact_history,
}

-- The number of elided calls that a note counts.
abbrev pub total : List (String × ℕ) → ℕ
total counts = sum_of (λ (entry : String × ℕ). entry.1) counts

total-tally :
    (k : String) (counts : List (String × ℕ)) → total (tally k counts) ≡ suc (total counts)
unfolding tally
total-tally k [] = omega arith
total-tally k ((j, n) ∷ counts) = ground (arith, total-tally k counts)

total-counter :
    (counts : List (String × ℕ)) (ks : List String)
    → total (counter counts ks) ≡ total counts + length ks
unfolding counter
total-counter counts [] = omega arith
total-counter counts (k ∷ ks) =
    omega (arith, total-counter (tally k counts) ks, total-tally k counts)

length-map {ℓ κ} :
    {A : Type ℓ} {B : Type κ} (f : A → B) (xs : List A) → length (map f xs) ≡ length xs
length-map f [] = refl
length-map f (x ∷ xs) = ap suc (length-map f xs)

module _ (history : List Turn) (budget : ContextBudget) where
  abbrev pub leading : List Turn
  leading = take budget.keep_leading_turns history

  abbrev pub recent : List Turn
  recent = last_turns budget.keep_recent_turns history

  abbrev pub elided : List Turn
  elided = elided_of budget history

  length-recent :
      budget.keep_recent_turns ≤ length history → length recent ≡ budget.keep_recent_turns
  length-recent h = omega (arith, length-drop (length history - budget.keep_recent_turns) history)

  -- A history with more turns than the budget keeps is its leading turns, those between, and its
  -- recent turns.
  split_history :
      budget.keep_recent_turns + budget.keep_leading_turns ≤ length history
      → leading ++ (elided ++ recent) ≡ history
  split_history h =
      let middle = length history - budget.keep_recent_turns - budget.keep_leading_turns in
      let rest = drop budget.keep_leading_turns history in
      let at_leading : length leading ≡ budget.keep_leading_turns =
        length-take budget.keep_leading_turns history (omega (arith, h)) in
      let at_recent : length recent ≡ budget.keep_recent_turns = length-recent (omega (arith, h)) in
      let ends : drop middle rest ≡ recent =
        drop-drop middle budget.keep_leading_turns history
        ∙ ap (λ k. drop k history) (omega (arith, h)) in
      rw (at_leading, at_recent)
        (ap (λ l. leading ++ (take middle rest ++ l)) (sym ends)
          ∙ ap (λ l. leading ++ l) (take-append-drop middle rest)
          ∙ take-append-drop budget.keep_leading_turns history)

  length-elided :
      budget.keep_recent_turns + budget.keep_leading_turns ≤ length history
      → length elided + budget.keep_recent_turns + budget.keep_leading_turns ≡ length history
  length-elided h =
      let at_leading : length leading ≡ budget.keep_leading_turns =
        length-take budget.keep_leading_turns history (omega (arith, h)) in
      let at_recent : length recent ≡ budget.keep_recent_turns = length-recent (omega (arith, h)) in
      omega (
        arith,
        ap length (split_history h),
        length-append leading (elided ++ recent),
        length-append elided recent,
        at_leading,
        at_recent,
      )

  -- Nothing is elided from a history that is no longer.
  elided_none : length history ≤ budget.keep_recent_turns + budget.keep_leading_turns → elided ≡ []
  elided_none h =
      ap (λ k. take k (drop (length leading) history)) {y = 0}
        (elim (Bool-cases (leb budget.keep_leading_turns (length history))) [
          | inl few ↦
              let at_leading : length leading ≡ budget.keep_leading_turns =
                length-take budget.keep_leading_turns history (leb→le _ _ few) in
              omega
                (arith, at_leading, length-drop (length history - budget.keep_recent_turns) history)
          | inr many ↦
              let at_leading : length leading ≡ length history =
                length-take_all budget.keep_leading_turns history (ground (arith, many)) in
              omega (arith, at_leading)
        ])

module _ (str : Json → String) (size : Turn → ℕ) where
  compacted-cons :
      (history : List Turn) (budget : ContextBudget) (l : List Turn)
      → 0 < length l
      → compacted str budget history l
        ≡ (leading history budget ++ recent history budget, some (note_of str l))
  compacted-cons history budget [] h = absurd (omega (arith, h))
  compacted-cons history budget (t ∷ ts) h = refl

  -- A history is cut exactly if it has more turns than the budget keeps; then its leading and its recent
  -- turns are left. The limit on its characters changes nothing.
  pub cut_by_turns_only :
      (history : List Turn) (budget : ContextBudget)
      → compact_history str size history budget ≡ (
          if ltb (budget.keep_recent_turns + budget.keep_leading_turns) (length history)
          then (
            leading history budget ++ recent history budget,
            some (note_of str (elided history budget)),
          )
          else (history, none))
  unfolding compact_history
  cut_by_turns_only history budget =
      let kept = budget.keep_recent_turns + budget.keep_leading_turns in
      elim (Bool-cases (ltb kept (length history))) [
        | inl over ↦
            let some_elided : 0 < length (elided history budget) = omega (
              arith,
              ltb→lt kept (length history) over,
              length-elided history budget (ground (arith, over)),
            ) in
            rw over (compacted-cons history budget (elided history budget) some_elided)
        | inr fits ↦ rw (fits, elided_none history budget (ground (arith, fits))) (ground arith)
      ]

  -- Where a note is returned, the turns are the leading ones and the recent ones, as many as the budget
  -- keeps; the note counts the turns between, and its counts of calls add up to as many.
  pub note_accounts :
      (history kept : List Turn) (budget : ContextBudget) (note : Note)
      → compact_history str size history budget ≡ (kept, some note)
      → (first : List Turn) × (between : List Turn) × (last : List Turn) × (history
          ≡ first ++ (between ++ last))
        × (kept ≡ first ++ last)
        × (length first ≡ budget.keep_leading_turns)
        × (length last ≡ budget.keep_recent_turns)
        × (note.elided_turns ≡ length between)
        × (total note.tools ≡ length between)
  unfolding note_of
  note_accounts history kept budget note h =
      let limit = budget.keep_recent_turns + budget.keep_leading_turns in
      elim (Bool-cases (ltb limit (length history))) [
        | inr fits ↦ cc (rw fits at (sym (cut_by_turns_only history budget) ∙ h))
        | inl over ↦
            let cut : ◌≡◌ {A = List Turn × Option Note}
                (
                  leading history budget ++ recent history budget,
                  some (note_of str (elided history budget)),
                )
                (kept, some note) =
              rw over at (sym (cut_by_turns_only history budget) ∙ h) in
            let enough : limit ≤ length history = ground (arith, over) in
            let is_note : note_of str (elided history budget) ≡ note = cc (cut) in
            (
              leading history budget,
              elided history budget,
              recent history budget,
              sym (split_history history budget enough),
              sym (ap (λ (x : List Turn × Option Note). x.0) cut),
              length-take budget.keep_leading_turns history (omega (arith, enough)),
              length-recent history budget (omega (arith, enough)),
              sym (ap (λ (n : Note). n.elided_turns) is_note),
              ap (λ (n : Note). total n.tools) (sym is_note) ∙ counted (elided history budget),
            )
      ]
    where
      counted : (l : List Turn) → total (note_of str l).tools ≡ length l
      counted l = omega (
        arith,
        sum_of-insertion_sort (λ (a b : String × ℕ). is_le (compare a.0 b.0))
            (λ (entry : String × ℕ). entry.1) (counter [] (map (observation_digest str) l)),
        total-counter [] (map (observation_digest str) l),
        length-map (observation_digest str) l,
      )
