-- ===== src/Table/Found.antt =====
-- Rows that are found, and rows that an INSERT brings, in the tables of the stores.
use Prim.Native.Nat.{max}
use achilles.Prelude.{
  ◌<◌, ◌&&◌, ℕ, String, ◌≡◌, refl, Bool, false, none, some, List, [], ◌∷◌, ◌++◌, ◌⊎◌, inl, inr,
  arith, ◌==◌, nat_eq, eq_iff, eq_refl, if◌then◌else◌, ok, raised, Error, integrity_error, All,
  All-map, Bool-cases, Option-cases,
}
use achilles.Table.{count, find, IsKeyed, insert, maximum, exists}
use achilles.Table.Laws.{find-append}

module _ {ℓ} {R : Type ℓ} (key : R → String) where
  -- Under a new key the row is put at the end.
  pub insert_new :
      (r : R) (rows : List R)
      → find key (key r) rows ≡ none
      → insert key r rows ≡ ok (rows ++ r ∷ [])
  unfolding insert
  insert_new r rows new = rw new refl

  -- An INSERT raises, or puts a row with a new key at the end.
  pub insert-cases :
      (r : R) (rows : List R)
      → ((e : Error) × (insert key r rows ≡ raised e))
        ⊎ ((find key (key r) rows ≡ none) × (insert key r rows ≡ ok (rows ++ r ∷ [])))
  unfolding insert
  insert-cases r rows = elim (Option-cases (find key (key r) rows)) [
    | inl new ↦ inr (new, insert_new r rows new)
    | inr (x, old) ↦ inl (integrity_error, rw old refl)
  ]

  -- A row that is found is counted.
  pub count-found :
      (k : String) (rows : List R) (r : R)
      → find key k rows ≡ some r
      → nat_eq (count (λ x. key x == k) rows) 0 ≡ false
  unfolding find count
  count-found k [] r h = cc
  count-found k (x ∷ rows) r h = ground (arith, count-found k rows r)

  -- A row that is there stays there.
  pub find-append_old :
      (k : String) (rows : List R) (r x : R)
      → find key k rows ≡ some r
      → find key k (rows ++ x ∷ []) ≡ some r
  find-append_old k rows r x h = rw (find-append key k rows x, h) refl

  -- Each row of a keyed table is found under its key.
  pub All-found :
      (rows : List R) → IsKeyed key rows → All (λ r. find key (key r) rows ≡ some r) rows
  unfolding find
  All-found [] h = tt
  All-found (x ∷ rows) (new, keyed) = (
    rw (eq_refl (key x)) refl,
    All-map (λ r. find key (key r) rows ≡ some r) (λ r. find key (key r) (x ∷ rows) ≡ some r) later
        rows (All-found rows keyed),
  )
    where
      later : (r : R) → find key (key r) rows ≡ some r → find key (key r) (x ∷ rows) ≡ some r
      later r found = elim (Bool-cases (key x == key r)) [
        | inr other ↦ rw other found
        | inl same ↦ cc ((eq_iff (key x) (key r)).0 same, new, found)
      ]

-- The maximum with one more row.
pub maximum-append {ℓ} :
    {R : Type ℓ} (p : R → Bool) (f : R → ℕ) (rows : List R) (r : R)
    → maximum p f (rows ++ r ∷ [])
      ≡ (if p r then max (maximum p f rows) (f r) else maximum p f rows)
unfolding maximum
maximum-append p f [] r = ground arith
maximum-append p f (x ∷ rows) r = ground (arith, maximum-append p f rows r)

-- No row is above the maximum.
pub exists-above {ℓ} :
    {R : Type ℓ} (p : R → Bool) (f : R → ℕ) (n : ℕ) (rows : List R)
    → maximum p f rows < n
    → exists (λ r. p r && nat_eq (f r) n) rows ≡ false
unfolding maximum exists
exists-above p f n [] h = refl
exists-above p f n (r ∷ rows) h = ground (arith, exists-above p f n rows)
