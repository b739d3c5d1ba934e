-- ===== src/Table.antt =====
-- A SQLite table as the list of its rows, in the order of insertion (every store under
-- src/sovereign_ai keeps its state in such a table). A statement is one function.
use Prim.Native.Nat.{max}
use achilles.Prelude.{
  ℕ, suc, ◌+◌, String, ◌≡◌, refl, Bool, true, false, ◌||◌, Option, none, some, List, [], ◌∷◌, ◌++◌,
  ◌==◌, if◌then◌else◌, Result, ok, raised, integrity_error, is_some, fetched, ◌>>=◌,
}
pub mod Laws
pub mod Queries
pub mod Found

module _ {ℓ} {R : Type ℓ} where
  -- SELECT * FROM t WHERE p
  unfoldable pub select : (R → Bool) → List R → List R
  select p [] = []
  select p (r ∷ rows) = if p r then r ∷ select p rows else select p rows

  -- SELECT 1 FROM t WHERE p LIMIT 1
  unfoldable pub exists : (R → Bool) → List R → Bool
  exists p [] = false
  exists p (r ∷ rows) = p r || exists p rows

  -- UPDATE t SET g WHERE p
  unfoldable pub update : (R → Bool) → (R → R) → List R → List R
  update p g [] = []
  update p g (r ∷ rows) = (if p r then g r else r) ∷ update p g rows

  -- DELETE FROM t WHERE p
  unfoldable pub delete : (R → Bool) → List R → List R
  delete p [] = []
  delete p (r ∷ rows) = if p r then delete p rows else r ∷ delete p rows

  -- cursor.rowcount of an UPDATE or a DELETE, SELECT COUNT(*)
  unfoldable pub count : (R → Bool) → List R → ℕ
  count p [] = 0
  count p (r ∷ rows) = if p r then suc (count p rows) else count p rows

  -- SELECT MAX(f) FROM t WHERE p, 0 if there is none
  unfoldable pub maximum : (R → Bool) → (R → ℕ) → List R → ℕ
  maximum p f [] = 0
  maximum p f (r ∷ rows) = if p r then max (f r) (maximum p f rows) else maximum p f rows

module _ {ℓ} {R : Type ℓ} (key : R → String) where
  -- SELECT * FROM t WHERE id=?
  unfoldable pub find : String → List R → Option R
  find k [] = none
  find k (r ∷ rows) = if key r == k then some r else find k rows

  -- INSERT INTO t: a second row with the same PRIMARY KEY raises
  unfoldable pub insert : R → List R → Result (List R)
  insert r rows =
      if is_some (find (key r) rows) then raised integrity_error else ok (rows ++ r ∷ [])

  -- d[k] = v of a dict that is kept as the list of its entries
  unfoldable pub upsert : R → List R → List R
  upsert r rows =
      if is_some (find (key r) rows)
      then update (λ x. key x == key r) (λ x. r) rows
      else rows ++ r ∷ []

  -- The end of every `create`: the INSERT, and the row read back under its key.
  unfoldable pub add : R → List R → Result (R × List R)
  unfolding insert
  add r rows = do rows' ← insert r rows; stored ← fetched (find (key r) rows'); ok (stored, rows')

  -- PRIMARY KEY: no two rows have one key.
  abbrev pub IsKeyed : List R → Type ℓ
  IsKeyed [] = Unit
  IsKeyed (r ∷ rows) = (find (key r) rows ≡ none) × IsKeyed rows
