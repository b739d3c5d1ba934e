-- ===== src/Table/Laws.antt =====
-- What the statements do to a lookup by key, to the key constraint and to row predicates.
use achilles.Prelude.{
  String, ◌≡◌, refl, Bool, false, Option, none, some, List, [], ◌∷◌, ◌++◌, arith, ◌==◌, eq_iff,
  if◌then◌else◌, ok, is_some, All, All-append, eq_refl, ◌||◌, Bool-cases, inl, inr,
}
use achilles.Table.{update, delete, find, IsKeyed, add, exists, upsert}

-- What a row becomes under an UPDATE.
abbrev pub updated {ℓ} : {R : Type ℓ} → (R → Bool) → (R → R) → Option R → Option R
updated p g none = none
updated p g (some r) = some (if p r then g r else r)

-- What is left of a row after a DELETE.
abbrev pub kept {ℓ} : {R : Type ℓ} → (R → Bool) → Option R → Option R
kept p none = none
kept p (some r) = if p r then none else some r

module _ {ℓ} {R : Type ℓ} (key : R → String) where
  pub find-key : (k : String) (rows : List R) (r : R) → find key k rows ≡ some r → key r ≡ k
  unfolding find
  find-key k [] r h = cc
  find-key k (x ∷ rows) r h = ground (arith, eq_iff (key x) k, find-key k rows r)

  pub find-update :
      (p : R → Bool) (g : R → R)
      → ((r : R) → key (g r) ≡ key r)
      → (k : String) (rows : List R) → find key k (update p g rows) ≡ updated p g (find key k rows)
  unfolding find update
  find-update p g same k [] = refl
  find-update p g same k (r ∷ rows) = ground (arith, same r, find-update p g same k rows)

  pub find-append :
      (k : String) (rows : List R) (r : R)
      → find key k (rows ++ r ∷ [])
        ≡ elim (find key k rows) [ none ↦ (if key r == k then some r else none) | some x ↦ some x ]
  unfolding find
  find-append k [] r = refl
  find-append k (x ∷ rows) r = ground (arith, find-append k rows r)

  pub find-delete :
      (p : R → Bool) (k : String) (rows : List R)
      → IsKeyed key rows
      → find key k (delete p rows) ≡ kept p (find key k rows)
  unfolding find delete
  find-delete p k [] h = refl
  find-delete p k (r ∷ rows) h = ground (arith, eq_iff (key r) k, find-delete p k rows h.1)

  pub IsKeyed-update :
      (p : R → Bool) (g : R → R)
      → ((r : R) → key (g r) ≡ key r)
      → (rows : List R) → IsKeyed key rows
      → IsKeyed key (update p g rows)
  unfolding update
  IsKeyed-update p g same [] h = tt
  IsKeyed-update p g same (r ∷ rows) h = ground (
    arith,
    same r,
    find-update p g same (key r) rows,
    find-update p g same (key (g r)) rows,
    IsKeyed-update p g same rows h.1,
  )

  pub IsKeyed-delete :
      (p : R → Bool) (rows : List R) → IsKeyed key rows → IsKeyed key (delete p rows)
  unfolding delete
  IsKeyed-delete p [] h = tt
  IsKeyed-delete p (r ∷ rows) h =
      ground (arith, find-delete p (key r) rows h.1, IsKeyed-delete p rows h.1)

  pub IsKeyed-append :
      (r : R) (rows : List R)
      → find key (key r) rows ≡ none
      → IsKeyed key rows
      → IsKeyed key (rows ++ r ∷ [])
  unfolding find
  IsKeyed-append r [] new h = (refl, tt)
  IsKeyed-append r (x ∷ rows) new h = ground (
    arith,
    eq_iff (key x) (key r),
    eq_iff (key r) (key x),
    find-append (key x) rows r,
    IsKeyed-append r rows,
  )

-- An UPDATE keeps the rows that are there.
pub is_some-updated {ℓ} :
    {R : Type ℓ} (p : R → Bool) (g : R → R) (o : Option R) → is_some (updated p g o) ≡ is_some o
is_some-updated p g none = refl
is_some-updated p g (some r) = refl

module _ {ℓ} {R : Type ℓ} (key : R → String) where
  -- Where no row has the key, or what else is asked, none is found.
  pub find-none :
      (q : R → Bool) (k : String) (rows : List R)
      → exists (λ x. key x == k || q x) rows ≡ false
      → find key k rows ≡ none
  unfolding exists find
  find-none q k [] h = refl
  find-none q k (r ∷ rows) h = ground (arith, find-none q k rows)

  -- A row that is added is stored under a new key, at the end, and comes back as it was given.
  pub add_ok :
      (r x : R) (rows : List R) {rows' : List R}
      → add key r rows ≡ ok (x, rows')
      → (find key (key r) rows ≡ none) × (rows' ≡ rows ++ r ∷ []) × (x ≡ r)
  unfolding add
  add_ok r x rows h = ground (arith, find-append key (key r) rows r, eq_refl (key r))

  -- Under a new key the row is added.
  pub add_new :
      (r : R) (rows : List R)
      → find key (key r) rows ≡ none
      → add key r rows ≡ ok (r, rows ++ r ∷ [])
  unfolding add
  add_new r rows h = ground (arith, find-append key (key r) rows r, eq_refl (key r))

  pub find-add :
      (r x : R) (rows : List R) {rows' : List R} (k : String)
      → add key r rows ≡ ok (x, rows')
      → find key k rows' ≡ (if key r == k then some r else find key k rows)
  find-add r x rows k h =
      let (new, e, _) = add_ok r x rows h in
      rw e (ground (arith, find-append key k rows r, eq_iff (key r) k))

  -- A row that is there stays there.
  pub find-add_old :
      (r x : R) (rows : List R) {rows' : List R} (k : String) (y : R)
      → add key r rows ≡ ok (x, rows')
      → find key k rows ≡ some y
      → find key k rows' ≡ some y
  find-add_old r x rows k y h found =
      let (new, e, _) = add_ok r x rows h in rw e (ground (arith, find-append key k rows r))

  pub IsKeyed-add :
      (r x : R) (rows : List R) {rows' : List R}
      → add key r rows ≡ ok (x, rows')
      → IsKeyed key rows
      → IsKeyed key rows'
  IsKeyed-add r x rows h k =
      let (new, e, _) = add_ok r x rows h in rw e (IsKeyed-append key r rows new k)

  pub All-add {κ} :
      (P : R → Type κ) (r x : R) (rows : List R) {rows' : List R}
      → add key r rows ≡ ok (x, rows')
      → P r
      → All P rows
      → All P rows'
  All-add P r x rows h p ps =
      let (new, e, _) = add_ok r x rows h in rw e (All-append P rows (r ∷ []) ps (p, tt))

module _ {ℓ} {R : Type ℓ} (key : R → String) where
  -- A row of a keyed table is the one that is found under its key.
  pub find-middle :
      (before after : List R) (r : R)
      → IsKeyed key (before ++ r ∷ after)
      → find key (key r) (before ++ r ∷ after) ≡ some r
  unfolding find
  find-middle [] after r h = ground (arith, eq_refl (key r))
  find-middle (x ∷ before) after r h = elim (Bool-cases (key x == key r)) [
    | inr e ↦ rw e (find-middle before after r h.1)
    | inl e ↦ cc ((eq_iff (key x) (key r)).0 e, find-middle before after r h.1, h.0)
  ]

  find-replace :
      (r : R) (k : String) (rows : List R)
      → find key k (update (λ x. key x == key r) (λ x. r) rows) ≡ (
          if key r == k
          then elim (find key k rows) [ none ↦ none | some _ ↦ some r ]
          else find key k rows)
  unfolding find update
  find-replace r k [] = ground arith
  find-replace r k (x ∷ rows) =
      ground
        (arith, eq_iff (key x) (key r), eq_iff (key r) k, eq_iff (key x) k, find-replace r k rows)

  pub find-upsert :
      (r : R) (k : String) (rows : List R)
      → find key k (upsert key r rows) ≡ (if key r == k then some r else find key k rows)
  unfolding upsert
  find-upsert r k rows =
      ground (arith, eq_iff (key r) k, find-replace r k rows, find-append key k rows r)

  IsKeyed-replace :
      (r : R) (rows : List R)
      → IsKeyed key rows
      → IsKeyed key (update (λ x. key x == key r) (λ x. r) rows)
  unfolding update
  IsKeyed-replace r [] h = tt
  IsKeyed-replace r (x ∷ rows) h = ground (
    arith,
    eq_iff (key x) (key r),
    eq_iff (key r) (key x),
    find-replace r (key x) rows,
    find-replace r (key r) rows,
    IsKeyed-replace r rows h.1,
  )

  pub IsKeyed-upsert : (r : R) (rows : List R) → IsKeyed key rows → IsKeyed key (upsert key r rows)
  unfolding upsert
  IsKeyed-upsert r rows h = ground (arith, IsKeyed-replace r rows h, IsKeyed-append key r rows)
