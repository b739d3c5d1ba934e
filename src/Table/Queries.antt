-- ===== src/Table/Queries.antt =====
-- What row predicates, queries and counts see of the statements (the tables of the stores).
use achilles.Prelude.{
  ◌+◌, ◌≡◌, refl, Bool, true, false, List, [], ◌∷◌, ◌++◌, arith, if◌then◌else◌, All, ◌||◌, ◌≢◌,
  length, Bool-cases, inl, inr,
}
use achilles.Table.{update, delete, count, exists, select}

module _ {ℓ} {R : Type ℓ} where
  pub exists-append :
      (p : R → Bool) (rows : List R) (r : R) → exists p (rows ++ r ∷ []) ≡ exists p rows || p r
  unfolding exists
  exists-append p [] r = ground arith
  exists-append p (x ∷ rows) r = ground (arith, exists-append p rows r)

  pub select-append :
      (p : R → Bool) (rows : List R) (r : R)
      → select p (rows ++ r ∷ []) ≡ (if p r then select p rows ++ r ∷ [] else select p rows)
  unfolding select
  select-append p [] r = refl
  select-append p (x ∷ rows) r = ground (arith, select-append p rows r)

  pub select-append_all :
      (p : R → Bool) (rows more : List R) → select p (rows ++ more) ≡ select p rows ++ select p more
  unfolding select
  select-append_all p [] more = refl
  select-append_all p (x ∷ rows) more = ground (arith, select-append_all p rows more)

  pub exists-middle :
      (p : R → Bool) (before after : List R) (r : R)
      → p r ≡ true
      → exists p (before ++ r ∷ after) ≡ true
  unfolding exists
  exists-middle p [] after r h = rw h
  exists-middle p (x ∷ before) after r h = rw (exists-middle p before after r h) (ground arith)

  pub exists-select : (p : R → Bool) (rows : List R) → exists p rows ≡ true → select p rows ≢ []
  unfolding exists select
  exists-select p [] h = cc
  exists-select p (r ∷ rows) h = ground (arith, exists-select p rows)

  pub All-update {κ} :
      (P : R → Type κ) (p : R → Bool) (g : R → R)
      → ((r : R) → p r ≡ true → P r → P (g r))
      → (rows : List R) → All P rows
      → All P (update p g rows)
  unfolding update
  All-update P p g step [] h = h
  All-update P p g step (r ∷ rows) (h, hs) = (one (p r) refl, All-update P p g step rows hs)
    where
      one : (b : Bool) → p r ≡ b → P (if b then g r else r)
      one true e = step r e h
      one false e = h

  pub All-delete {κ} :
      (P : R → Type κ) (p : R → Bool) (rows : List R) → All P rows → All P (delete p rows)
  unfolding delete
  All-delete P p [] h = h
  All-delete P p (r ∷ rows) (h, hs) = elim (Bool-cases (p r)) [
    | inl e ↦ rw e (All-delete P p rows hs)
    | inr e ↦ rw e (h, All-delete P p rows hs)
  ]

  pub length-update :
      (p : R → Bool) (g : R → R) (rows : List R) → length (update p g rows) ≡ length rows
  unfolding update
  length-update p g [] = refl
  length-update p g (r ∷ rows) = omega (arith, length-update p g rows)

  -- A DELETE removes as many rows as its row count says.
  pub length-delete :
      (p : R → Bool) (rows : List R) → length (delete p rows) + count p rows ≡ length rows
  unfolding delete count
  length-delete p [] = omega arith
  length-delete p (r ∷ rows) = ground (arith, length-delete p rows)
