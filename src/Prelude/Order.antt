-- ===== src/Prelude/Order.antt =====
-- Stable sorting by a numeric key: the `ORDER BY` of a query and Python's `sort`.
use achilles.Prelude.Tests.{leb, if◌then◌else◌, Bool-cases}
use achilles.Prelude.Lists.{length, any, sum_of, All}
use Prim.Native.Nat.{ℕ, suc, ◌+◌}
use mathlib.Core.Path.{◌≡◌, refl, ap, ◌∙◌}
use mathlib.Core.Bool.{Bool, false, ◌||◌}
use mathlib.Core.Logic.{inl, inr}
use mathlib.Core.List.{List, [], ◌∷◌, ◌++◌}
use native.Mathlib.Omega.{arith}

module _ {ℓ} {A : Type ℓ} (before : A → A → Bool) where
  insert_by : A → List A → List A
  insert_by x [] = x ∷ []
  insert_by x (y ∷ ys) = if before x y then x ∷ y ∷ ys else y ∷ insert_by x ys

  unfoldable pub insertion_sort : List A → List A
  unfolding insert_by
  insertion_sort [] = []
  insertion_sort (x ∷ xs) = insert_by x (insertion_sort xs)

  length-insert_by : (x : A) (xs : List A) → length (insert_by x xs) ≡ suc (length xs)
  unfolding insert_by
  length-insert_by x [] = refl
  length-insert_by x (y ∷ ys) = ground (arith, length-insert_by x ys)

  pub length-insertion_sort : (xs : List A) → length (insertion_sort xs) ≡ length xs
  unfolding insertion_sort
  length-insertion_sort [] = refl
  length-insertion_sort (x ∷ xs) =
      length-insert_by x (insertion_sort xs) ∙ ap suc (length-insertion_sort xs)

  sum_of-insert_by :
      (f : A → ℕ) (x : A) (xs : List A) → sum_of f (insert_by x xs) ≡ f x + sum_of f xs
  unfolding insert_by
  sum_of-insert_by f x [] = refl
  sum_of-insert_by f x (y ∷ ys) = ground (arith, sum_of-insert_by f x ys)

  pub sum_of-insertion_sort : (f : A → ℕ) (xs : List A) → sum_of f (insertion_sort xs) ≡ sum_of f xs
  unfolding insertion_sort
  sum_of-insertion_sort f [] = refl
  sum_of-insertion_sort f (x ∷ xs) =
      omega (arith, sum_of-insert_by f x (insertion_sort xs), sum_of-insertion_sort f xs)

  any-insert_by : (p : A → Bool) (x : A) (xs : List A) → any p (insert_by x xs) ≡ (p x || any p xs)
  unfolding insert_by
  any-insert_by p x [] = refl
  any-insert_by p x (y ∷ ys) = ground (arith, any-insert_by p x ys)

  All-insert_by {κ} :
      (P : A → Type κ) (x : A) (xs : List A) → P x → All P xs → All P (insert_by x xs)
  unfolding insert_by
  All-insert_by P x [] p h = (p, tt)
  All-insert_by P x (y ∷ ys) p (q, h) = elim (Bool-cases (before x y)) [
    | inl e ↦ rw e (p, (q, h))
    | inr n ↦ rw n (q, All-insert_by P x ys p h)
  ]

  -- What holds of all elements holds of them sorted.
  pub All-insertion_sort {κ} : (P : A → Type κ) (xs : List A) → All P xs → All P (insertion_sort xs)
  unfolding insertion_sort
  All-insertion_sort P [] h = tt
  All-insertion_sort P (x ∷ xs) (p, h) =
      All-insert_by P x (insertion_sort xs) p (All-insertion_sort P xs h)

  -- Sorting keeps what is there.
  pub any-insertion_sort : (p : A → Bool) (xs : List A) → any p (insertion_sort xs) ≡ any p xs
  unfolding insertion_sort
  any-insertion_sort p [] = refl
  any-insertion_sort p (x ∷ xs) =
      any-insert_by p x (insertion_sort xs) ∙ ap (λ b. p x || b) (any-insertion_sort p xs)

  -- An element that belongs before all others is sorted to the front.
  pub insertion_sort-last :
      (xs : List A) (r : A)
      → All (λ x. before x r ≡ false) xs
      → insertion_sort (xs ++ r ∷ []) ≡ r ∷ insertion_sort xs
  unfolding insertion_sort insert_by
  insertion_sort-last [] r h = refl
  insertion_sort-last (x ∷ xs) r (p, h) = rw (insertion_sort-last xs r h, p) refl

-- ORDER BY key
abbrev pub sort_by {ℓ} : {A : Type ℓ} → (A → ℕ) → List A → List A
sort_by key = insertion_sort (λ x y. leb (key x) (key y))

-- ORDER BY key DESC
abbrev pub sort_desc {ℓ} : {A : Type ℓ} → (A → ℕ) → List A → List A
sort_desc key = insertion_sort (λ x y. leb (key y) (key x))
