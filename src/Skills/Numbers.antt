-- ===== src/Skills/Numbers.antt =====
-- The version numbers of a skill (src/sovereign_ai/kernel/skills.py).
use Prim.Native.Nat.{max}
use achilles.Prelude.{
  ℕ, zero, suc, ◌+◌, String, ◌≡◌, refl, ap, true, List, [], ◌∷◌, ◌++◌, map, arith, ◌==◌, Bool-cases,
  inl, inr, ◌⊎◌, Error, subst, eq_iff, Result, none, ok, raised, eq_refl,
}
use achilles.Table
use achilles.Table.Laws
use achilles.Table.Queries
use mathlib.Core.List.{map-append}
use achilles.Json.{Items}
use achilles.Table.Found
use achilles.Skills.{SkillVersionRecord, is_objects}
use achilles.Skills.Versions.{Rows, key, named, next_version, create, insert_version, get}

abbrev pub top_version : String → Rows → ℕ
top_version name rows = Table.maximum (named name) (λ (r : SkillVersionRecord). r.version) rows

-- 1, 2, ..., n
unfoldable pub up_to : ℕ → List ℕ
up_to zero = []
up_to (suc n) = up_to n ++ suc n ∷ []

-- The versions of a name, in the order of their rows, are numbered without a gap.
abbrev pub IsNumbered : String → Rows → Type 0
IsNumbered name rows =
    map (λ (r : SkillVersionRecord). r.version) (Table.select (named name) rows)
    ≡ up_to (top_version name rows)

-- The store of versions with one more promotion.
module _ (id : String) (now : ℕ) (name candidate_id evaluation_id : String) (trajectory : Items)
    (promoted_by : String) (rows : Rows) where
  abbrev pub next : SkillVersionRecord
  next = next_version id now name candidate_id evaluation_id trajectory promoted_by rows

  abbrev pub created : Result SkillVersionRecord × Rows
  created = create id now name candidate_id evaluation_id trajectory promoted_by rows

  inserted : insert_version next rows ≡ Table.insert key next rows
  unfolding insert_version
  inserted =
      rw
        (Found.exists-above (named name) (λ (r : SkillVersionRecord). r.version)
          (top_version name rows + 1) rows (omega arith))
        refl

  -- Under a new id it is stored at the end, with the number after the highest of its name.
  pub create_new :
      is_objects trajectory ≡ true
      → Table.find key id rows ≡ none
      → created ≡ (ok next, rows ++ next ∷ [])
  unfolding create get
  create_new fine new =
      rw
        (
          inserted,
          Found.insert_new key next rows new,
          Laws.find-append key id rows next,
          new,
          eq_refl id,
          fine,
        )
        refl

  -- Otherwise it is refused.
  pub create-cases :
      is_objects trajectory ≡ true
      → ((e : Error) × (created ≡ (raised e, rows))) ⊎ (created ≡ (ok next, rows ++ next ∷ []))
  create-cases fine = elim (Found.insert-cases key next rows) [
    | inl (e, refused) ↦ inl (e, unfold create in rw (inserted, refused) refl)
    | inr (new, stored) ↦ inr (create_new fine new)
  ]

  -- Numbered without a gap before, they are so after.
  own : IsNumbered name rows → IsNumbered name (rows ++ next ∷ [])
  unfolding up_to
  own h =
      let top = top_version name rows in
      let is_top : max top (top + 1) ≡ suc top = omega arith in
      rw
        (
          Queries.select-append (named name) rows next,
          Found.maximum-append (named name) (λ (r : SkillVersionRecord). r.version) rows next,
          eq_refl name,
          map-append (λ (r : SkillVersionRecord). r.version) (Table.select (named name) rows)
              (next ∷ []),
          is_top,
          h,
        )
        (ap (λ n. up_to top ++ n ∷ []) {x = top + 1} {y = suc top} (omega arith))

  pub append-IsNumbered : (k : String) → IsNumbered k rows → IsNumbered k (rows ++ next ∷ [])
  append-IsNumbered k h = elim (Bool-cases (name == k)) [
    | inr other ↦
        rw
          (
            Queries.select-append (named k) rows next,
            Found.maximum-append (named k) (λ (r : SkillVersionRecord). r.version) rows next,
            other,
          )
          h
    | inl same ↦
        subst (λ n. IsNumbered n rows → IsNumbered n (rows ++ next ∷ [])) ((eq_iff name k).0 same)
          own h
  ]
