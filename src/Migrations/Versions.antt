-- ===== src/Migrations/Versions.antt =====
-- apply_pending (kernel/migrations.py): the versions on record before and after it.
use achilles.Prelude.{
  Supply, ℕ, zero, suc, ◌+◌, ◌-◌, ◌≤◌, ◌<◌, String, ◌>>=◌, ◌≡◌, refl, sym, ap, subst, ◌∙◌, true,
  false, List, [], ◌∷◌, ◌++◌, map, any, length, nat_eq, leb, Result, ok, raised, arith, Bool-cases,
  inl, inr,
}
use achilles.Prelude.Order.{sort_by}
use achilles.Migrations.{
  Migration, SchemaMigration, Rows, Database, version_of, recorded, range, same_list,
  validate_versions, init, current_version, insert, applied, go_on, record_migration, apply,
  apply_all, apply_pending,
}

same_list_sound : (vs ws : List ℕ) → same_list vs ws ≡ true → vs ≡ ws
unfolding same_list
same_list_sound [] [] h = refl
same_list_sound [] (w ∷ ws) h = cc
same_list_sound (v ∷ vs) [] h = cc
same_list_sound (v ∷ vs) (w ∷ ws) h = ground (arith, same_list_sound vs ws)

range-snoc : (a n : ℕ) → range a n ++ (a + n) ∷ [] ≡ range a (suc n)
unfolding range
range-snoc a zero = ap (λ x. x ∷ []) (omega arith)
range-snoc a (suc n) =
    ap (λ l. a ∷ l)
      (ap (λ x. range (suc a) n ++ x ∷ []) {x = a + suc n} {y = suc a + n} (omega arith)
        ∙ range-snoc (suc a) n)

any-range : (a n v : ℕ) → a + n ≤ v → any (λ w. nat_eq w v) (range a n) ≡ false
unfolding range
any-range a zero v h = refl
any-range a (suc n) v h = grind (arith, any-range (suc a) n v (omega (arith, h)))

current_version-range :
    (a n : ℕ) (rows : Rows)
    → map recorded rows ≡ range (suc a) n
    → (n ≡ 0 → current_version rows ≡ 0) × (0 < n → current_version rows ≡ a + n)
unfolding range current_version
current_version-range a zero [] h = (λ e. refl, λ l. omega (arith, l))
current_version-range a (suc n) [] h = cc
current_version-range a zero (r ∷ rows) h = cc
current_version-range a (suc n) (r ∷ rows) h =
    let (none_left, some_left) = current_version-range (suc a) n rows (cc (h)) in
    let first : r.version ≡ suc a = cc (h) in ground (arith, none_left, some_left, first)

current_version-recorded :
    (n : ℕ) (rows : Rows) → map recorded rows ≡ range 1 n → current_version rows ≡ n
current_version-recorded zero rows h = (current_version-range 0 zero rows h).0 refl
current_version-recorded (suc n) rows h =
    (current_version-range 0 (suc n) rows h).1 (omega arith) ∙ omega arith

validate_versions_sound : (vs : List ℕ) → validate_versions vs ≡ ok tt → vs ≡ range 1 (length vs)
unfolding validate_versions
validate_versions_sound [] h = refl
validate_versions_sound (v ∷ vs) h =
    same_list_sound (v ∷ vs) (range 1 (suc (length vs))) (ground (arith, h))

length-versions : (ms : List Migration) → length (map version_of ms) ≡ length ms
length-versions [] = refl
length-versions (m ∷ ms) = ap suc (length-versions ms)

pub init-contiguous :
    (ms sorted : List Migration)
    → init ms ≡ ok sorted
    → map version_of sorted ≡ range 1 (length sorted)
unfolding init
init-contiguous ms sorted h = go (validate_versions (map version_of (sort_by version_of ms))) refl h
  where
    go :
        (r : Result (Unit {0}))
        → validate_versions (map version_of (sort_by version_of ms)) ≡ r
        → (r >>= (λ u. ok (sort_by version_of ms))) ≡ ok sorted
        → map version_of sorted ≡ range 1 (length sorted)
    go (raised e) f q = cc
    go (ok u) f q =
        let kept : sort_by version_of ms ≡ sorted = cc (q) in
        let counted : map version_of sorted ≡ range 1 (length (map version_of sorted)) =
          validate_versions_sound (map version_of sorted)
            (subst (λ l. validate_versions (map version_of l) ≡ ok u) kept f) in
        counted ∙ ap (range 1) (length-versions sorted)

insert_next :
    (r : SchemaMigration) (rows : Rows) (n : ℕ)
    → map recorded rows ≡ range 1 n
    → r.version ≡ suc n
    → insert r rows ≡ ok (rows ++ r ∷ [])
unfolding insert
insert_next r rows n h e = rw (h, e, any-range 1 n (suc n) (omega arith)) refl

map-snoc :
    (rows : Rows) (r : SchemaMigration)
    → map recorded (rows ++ r ∷ []) ≡ map recorded rows ++ r.version ∷ []
map-snoc [] r = refl
map-snoc (x ∷ rows) r = ap (λ l. x.version ∷ l) (map-snoc rows r)

module _ {W : Type 0} where
  -- How a run over `left` migrations may end where the first `n` are on record: with all of them
  -- applied in order, or stopped by one, with those before it on record.
  abbrev pub Ends : (n left : ℕ) → Result (List ℕ) × Database W → Type 0
  Ends n left (ok versions, db) =
      (versions ≡ range (suc n) left) × (map recorded db.schema_migrations ≡ range 1 (n + left))
  Ends n left (raised e, db) =
      (k : ℕ) × (k < left) × (map recorded db.schema_migrations ≡ range 1 (n + k))

  Ends-applied :
      (n left : ℕ) (r : Result (List ℕ) × Database W)
      → Ends (suc n) left r
      → Ends n (suc left) (applied (suc n) r)
  unfolding range
  Ends-applied n left (ok versions, db) (e, h) =
      (ap (λ l. suc n ∷ l) e, h ∙ ap (range 1) {x = suc n + left} {y = n + suc left} (omega arith))
  Ends-applied n left (raised e, db) (k, l, h) =
      (suc k, omega (arith, l), h ∙ ap (range 1) {x = suc n + k} {y = n + suc k} (omega arith))

  module _ (supply : Supply) (executescript : String → W → Result (Unit {0}) × W) where
    pending-Ends :
        (current n : ℕ) (ms : List Migration) (db : Database W)
        → current ≤ n
        → map version_of ms ≡ range (suc n) (length ms)
        → map recorded db.schema_migrations ≡ range 1 n
        → Ends n (length ms) (apply_all supply executescript current ms db)
    unfolding apply_all apply range
    pending-Ends current n [] db l v h = (refl, h ∙ ap (range 1) {x = n} {y = n + 0} (omega arith))
    pending-Ends current n (m ∷ ms) db l v h = rw not_old (
        go (executescript m.sql db.world)
          (λ d. pending-Ends current (suc n) ms d (omega (arith, l)) (cc (v))))
      where
        first : m.version ≡ suc n
        first = cc (v)

        not_old : leb m.version current ≡ false
        not_old = ground (arith, first, l)

        go :
            (r : Result (Unit {0}) × W)
            → ((d : Database W)
                → map recorded d.schema_migrations ≡ range 1 (suc n)
                → Ends (suc n) (length ms) (apply_all supply executescript current ms d))
            → Ends n (suc (length ms)) (
                go_on m.version
                  (record_migration supply executescript m db r)
                  (λ d. apply_all supply executescript current ms d))
        go (raised e, w) ih = (0, omega arith, h ∙ ap (range 1) {x = n} {y = n + 0} (omega arith))
        go (ok u, w) ih =
            let r : SchemaMigration = record {
              version = suc n;
              name = m.name;
              applied_at = supply.clock db.drawn;
            } in
            let d : Database W = record {
              world = w;
              schema_migrations = db.schema_migrations ++ r ∷ [];
              drawn = suc db.drawn;
            } in
            rw (first, insert_next r db.schema_migrations n h refl)
              (Ends-applied n (length ms) (apply_all supply executescript current ms d) (
                ih d (
                  map-snoc db.schema_migrations r
                  ∙ ap (λ l'. l' ++ suc n ∷ []) h
                  ∙ ap (λ x. range 1 n ++ x ∷ []) {x = suc n} {y = 1 + n} (omega arith)
                  ∙ range-snoc 1 n)))

    skip-Ends :
        (n j : ℕ) (ms : List Migration) (db : Database W)
        → j ≤ n
        → map version_of ms ≡ range (suc j) (length ms)
        → map recorded db.schema_migrations ≡ range 1 n
        → Ends n (j + length ms - n) (apply_all supply executescript n ms db)
    unfolding apply_all range
    skip-Ends n j [] db l v h =
        let none_left : j + 0 - n ≡ 0 = omega (arith, l) in
        rw none_left (refl, h ∙ ap (range 1) {x = n} {y = n + 0} (omega arith))
    skip-Ends n j (m ∷ ms) db l v h = elim (Bool-cases (leb m.version n)) [
      | inl old ↦
          let fewer : suc j + length ms - n ≡ j + suc (length ms) - n = omega arith in
          rw old (
            subst (λ x. Ends n x (apply_all supply executescript n ms db)) fewer
              (skip-Ends n (suc j) ms db (ground (arith, first, old)) (cc (v)) h))
      | inr new ↦
          let here : j ≡ n = ground (arith, first, new, l) in
          let all_left : suc (length ms) ≡ j + suc (length ms) - n = omega (arith, here) in
          subst (λ x. Ends n x (apply_all supply executescript n (m ∷ ms) db)) all_left
            (pending-Ends n n (m ∷ ms) db (omega arith)
              (subst (λ x. map version_of (m ∷ ms) ≡ range (suc x) (suc (length ms))) here v) h)
    ]
      where
        first : m.version ≡ suc j
        first = cc (v)

    -- Where versions 1 to `n` are on record, a run of the migrations that the constructor has
    -- accepted either returns exactly the later versions, in order, with all versions to the last
    -- one on record; or it raises, with versions 1 to some `n + k` on record, and not all of them.
    pub apply_pending-Ends :
        (ms sorted : List Migration) (db : Database W) (n : ℕ)
        → init ms ≡ ok sorted
        → map recorded db.schema_migrations ≡ range 1 n
        → Ends n (length sorted - n) (apply_pending supply executescript sorted db)
    unfolding apply_pending
    apply_pending-Ends ms sorted db n h k =
        let left : 0 + length sorted - n ≡ length sorted - n = omega arith in
        rw (current_version-recorded n db.schema_migrations k, sym left)
          (skip-Ends n 0 sorted db (omega arith) (init-contiguous ms sorted h) k)
