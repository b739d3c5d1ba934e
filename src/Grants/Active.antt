-- ===== src/Grants/Active.antt =====
-- When a grant is active (kernel/capability_grants.py).
use achilles.Prelude.{
  ℕ, ◌+◌, ◌<◌, String, ◌≡◌, refl, ap, ◌↔◌, true, false, ◌&&◌, ◌||◌, Option, none, [], ◌∷◌, ◌++◌,
  ◌==◌, arith, ltb, ok, Bool-cases, inl, inr, eq_iff,
}
use achilles.Table
use achilles.Table.Laws
use achilles.Table.Queries
use achilles.Grants.{CapabilityGrantRecord, Rows, key, issue, authorizes, is_active}

-- A new grant authorises its own subject, action and scope until it expires, and nothing else:
-- every other answer of `is_active` is what it was.
pub is_active-issue :
    (id : String) (now : ℕ) (who action scope by : String) (approval d : Option String) (ttl : ℕ)
    (rows : Rows) {rows' : Rows} (g : CapabilityGrantRecord) (t : ℕ) (who' action' scope' : String)
    → issue id now who action scope by approval d ttl rows ≡ ok (g, rows')
    → is_active t who' action' scope' rows' ≡ (
        is_active t who' action' scope' rows
        || (who == who' && action == action' && scope == scope' && ltb t (now + ttl)))
unfolding issue is_active
is_active-issue id now who action scope by approval d ttl rows g t who' action' scope' h =
    let (new, e, _) = Laws.add_ok key _ g rows h in rw (e, Queries.exists-append) (ground arith)

-- A grant in the table authorises the request at `t`.
pub record Grant (t : ℕ) (who action scope : String) (rows : Rows) : Type 0 where
  pub before : Rows
  pub after : Rows
  pub grant : CapabilityGrantRecord
  pub split : rows ≡ before ++ grant ∷ after
  pub of_subject : grant.subject_id ≡ who
  pub of_action : grant.action ≡ action
  pub of_scope : grant.scope ≡ scope
  pub unrevoked : grant.revoked_at ≡ none
  pub unexpired : t < grant.expires_at

Grant-skip :
    {t : ℕ} {who action scope : String} {rows : Rows} (r : CapabilityGrantRecord)
    → Grant t who action scope rows
    → Grant t who action scope (r ∷ rows)
Grant-skip r g = record {
  before = r ∷ g.before;
  after = g.after;
  grant = g.grant;
  split = ap (λ l. r ∷ l) g.split;
  of_subject = g.of_subject;
  of_action = g.of_action;
  of_scope = g.of_scope;
  unrevoked = g.unrevoked;
  unexpired = g.unexpired;
}

Grant-here :
    (t : ℕ) (who action scope : String) (r : CapabilityGrantRecord) (rows : Rows)
    → authorizes t who action scope r ≡ true
    → Grant t who action scope (r ∷ rows)
Grant-here t who action scope r rows e = record {
  before = [];
  after = rows;
  grant = r;
  split = refl;
  of_subject = ground (arith, eq_iff r.subject_id who);
  of_action = ground (arith, eq_iff r.action action);
  of_scope = ground (arith, eq_iff r.scope scope);
  unrevoked = ground arith;
  unexpired = ground arith;
}

active_sound :
    (t : ℕ) (who action scope : String) (rows : Rows)
    → Table.exists (authorizes t who action scope) rows ≡ true
    → Grant t who action scope rows
unfolding Table.exists
active_sound t who action scope [] h = cc
active_sound t who action scope (r ∷ rows) h = elim (Bool-cases (authorizes t who action scope r)) [
  | inl e ↦ Grant-here t who action scope r rows e
  | inr n ↦ Grant-skip r (active_sound t who action scope rows (later r rows h n))
]
  where
    later :
        (x : CapabilityGrantRecord) (xs : Rows)
        → (authorizes t who action scope x || Table.exists (authorizes t who action scope) xs)
          ≡ true
        → authorizes t who action scope x ≡ false
        → Table.exists (authorizes t who action scope) xs ≡ true
    later x xs h n = rw n at h

-- `is_active` says yes exactly when the table holds a grant for this very subject, action and
-- scope that is neither revoked nor expired.
pub is_active_iff :
    (t : ℕ) (who action scope : String) (rows : Rows)
    → (is_active t who action scope rows ≡ true) ↔ Grant t who action scope rows
unfolding is_active
is_active_iff t who action scope rows = (
  active_sound t who action scope rows,
  λ g.
      rw g.split
        (Queries.exists-middle (authorizes t who action scope) g.before g.after g.grant (covers g)),
)
  where
    covers : (g : Grant t who action scope rows) → authorizes t who action scope g.grant ≡ true
    covers g = ground (
      arith,
      eq_iff g.grant.subject_id who,
      eq_iff g.grant.action action,
      eq_iff g.grant.scope scope,
      g.of_subject,
      g.of_action,
      g.of_scope,
      g.unrevoked,
      g.unexpired,
    )
