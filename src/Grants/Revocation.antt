-- ===== src/Grants/Revocation.antt =====
-- Revoking grants (kernel/capability_grants.py).
use achilles.Prelude.{
  ℕ, String, ◌≡◌, refl, Bool, true, false, not, ◌&&◌, Option, some, [], ◌∷◌, ◌==◌, arith, ok,
}
use achilles.Table
use achilles.Table.Laws
use achilles.Grants.{
  CapabilityGrantRecord, Rows, key, get, issue, is_unrevoked, stamp, revoke, belongs_to,
  revoke_for_delegation, authorizes, is_active,
}

exists-revoke :
    (now : ℕ) (p q : CapabilityGrantRecord → Bool) (rows : Rows)
    → ((r : CapabilityGrantRecord) → p r ≡ true → is_unrevoked r ≡ true)
    → ((r : CapabilityGrantRecord) → p (stamp now r) ≡ false)
    → Table.exists p (Table.update (λ r. q r && is_unrevoked r) (stamp now) rows)
      ≡ Table.exists (λ r. p r && not (q r)) rows
unfolding Table.exists Table.update
exists-revoke now p q [] live dead = refl
exists-revoke now p q (r ∷ rows) live dead =
    ground (arith, live r, dead r, exists-revoke now p q rows live dead)

authorizes_live :
    (t : ℕ) (who action scope : String) (r : CapabilityGrantRecord)
    → authorizes t who action scope r ≡ true
    → is_unrevoked r ≡ true
authorizes_live t who action scope r h = ground arith

authorizes_stamped :
    (t now : ℕ) (who action scope : String) (r : CapabilityGrantRecord)
    → authorizes t who action scope (stamp now r) ≡ false
authorizes_stamped t now who action scope r = ground arith

-- Rejecting a delegation revokes exactly its own grants: at every time, a subject, action and scope
-- stay authorised just when a grant of something else than this delegation authorised them.
pub is_active-revoke_for_delegation :
    (now : ℕ) (d : String) (t : ℕ) (who action scope : String) (rows : Rows)
    → is_active t who action scope (revoke_for_delegation now d rows).1
      ≡ Table.exists (λ r. authorizes t who action scope r && not (belongs_to d r)) rows
unfolding is_active revoke_for_delegation
is_active-revoke_for_delegation now d t who action scope rows =
    exists-revoke now (authorizes t who action scope) (belongs_to d) rows
      (authorizes_live t who action scope) (authorizes_stamped t now who action scope)

-- Revoking one grant leaves exactly the authority that rests on other grants.
pub is_active-revoke :
    (now : ℕ) (grant_id : String) (t : ℕ) (who action scope : String) (rows : Rows)
    → is_active t who action scope (revoke now grant_id rows)
      ≡ Table.exists (λ r. authorizes t who action scope r && not (r.id == grant_id)) rows
unfolding is_active revoke
is_active-revoke now grant_id t who action scope rows =
    exists-revoke now (authorizes t who action scope) (λ r. r.id == grant_id) rows
      (authorizes_live t who action scope) (authorizes_stamped t now who action scope)

-- The statements that any callers may run on the table.
pub data Step : Rows → Rows → Type 0 where
  issues :
      (rows rows' : Rows) (id : String) (now : ℕ) (who action scope by : String)
      (approval d : Option String) (ttl : ℕ) (g : CapabilityGrantRecord)
      → issue id now who action scope by approval d ttl rows ≡ ok (g, rows')
      → Step rows rows'
  revokes : (rows : Rows) (now : ℕ) (grant_id : String) → Step rows (revoke now grant_id rows)
  revokes_all :
      (rows : Rows) (now : ℕ) (d : String) → Step rows (revoke_for_delegation now d rows).1

pub data Reach (rows : Rows) : Rows → Type 0 where
  here : Reach rows rows
  next : {mid rows' : Rows} → Reach rows mid → Step mid rows' → Reach rows rows'

revoked-Step :
    (k : String) (r : CapabilityGrantRecord) {rows rows' : Rows}
    → is_unrevoked r ≡ false
    → Step rows rows'
    → get k rows ≡ some r
    → get k rows' ≡ some r
unfolding get issue revoke revoke_for_delegation
revoked-Step k r n (Step.issues rows rows' id now who action scope by approval d ttl g h) found =
    Laws.find-add_old key _ g rows k r h found
revoked-Step k r n (Step.revokes rows now grant_id) found =
    rw
      (
        Laws.find-update key (λ x. x.id == grant_id && is_unrevoked x) (stamp now) (λ x. refl) k
            rows,
        found,
      )
      (ground arith)
revoked-Step k r n (Step.revokes_all rows now d) found =
    rw
      (
        Laws.find-update key (λ x. belongs_to d x && is_unrevoked x) (stamp now) (λ x. refl) k rows,
        found,
      )
      (ground arith)

-- A revoked grant is never unrevoked, nor is the time of its revocation rewritten, whatever grants
-- are issued or revoked afterwards.
pub revocation_is_final :
    (k : String) (r : CapabilityGrantRecord) {rows rows' : Rows}
    → is_unrevoked r ≡ false
    → get k rows ≡ some r
    → Reach rows rows'
    → get k rows' ≡ some r
revocation_is_final k r n found Reach.here = found
revocation_is_final k r n found (Reach.next reach step) =
    revoked-Step k r n step (revocation_is_final k r n found reach)
