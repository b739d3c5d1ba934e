-- ===== src/Collaboration/Identities.antt =====
-- The identities of the store (src/sovereign_ai/collaboration/store.py).
use achilles.Prelude.{
  ℕ, String, ◌==◌, Option, none, some, [], ◌∷◌, ◌++◌, is_some, if◌then◌else◌, Result, ok, raised,
  ◌>>=◌, fetched, value_error, already_exists,
}
use achilles.Json.{Fields}
use achilles.Table
use achilles.Collaboration.Store.{IdentityKind, IdentityRecord, CollaborationStore, get_identity}

-- `json.dumps(agent, sort_keys=True) if agent else None`
abbrev pub filled : Option Fields → Option Fields
filled none = none
filled (some Fields.end) = none
filled (some (Fields.field k v fs)) = some (Fields.field k v fs)

-- ON CONFLICT(id) DO UPDATE: the time of the first creation stays.
abbrev pub excluded : IdentityRecord → IdentityRecord → IdentityRecord
excluded i r = record i { created_at_ns = r.created_at_ns }

unfoldable pub upsert_identity :
    (now_ns : ℕ) (identity_id display_name : String)
    → IdentityKind
    → (trust : String) → Option Fields
    → Option String
    → CollaborationStore
    → Result (IdentityRecord × CollaborationStore)
unfolding get_identity Table.update
upsert_identity now_ns identity_id display_name kind trust config agent_profile_id s = do
  let i : IdentityRecord = record {
    id = identity_id;
    display_name = display_name;
    kind = kind;
    trust = trust;
    agent = filled config;
    agent_profile_id = agent_profile_id;
    created_at_ns = now_ns;
  }
  let s' = record s {
    identities =
        if is_some (get_identity identity_id s)
        then Table.update (λ r. r.id == identity_id) (excluded i) s.identities
        else s.identities ++ i ∷ [];
  }
  identity ← fetched (get_identity identity_id s')
  ok (identity, s')

-- Between the test and the INSERT no other creator comes in here; one would raise the same exception.
unfoldable pub create_identity_exclusive :
    (now_ns : ℕ) (identity_id display_name : String)
    → IdentityKind
    → (trust : String) → Option Fields
    → Option String
    → CollaborationStore
    → Result (IdentityRecord × CollaborationStore)
unfolding get_identity
create_identity_exclusive now_ns identity_id display_name kind trust config agent_profile_id s =
    if is_some (get_identity identity_id s) then raised already_exists else (do
      let s' = record s {
        identities =
            s.identities
            ++ record {
              id = identity_id;
              display_name = display_name;
              kind = kind;
              trust = trust;
              agent = filled config;
              agent_profile_id = agent_profile_id;
              created_at_ns = now_ns;
            }
              ∷ [];
      }
      identity ← fetched (get_identity identity_id s')
      ok (identity, s'))

-- An UPDATE of the row of one identity, and the row read back.
unfoldable pub write_identity :
    String
    → (IdentityRecord → IdentityRecord)
    → CollaborationStore
    → Result (IdentityRecord × CollaborationStore)
unfolding get_identity Table.update
write_identity identity_id change s =
    if is_some (get_identity identity_id s)
    then (do
      let s' = record s { identities = Table.update (λ r. r.id == identity_id) change s.identities }
      identity ← fetched (get_identity identity_id s')
      ok (identity, s'))
    else raised value_error

unfoldable pub update_identity :
    (identity_id display_name : String)
    → IdentityKind
    → (trust : String) → Option Fields
    → CollaborationStore
    → Result (IdentityRecord × CollaborationStore)
unfolding write_identity
update_identity identity_id display_name kind trust config s =
    write_identity identity_id
      (λ r. record r {
        display_name = display_name;
        kind = kind;
        trust = trust;
        agent = filled config;
      })
      s

unfoldable pub link_agent_profile :
    String → Option String → CollaborationStore → Result (IdentityRecord × CollaborationStore)
unfolding write_identity
link_agent_profile identity_id agent_profile_id s =
    write_identity identity_id (λ r. record r { agent_profile_id = agent_profile_id }) s
