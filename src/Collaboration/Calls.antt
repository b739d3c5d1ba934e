-- ===== src/Collaboration/Calls.antt =====
-- Whom a message calls, and what is stored of it (src/sovereign_ai/collaboration/service.py).
use Prim.Native.Nat.{max}
use Prim.Native.String.{count}
use achilles.Prelude.{
  ℕ, suc, ◌+◌, ◌≤◌, String, ◌≡◌, refl, subst, Bool, true, false, ◌&&◌, ◌||◌, ◌==◌, leb, ltb, Option,
  none, some, List, [], ◌∷◌, ◌++◌, any, length, if◌then◌else◌, Result, ok, raised, ◌>>=◌, All,
  All-map, arith, eq_refl, Bool-cases, inl, inr,
}
use achilles.Json
use achilles.Json.{Fields}
use achilles.Collaboration.Store.{
  IdentityKind, IdentityRecord, Canonical, CollaborationEvent, CollaborationStore, room_rows,
  get_identity,
}
use achilles.Collaboration.Rooms.{is_member, append_event}
use achilles.Collaboration.Append.{append_event_stores}
use achilles.Collaboration.Text.{is_empty, strip}
use achilles.Collaboration.Service.{Config, AgentDispatch}
use achilles.Collaboration.Messages.{
  agent_of, callable, called, go_on, dispatch_of, dispatches, mentions_of, bad_parent,
  message_payload, post_message,
}

-- A dispatch goes to an agent of the room that the message mentions.
pub record IsCall (s : CollaborationStore) (event : CollaborationEvent) (mentions : List String)
    (d : AgentDispatch) : Type 0 where
  pub from_event : d.source_event_id ≡ event.event_id
  pub in_room : d.room_id ≡ event.room_id
  pub mentioned : any (λ m. m == d.agent_id) mentions ≡ true
  pub of_member : is_member event.room_id d.agent_id s ≡ true
  pub identity : IdentityRecord
  pub is_known : get_identity d.agent_id s ≡ some identity
  pub is_agent : identity.kind ≡ IdentityKind.agent

some_inj {ℓ} : {A : Type ℓ} {a b : A} → some a ≡ some b → a ≡ b
some_inj h = cc

ok_inj {ℓ} : {A : Type ℓ} {a b : A} → ok a ≡ ok b → a ≡ b
ok_inj h = cc

IsCall-skip :
    (s : CollaborationStore) (event : CollaborationEvent) (m : String) (mentions : List String)
    (d : AgentDispatch)
    → IsCall s event mentions d
    → IsCall s event (m ∷ mentions) d
IsCall-skip s event m mentions d c = record {
  from_event = c.from_event;
  in_room = c.in_room;
  mentioned = rw c.mentioned (ground arith);
  of_member = c.of_member;
  identity = c.identity;
  is_known = c.is_known;
  is_agent = c.is_agent;
}

dispatch_of-IsCall :
    (config : Config) (event : CollaborationEvent) (m : String) (mentions : List String)
    (s : CollaborationStore) (d : AgentDispatch)
    → dispatch_of config event m s ≡ some d
    → IsCall s event (m ∷ mentions) d
unfolding dispatch_of
dispatch_of-IsCall config event m mentions s d h = go (get_identity m s) refl h
  where
    go :
        (o : Option IdentityRecord)
        → get_identity m s ≡ o
        → called config event m s (callable (is_member event.room_id m s) (agent_of o)) ≡ some d
        → IsCall s event (m ∷ mentions) d
    go none e q = cc
    go (some i) e q = at_kind i.kind refl (is_member event.room_id m s) refl i.agent q
      where
        at_kind :
            (k : IdentityKind)
            → i.kind ≡ k
            → (b : Bool) → is_member event.room_id m s ≡ b
            → (a : Option Fields)
            → called config event m s (callable b (elim k [ IdentityKind.agent ↦ a | _ ↦ none ]))
              ≡ some d
            → IsCall s event (m ∷ mentions) d
        at_kind IdentityKind.human f true g a r = cc
        at_kind IdentityKind.human f false g a r = cc
        at_kind IdentityKind.system f true g a r = cc
        at_kind IdentityKind.system f false g a r = cc
        at_kind IdentityKind.agent f b g none r = cc
        at_kind IdentityKind.agent f true g (some Fields.end) r = cc
        at_kind IdentityKind.agent f false g (some Fields.end) r = cc
        at_kind IdentityKind.agent f false g (some (Fields.field j v fs)) r = cc
        at_kind IdentityKind.agent f true g (some (Fields.field j v fs)) r =
            subst (IsCall s event (m ∷ mentions)) (some_inj r) (record {
              from_event = refl;
              in_room = refl;
              mentioned = rw (eq_refl m) refl;
              of_member = g;
              identity = i;
              is_known = e;
              is_agent = f;
            })

dispatches-IsCall :
    (config : Config) (event : CollaborationEvent) (found : ℕ) (mentions : List String)
    (s : CollaborationStore)
    → All (IsCall s event mentions) (dispatches config event found mentions s)
unfolding dispatches
dispatches-IsCall config event found [] s = tt
dispatches-IsCall config event found (m ∷ mentions) s =
    go (dispatch_of config event m s) refl (λ n. dispatches config event n mentions s)
      (λ n.
        All-map (IsCall s event mentions) (IsCall s event (m ∷ mentions))
          (IsCall-skip s event m mentions) (dispatches config event n mentions s)
          (dispatches-IsCall config event n mentions s))
  where
    go :
        (o : Option AgentDispatch)
        → dispatch_of config event m s ≡ o
        → (rest : ℕ → List AgentDispatch) → ((n : ℕ) → All (IsCall s event (m ∷ mentions)) (rest n))
        → All (IsCall s event (m ∷ mentions)) (go_on config.max_agent_mentions found o rest)
    go none e rest ih = ih found
    go (some d) e rest ih = (
      dispatch_of-IsCall config event m mentions s d e,
      elim (Bool-cases (leb config.max_agent_mentions (suc found))) [
        | inl full ↦ rw full tt
        | inr more ↦ rw more (ih (suc found))
      ],
    )

-- The loop stops with the dispatch that reaches the limit.
dispatches_bound :
    (config : Config) (event : CollaborationEvent) (found : ℕ) (mentions : List String)
    (s : CollaborationStore)
    → found + length (dispatches config event found mentions s)
      ≤ max (suc found) config.max_agent_mentions
unfolding dispatches
dispatches_bound config event found [] s = omega arith
dispatches_bound config event found (m ∷ mentions) s =
    go (dispatch_of config event m s) (λ n. dispatches config event n mentions s)
      (λ n. dispatches_bound config event n mentions s)
  where
    go :
        (o : Option AgentDispatch) (rest : ℕ → List AgentDispatch)
        → ((n : ℕ) → n + length (rest n) ≤ max (suc n) config.max_agent_mentions)
        → found + length (go_on config.max_agent_mentions found o rest)
          ≤ max (suc found) config.max_agent_mentions
    go none rest ih = ih found
    go (some d) rest ih = ground (arith, ih (suc found))

module _ (is_letter : ℕ → Bool) (digest : Canonical → String) (config : Config) where
  -- What a message that is accepted leaves.
  pub record Posted (s s' : CollaborationStore) (room_id actor_id content : String)
      (metadata : Fields) (event : CollaborationEvent) (calls : List AgentDispatch) : Type 0 where
    pub by_member : is_member room_id actor_id s ≡ true
    pub not_empty : is_empty (strip content) ≡ false
    pub not_long : count (strip content) ≤ config.max_message_chars
    pub stored : room_rows room_id s' ≡ room_rows room_id s ++ event ∷ []
    pub newest : s'.events ≡ s.events ++ event ∷ []
    pub says :
        event.payload
        ≡ Json.sorted (
            message_payload
              (strip content)
              (mentions_of is_letter digest config (strip content))
              metadata)
    pub of_room : event.room_id ≡ room_id
    pub of_actor : event.actor_id ≡ actor_id
    pub few : length calls ≤ max 1 config.max_agent_mentions
    pub each : All (IsCall s' event (mentions_of is_letter digest config (strip content))) calls

  -- A message that is accepted is one of a member, neither empty nor too long without the space around
  -- it; it is the last event of its room, and each agent that it calls is a member of the room that
  -- it mentions. It calls no more agents than the limit, or one if that is zero.
  pub post_message-Posted :
      (event_id : String) (now_ns : ℕ) (room_id actor_id content : String) (parent : Option String)
      (dispatch_mentions : Bool) (metadata : Fields) (s s' : CollaborationStore)
      (event : CollaborationEvent) (calls : List AgentDispatch)
      → post_message is_letter digest config event_id now_ns room_id actor_id content parent
          dispatch_mentions metadata s
        ≡ ok ((event, calls), s')
      → Posted s s' room_id actor_id content metadata event calls
  unfolding post_message
  post_message-Posted event_id now_ns room_id actor_id content parent dispatch_mentions metadata s
        s' event calls h =
      elim (Bool-cases (
        is_empty body
        || ltb config.max_message_chars (count body)
        || bad_parent room_id parent s)) [
          | inl bad ↦ cc (rw bad at h)
          | inr good ↦
              go
                (append_event digest event_id now_ns room_id "message.posted" actor_id
                  (message_payload body (mentions_of is_letter digest config body) metadata) parent
                  s)
                refl (rw good at h) good
        ]
    where
      body : String
      body = strip content

      mentions : List String
      mentions = mentions_of is_letter digest config body

      bounded :
          (e : CollaborationEvent) (t : CollaborationStore) (b : Bool)
          → (length (if b then dispatches config e 0 mentions t else [])
              ≤ max 1 config.max_agent_mentions)
            × All (IsCall t e mentions) (if b then dispatches config e 0 mentions t else [])
      bounded e t true = (
        omega (arith, dispatches_bound config e 0 mentions t),
        dispatches-IsCall config e 0 mentions t,
      )
      bounded e t false = (omega arith, tt)

      go :
          (r : Result (CollaborationEvent × CollaborationStore))
          → append_event digest event_id now_ns room_id "message.posted" actor_id
              (message_payload body mentions metadata)
              parent
              s
            ≡ r
          → ◌>>=◌ {B = (CollaborationEvent × List AgentDispatch) × CollaborationStore} r (λ (e, t).
            ok (
              (
                e,
                (if dispatch_mentions && config.auto_dispatch_mentions
                    then dispatches config e 0 mentions t
                    else []),
              ),
              t,
            ))
            ≡ ok ((event, calls), s')
          → is_empty body
              || ltb config.max_message_chars (count body)
              || bad_parent room_id parent s
            ≡ false
          → Posted s s' room_id actor_id content metadata event calls
      go (raised x) e q good = cc
      go (ok (e, t)) f q good =
          let b = dispatch_mentions && config.auto_dispatch_mentions in
          let (member, split, of_room, of_actor, says, newest) =
            append_event_stores digest event_id now_ns room_id "message.posted" actor_id
              (message_payload body mentions metadata) parent s t e f in
          let (few, each) = bounded e t b in
          subst
            (λ (x : (CollaborationEvent × List AgentDispatch) × CollaborationStore).
              Posted s x.1 room_id actor_id content metadata x.0.0 x.0.1)
            (ok_inj q)
            (record {
              by_member = member;
              not_empty = ground (arith, good);
              not_long = ground (arith, good);
              stored = split;
              newest = newest;
              says = says;
              of_room = of_room;
              of_actor = of_actor;
              few = few;
              each = each;
            })
