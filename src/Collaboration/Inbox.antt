-- ===== src/Collaboration/Inbox.antt =====
-- The mailbox of an agent that a message calls (src/sovereign_ai/collaboration/service.py).
use achilles.Prelude.{
  ℕ, zero, suc, ◌-◌, ◌<◌, String, ◌≡◌, refl, ap, ◌∙◌, Bool, true, false, not, ◌&&◌, ◌==◌, some,
  List, [], ◌∷◌, ◌++◌, any, take, ok, All-middle, arith, eq_iff,
}
use mathlib.Core.List.{reverse, reverse-append}
use achilles.Json
use achilles.Json.{Json, Items, Fields, text, array, cons}
use achilles.Table
use achilles.Table.Queries
use achilles.Collaboration.Store.{Canonical, CollaborationEvent, CollaborationStore}
use achilles.Collaboration.Rooms.{is_member, clamp_limit, events_for_member}
use achilles.Collaboration.Text.{strip}
use achilles.Collaboration.Service.{
  Config, AgentDispatch, Mailbox, holds, in_mentions, payload_get, is_mentioned, box_of, mailbox,
}
use achilles.Collaboration.Messages.{texts, message_fields, message_payload, mentions_of}
use achilles.Collaboration.Calls.{IsCall, Posted}

holds-texts : (k : String) (ts : List String) → holds k (texts ts) ≡ any (λ t. t == k) ts
unfolding holds texts
holds-texts k [] = refl
holds-texts k (t ∷ ts) = ground (arith, eq_iff k t, eq_iff t k, holds-texts k ts)

sorted_items-texts : (ts : List String) → Json.sorted_items (texts ts) ≡ texts ts
unfolding texts Json.sorted_items Json.sorted
sorted_items-texts [] = refl
sorted_items-texts (t ∷ ts) = ap (cons (text t)) (sorted_items-texts ts)

take_first {ℓ} :
    {A : Type ℓ} (n : ℕ) (x : A) (xs : List A) → 0 < n → take n (x ∷ xs) ≡ x ∷ take (n - 1) xs
take_first zero x xs h = absurd (omega arith)
take_first (suc n) x xs h = ap (λ k. x ∷ take k xs) (omega arith)

-- The newest event is the first that a member of its room finds.
events_for_member-newest :
    (identity_id : String) (limit : ℕ) (s : CollaborationStore) (earlier : List CollaborationEvent)
    (e : CollaborationEvent)
    → s.events ≡ earlier ++ e ∷ []
    → is_member e.room_id identity_id s ≡ true
    → (rest : List CollaborationEvent) × (events_for_member identity_id limit s ≡ e ∷ rest)
unfolding events_for_member
events_for_member-newest identity_id limit s earlier e newest member =
    let joins : (CollaborationEvent → Bool) = λ x. is_member x.room_id identity_id s in
    let found : Table.select joins s.events ≡ Table.select joins earlier ++ e ∷ [] =
      ap (Table.select joins) newest ∙ Queries.select-append joins earlier e ∙ rw member refl in
    let backwards : reverse (Table.select joins s.events)
        ≡ e ∷ reverse (Table.select joins earlier) =
      ap reverse found ∙ reverse-append (Table.select joins earlier) (e ∷ []) in
    (
      _,
      ap (take (clamp_limit 1000 limit)) backwards
          ∙ take_first (clamp_limit 1000 limit) e (reverse (Table.select joins earlier))
              (omega arith),
    )

-- A message mentions whom its text mentions.
is_mentioned-message :
    (k body : String) (mentions : List String) (metadata : Fields) (e : CollaborationEvent)
    → e.payload ≡ Json.sorted (message_payload body mentions metadata)
    → any (λ m. m == k) mentions ≡ true
    → is_mentioned k e ≡ true
unfolding payload_get Json.get Json.sorted
is_mentioned-message k body mentions metadata e says there =
    let written : Json.get (Json.sorted_fields (message_fields body mentions metadata)) "mentions"
        ≡ some (Json.sorted (array (texts mentions))) =
      Json.get-sorted_fields (message_fields body mentions metadata) "mentions"
        (array (texts mentions)) refl in
    ap (λ j. in_mentions k (payload_get j "mentions")) says
    ∙ ap (λ o. in_mentions k o) written
    ∙ ap (λ x. holds k x) (sorted_items-texts mentions)
    ∙ holds-texts k mentions
    ∙ there

-- An agent that a message calls finds it first in its inbox, unless it wrote it itself.
pub called_agent_finds_message :
    (is_letter : ℕ → Bool) (digest : Canonical → String) (config : Config)
    (s s' : CollaborationStore) (room_id actor_id content : String) (metadata : Fields)
    (event : CollaborationEvent) (before after : List AgentDispatch) (d : AgentDispatch) (limit : ℕ)
    → Posted is_letter digest config s s' room_id actor_id content metadata event
        (before ++ d ∷ after)
    → actor_id == d.agent_id ≡ false
    → (box : Mailbox) × (rest : List CollaborationEvent) × (mailbox d.agent_id limit s' ≡ ok box)
      × (box.inbox ≡ event ∷ rest)
unfolding mailbox Table.select
called_agent_finds_message is_letter digest config s s' room_id actor_id content metadata event
      before after d limit p other =
    let call : IsCall s' event (mentions_of is_letter digest config (strip content)) d =
      (All-middle (IsCall s' event (mentions_of is_letter digest config (strip content))) before
        after d p.each).0 in
    let (rest, found) =
      events_for_member-newest d.agent_id limit s' s.events event p.newest call.of_member in
    let addressed : (CollaborationEvent → Bool) =
      λ e. not (e.actor_id == d.agent_id) && is_mentioned d.agent_id e in
    let mentioned : is_mentioned d.agent_id event ≡ true =
      is_mentioned-message d.agent_id (strip content)
        (mentions_of is_letter digest config (strip content)) metadata event p.says
        call.mentioned in
    let is_addressed : addressed event ≡ true = rw (p.of_actor, other, mentioned) refl in
    (
      box_of d.agent_id (events_for_member d.agent_id limit s'),
      Table.select addressed rest,
      rw call.is_known refl,
      ap (Table.select addressed) found ∙ rw is_addressed refl,
    )
