-- ===== src/Collaboration/Bootstrap/Tests.antt =====
-- A bootstrap of one room (src/sovereign_ai/collaboration/service.py).
use achilles.Prelude.{
  ℕ, String, ◌≡◌, refl, Bool, true, false, none, some, List, [], ◌∷◌, map, nat_eq, if◌then◌else◌,
  ok, raised, index_error, Supply,
}
use achilles.Collaboration.Store.{
  IdentityKind, Canonical, CollaborationEvent, CollaborationStore, empty,
}
use achilles.Collaboration.Rooms
use achilles.Collaboration.Rooms.{get_room, verify_chain, verified}
use achilles.Collaboration.Identities
use achilles.Collaboration.Messages
use achilles.Collaboration.Text.{validate_id}
use achilles.Collaboration.Service.{Config}
use achilles.Collaboration.Bootstrap.Opened.{IsOpen, bootstrap-IsOpen}
use achilles.Collaboration.Bootstrap.{RawIdentity, RawRoom, Boot, bootstrap}

abbrev no_letter : ℕ → Bool
no_letter c = false

abbrev supply : Supply
supply = record {
  uuid = λ n. if nat_eq n 5 then "e5" else if nat_eq n 6 then "e6" else "e";
  clock = λ n. n;
}

abbrev digest : Canonical → String
digest c = c.event_id

abbrev config : Config
config = record {
  max_message_chars = 100;
  max_agent_mentions = 3;
  context_events = 5;
  auto_dispatch_mentions = true;
}

abbrev identities : List RawIdentity
identities =
    record {
      id = " Ada ";
      display_name = "Ada";
      kind = IdentityKind.human;
      trust = "trusted_local";
      agent = none;
    }
    ∷ []

abbrev lab : RawRoom
lab = record {
  id = "lab";
  name = "Lab";
  purpose = none;
  members = some ("ada" ∷ []);
  canvas = some "plan";
}

abbrev fresh : Boot
fresh = record { drawn = 0; store = empty }

abbrev booted : CollaborationStore
booted = (bootstrap no_letter config supply digest identities (lab ∷ []) fresh).1.store

bootstrap_runs :
    map {B = String × String} (λ (e : CollaborationEvent). (e.event_type, e.actor_id)) booted.events
    ≡ ("canvas.updated", "ada") ∷ ("message.posted", "kernel") ∷ []
unfolding bootstrap get_room validate_id Identities.upsert_identity Rooms.create_room
    Rooms.add_member Rooms.latest_canvas Messages.update_canvas Rooms.append_event Rooms.events
bootstrap_runs = refl

-- A canvas without a member to write it ends the bootstrap.
bootstrap_fails :
    (bootstrap no_letter config supply digest identities
      (record lab { members = some [] } ∷ [])
      fresh).0
    ≡ raised index_error
unfolding bootstrap validate_id Identities.upsert_identity Rooms.create_room Rooms.add_member
    Rooms.latest_canvas
bootstrap_fails = refl

abbrev booted_to : Boot
booted_to = (bootstrap no_letter config supply digest identities (lab ∷ []) fresh).1

bootstrap_returns :
    bootstrap no_letter config supply digest identities (lab ∷ []) fresh ≡ (ok tt, booted_to)
unfolding bootstrap get_room validate_id Identities.upsert_identity Rooms.create_room
    Rooms.add_member Rooms.latest_canvas Messages.update_canvas Rooms.append_event Rooms.events
bootstrap_returns = refl

lab_id_runs : validate_id "lab" ≡ ok "lab"
unfolding validate_id
lab_id_runs = refl

bootstrap-IsOpen_example : IsOpen lab "lab" booted
bootstrap-IsOpen_example =
    bootstrap-IsOpen no_letter config supply digest identities (lab ∷ []) [] [] lab "lab" fresh
      booted_to refl lab_id_runs bootstrap_returns
