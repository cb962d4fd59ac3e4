-- ===== src/Hub/Send/Tests.antt =====
-- A sender, a recipient on a socket that takes frames, and one on a socket that drops them.
use agent_mesh_platform.Hub.Send.Dropped.{handle_send-dropped}
use agent_mesh_platform.Hub.Send.Retry.{at_later, handle_send-retry}
use agent_mesh_platform.Hub.Send.Unsent.{IsUnsent, handle_send-refused, handle_send-allowed}
use agent_mesh_platform.Store.Entitlement.{entitled, may_proxy}
use agent_mesh_platform.Hub.Send.Handler.{
  deliver_now, persist, deliver, send_envelope, Request, send_from, handle_send,
}
use agent_mesh_platform.Hub.Send.{
  undefined, string, SendParams, Runtime, Hub, recipient_deleted, not_persisted, egress_denied,
  duplicate_of, sent_as, is_deleted, check_key, declared, egress_of, authorize,
}
use agent_mesh_platform.Hub.Presence.{Presence, socket_of}
use agent_mesh_platform.Hub.Dormancy.{check_dormant_source}
use agent_mesh_platform.Mailbox.{reply_channel, remember, accept}
use agent_mesh_platform.Store.Groups.{Rule, group_of, may_send}
use agent_mesh_platform.Store.Messages.{
  MailStatus, delivered, pending, Channel, mail_status_eq, MessageRow, message_by_id,
}
use agent_mesh_platform.Store.Agents.{Agent}
use agent_mesh_platform.Store.Sources.{mark_send}
use agent_mesh_platform.Hub.Refusals.{key_eq}
use mathlib.Core.List.{append-nil}
use agent_mesh_platform.Base.Map.{get}
use agent_mesh_platform.Base.{
  if◌then◌else◌, String-discrete, ◌==◌, string_eq, nat_eq, first, exists, is_some, String, ◌≡◌,
  refl, sym, ◌⊎◌, true, false, not, none, some, [], ◌∷◌, ℕ_discrete,
}

abbrev agent : String → Agent
agent identity = record {
  identity = identity;
  type = none;
  description = none;
  last_seen = none;
  created_at = 1;
  deleted_at = none;
  can_proxy = 0;
  tenant = "default";
  last_send_at = none;
}

-- Socket 9 drops what is sent to it.
abbrev pub runtime : Runtime
runtime = record {
  js_length = λ s. 3;
  sha256 = λ to from content reply_to. content;
  prefix_of = λ a. a;
  lands = λ ws. not (ws == 9);
  inserts = true;
  stamps = true;
  commits = true;
  dormancy_seconds = 10800;
}

abbrev presence : Presence
presence = record {
  online_agents = ("a", 1) ∷ ("b", 2) ∷ ("gone", 9) ∷ [];
  ws_identities = (1, "a") ∷ (2, "b") ∷ (9, "gone") ∷ [];
  proxy_map = [];
  ws_proxies = [];
  ownership = record { next_generation = 0; generations = []; identities = []; owners = [] };
}

abbrev rule : Rule
rule = record {
  tenant = "default";
  from_group = "default";
  to_group = "default";
  granted_at = 1;
  granted_by = "seed";
}

abbrev pub hub : Hub
hub = record {
  agents = agent "a" ∷ agent "b" ∷ agent "gone" ∷ [];
  types = [];
  groups = record { groups = []; members = []; egress = rule ∷ [] };
  sources = [];
  messages = [];
  stats = [];
  idempotency = [];
  presence = presence;
  refusals = [];
  events = [];
  frames = [];
}

abbrev closed_hub : Hub
closed_hub = record hub { groups = record { groups = []; members = []; egress = [] } }

abbrev pub params : String → SendParams
params to = record {
  to = string to;
  content = string "hello";
  from = undefined;
  reply_to = none;
  client_message_id = string "k-1";
}

abbrev pub request : Request
request = record { msg_id = "msg_1"; observed = none; raw = none; sig = none; via = Channel.mesh }

sent_to_b :
    handle_send runtime hub 1 (params "b") request 5000
    ≡ ((handle_send runtime hub 1 (params "b") request 5000).0, sent_as "msg_1" delivered)
unfolding handle_send send_from get String-discrete ℕ_discrete check_key first exists authorize
    may_send group_of check_dormant_source send_envelope deliver_now socket_of reply_channel persist
    accept remember deliver
sent_to_b = refl

pub sent_to_gone :
    handle_send runtime hub 1 (params "gone") request 5000
    ≡ ((handle_send runtime hub 1 (params "gone") request 5000).0, sent_as "msg_1" pending)
unfolding handle_send send_from get String-discrete ℕ_discrete check_key first exists authorize
    may_send group_of check_dormant_source send_envelope deliver_now socket_of reply_channel persist
    accept remember deliver
sent_to_gone = refl

refused_to_b : handle_send runtime closed_hub 1 (params "b") request 5000 ≡ (
  (handle_send runtime closed_hub 1 (params "b") request 5000).0,
  egress_denied "default" "default",
)
unfolding handle_send send_from get String-discrete ℕ_discrete check_key first exists authorize
    may_send group_of
refused_to_b = refl

abbrev after : Hub
after = (handle_send runtime hub 1 (params "b") request 5000).0

abbrev pub after_drop : Hub
after_drop = (handle_send runtime hub 1 (params "gone") request 5000).0

abbrev after_refusal : Hub
after_refusal = (handle_send runtime closed_hub 1 (params "b") request 5000).0

handle_send-refused_example :
    IsUnsent runtime closed_hub 1
      (params "b")
      5000
      after_refusal
      (egress_denied "default" "default")
handle_send-refused_example =
    handle_send-refused runtime closed_hub 1 (params "b") request 5000 after_refusal
      (egress_denied "default" "default") refused_to_b tt

-- The commit fails after the stamp: no message, and the stamp stays.
abbrev full_volume : Runtime
full_volume = record runtime { commits = false }

unsent_but_stamped :
    handle_send full_volume hub 1 (params "b") request 5000
    ≡ (record hub { agents = mark_send hub.agents "a" 5 }, not_persisted)
unfolding handle_send send_from get String-discrete ℕ_discrete check_key first exists authorize
    may_send group_of check_dormant_source send_envelope deliver_now socket_of reply_channel persist
    accept remember deliver
unsent_but_stamped = refl

handle_send-allowed_example :
    (sender : String) × (to : String) × (get 1 presence.ws_identities ≡ some sender)
    × (string "b" ≡ string to)
    × (is_deleted to hub.agents ≡ false)
    × ((egress_of hub sender to).ok ≡ true)
    × (check_dormant_source 10800 runtime.prefix_of hub.agents [] sender sender none 5000 ≡ none)
    × ((sender ≡ sender)
        ⊎ ((may_proxy hub.agents [] sender sender ≡ entitled)
            × (declared presence 1 sender ≡ true)))
handle_send-allowed_example =
    handle_send-allowed runtime hub 1 (params "b") request 5000 after "msg_1" delivered sent_to_b

abbrev again : Request
again = record request { msg_id = "msg_2" }

-- The sender has come back on another socket, and `b` is gone.
abbrev returned : Hub
returned = record after {
  agents = agent "a" ∷ record (agent "b") { deleted_at = some 8 } ∷ [];
  presence = record presence { ws_identities = (5, "a") ∷ [] };
}

handle_send-retry_example :
    (sender : String) × (to : String) × (get 1 presence.ws_identities ≡ some sender)
    × (string "b" ≡ string to)
    × (handle_send
          (at_later runtime (λ _. false) false false false)
          returned
          5
          (params "b")
          again
          9000
        ≡ (
          returned,
          if is_deleted to returned.agents
              then recipient_deleted
              else duplicate_of "msg_1"
                  (if is_some (deliver_now hub sender to none) then delivered else pending),
        ))
unfolding get ℕ_discrete
handle_send-retry_example =
    handle_send-retry runtime hub 1 (params "b") request 5000 after "msg_1" "k-1" delivered returned
      5 again 9000 [] (λ _. false) false false false sent_to_b refl refl
      (sym (append-nil after.idempotency))

handle_send-dropped_example :
    ◌≡◌ {A = MailStatus} pending pending
    × (handle_send runtime after_drop 1 (params "gone") again 9000
        ≡ (after_drop, duplicate_of "msg_1" delivered))
    × ((m : MessageRow) × (message_by_id after_drop.messages "msg_1" ≡ some m)
        × (m.status ≡ pending))
unfolding get String-discrete ℕ_discrete deliver_now socket_of reply_channel
handle_send-dropped_example =
    handle_send-dropped runtime hub 1 (params "gone") request again 5000 9000 after_drop "msg_1"
      "k-1" "a" "gone" pending 9 sent_to_gone refl refl refl refl refl
