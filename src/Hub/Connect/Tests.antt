-- ===== src/Hub/Connect/Tests.antt =====
-- A socket that connects as one identity, then as another, and closes.
use agent_mesh_platform.Hub.Connect.Twice.{connect_twice}
use agent_mesh_platform.Hub.Connect.Owned.{connects, closes, acts, acts-IsOwned}
use agent_mesh_platform.Hub.Connect.Maps.{IsOwned, IsNamed}
use agent_mesh_platform.Hub.Connect.{
  duplicate_identity, connected_as, touch_last_seen, pending_messages, replayed, deliver_each,
  deliver_pending, deliver_granted, declare_each, wired, ConnectParams, connect_as, perform_connect,
  close_socket,
}
use agent_mesh_platform.Hub.Send.{string, Hub}
use agent_mesh_platform.Hub.Ownership.{empty, generation_of, owner, claim}
use agent_mesh_platform.Store.Messages.{
  MailStatus, Channel, MailStatus-discrete, mail_status_eq, MessageRow,
}
use agent_mesh_platform.Store.Agents.{Agent}
use agent_mesh_platform.Base.Order.{order_by}
use agent_mesh_platform.Base.Map.{get, put}
use agent_mesh_platform.Base.{
  String-discrete, ◌==◌, string_eq, nat_eq, distinct, select, exists, update, ℕ, String, ◌≡◌, refl,
  Bool, not, none, some, [], ◌∷◌, arith, ℕ_discrete,
}

abbrev agent : String → Agent
agent identity = record {
  identity = identity;
  type = none;
  description = none;
  last_seen = none;
  created_at = 1;
  deleted_at = none;
  can_proxy = 0;
  tenant = "default";
  last_send_at = none;
}

abbrev waiting : String → ℕ → MessageRow
waiting id ts = record {
  id = id;
  from_agent = "b";
  to_agent = "a";
  sent_by = some "b";
  content = "hello";
  reply_to = none;
  status = MailStatus.pending;
  ts = ts;
  leased_until = none;
  via = some Channel.mesh;
}

abbrev hub : Hub
hub = record {
  agents = agent "a" ∷ agent "b" ∷ [];
  types = [];
  groups = record { groups = []; members = []; egress = [] };
  sources = [];
  messages = waiting "m2" 2 ∷ waiting "m1" 1 ∷ [];
  stats = [];
  idempotency = [];
  presence = record {
    online_agents = [];
    ws_identities = [];
    proxy_map = [];
    ws_proxies = [];
    ownership = empty;
  };
  refusals = [];
  events = [];
  frames = [];
}

-- The frame of `m2` does not land.
abbrev takes : String → Bool
takes id = not (id == "m2")

abbrev as_a : ConnectParams
as_a = record { identity = string "a"; proxy_for = [] }

abbrev as_b : ConnectParams
as_b = record { identity = string "b"; proxy_for = [] }

abbrev first_hub : Hub
first_hub = (perform_connect takes hub 1 as_a none 5).0

abbrev second_hub : Hub
second_hub = (perform_connect takes first_hub 1 as_b none 5).0

connected_a : perform_connect takes hub 1 as_a none 5 ≡ (first_hub, connected_as "a")
unfolding perform_connect connect_as claim generation_of owner get exists String-discrete ℕ_discrete
connected_a = refl

connected_b : perform_connect takes first_hub 1 as_b none 5 ≡ (second_hub, connected_as "b")
unfolding perform_connect connect_as claim generation_of owner get put exists String-discrete
    ℕ_discrete touch_last_seen update deliver_granted deliver_pending deliver_each pending_messages
    select order_by wired declare_each replayed MailStatus-discrete
connected_b = refl

acts-IsOwned_example :
    IsOwned (acts takes hub ((connects 1 as_a none, 5) ∷ (closes 1, 6) ∷ [])).presence
    × IsNamed (acts takes hub ((connects 1 as_a none, 5) ∷ (closes 1, 6) ∷ [])).presence
unfolding get
acts-IsOwned_example =
    acts-IsOwned takes hub ((connects 1 as_a none, 5) ∷ (closes 1, 6) ∷ [])
      (λ x ws k. absurd (ground arith)) (λ ws. refl)

connect_twice_example :
    (get "a" (close_socket second_hub 1 7).presence.online_agents ≡ some 1)
    × (owner (close_socket second_hub 1 7).presence.ownership "a" ≡ some 1)
    × ((i : ℕ) × (n : ℕ) × ((perform_connect takes (close_socket second_hub 1 7) 2 as_a none 8).1
          ≡ duplicate_identity i n))
unfolding perform_connect connect_as claim generation_of owner get put exists String-discrete
    ℕ_discrete touch_last_seen update deliver_granted deliver_pending deliver_each pending_messages
    select order_by wired declare_each replayed MailStatus-discrete close_socket
connect_twice_example =
    connect_twice takes hub first_hub second_hub 1 2 as_a as_b none 5 7 8 "a" "b" connected_a
      connected_b (distinct "a" "b" refl) (omega arith) refl
