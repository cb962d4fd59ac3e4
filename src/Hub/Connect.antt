-- ===== src/Hub/Connect.antt =====
-- packages/hub/src/rpc/connect.ts: `mesh.connect`, and the replay of what waited; and the `close` handler
-- of packages/hub/src/main.ts. The closing of a refused socket, which the code puts off by a timer, is
-- an event of its own. Whether a replayed frame lands is an argument, by the message's id.
pub mod Replay
pub mod Maps
pub mod Owned
pub mod Twice
mod Tests
use agent_mesh_platform.Hub.Send.Handler.{}
use agent_mesh_platform.Hub.Send.{
  Param, delivered_event, MeshEvent, Notification, message, Hub, text_of,
}
use agent_mesh_platform.Hub.Presence.{Presence, drop_connection}
use agent_mesh_platform.Hub.Ownership.{ConnectionOwnership, Claim, conflict, claim}
use agent_mesh_platform.Hub.RawParams.{}
use agent_mesh_platform.Store.Entitlement.{entitled, refused, may_proxy}
use agent_mesh_platform.Store.Sources.{truthy, record_source}
use agent_mesh_platform.Store.Messages.{MailStatus, mail_status_eq, MessageRow, is_id}
use agent_mesh_platform.Store.Agents.{Agent, AgentType, is_identity}
use agent_mesh_platform.Base.Order.{order_by}
use agent_mesh_platform.Base.Map.{get, put}
use agent_mesh_platform.Base.{
  leb, if◌then◌else◌, ◌==◌, string_eq, nat_eq, select, exists, update, insert_absent, get_or,
  is_some, ℕ, String, Bool, not, ◌&&◌, Option, none, some, List, [], ◌∷◌, ◌++◌,
}

pub data ConnectAnswer : Type 0 where
  identity_required : ConnectAnswer
  identity_not_registered : (identity : String) → ConnectAnswer
  duplicate_identity : (incumbent_generation contender_generation : ℕ) → ConnectAnswer
  connected_as : (identity : String) → ConnectAnswer

-- `stmtAgentExists`.
abbrev pub is_live : String → List Agent → Bool
is_live identity agents = exists (λ a. a.identity == identity && not (is_some a.deleted_at)) agents

-- `stmtUpdateLastSeen`.
unfoldable pub touch_last_seen : List Agent → String → ℕ → List Agent
touch_last_seen agents identity now =
    update (is_identity identity) (λ a. record a { last_seen = some now }) agents

-- `stmtPendingMessages`.
unfoldable pub pending_messages : List MessageRow → String → List MessageRow
pending_messages db identity =
    order_by (λ a b. leb a.ts b.ts)
      (select (λ m. m.to_agent == identity && m.status == MailStatus.pending) db)

abbrev pub replay_frame : MessageRow → Notification
replay_frame m = message m.id m.from_agent m.to_agent m.sent_by m.content m.reply_to

-- `recordDelivered`.
abbrev pub delivered_row_event : MessageRow → MeshEvent
delivered_row_event m = record {
  event_type = delivered_event;
  message_id = m.id;
  from = m.from_agent;
  to = m.to_agent;
  sent_by = get_or m.sent_by m.from_agent;
  content = m.content;
  reply_to = m.reply_to;
  sender_sig = none;
  sender_params = b'{' ∷ b'}' ∷ [];
}

-- One message that landed.
unfoldable pub replayed : Hub → ℕ → MessageRow → Hub
replayed hub ws m = record hub {
  frames = hub.frames ++ (ws, replay_frame m) ∷ [];
  messages = update (is_id m.id) (λ r. record r { status = MailStatus.delivered }) hub.messages;
  events = hub.events ++ delivered_row_event m ∷ [];
}

-- The loop over what waits: it stops at the first frame that does not land.
unfoldable pub deliver_each : (String → Bool) → Hub → ℕ → List MessageRow → Hub
deliver_each takes hub ws [] = hub
deliver_each takes hub ws (m ∷ ms) =
    let rest = deliver_each takes (replayed hub ws m) ws ms in if takes m.id then rest else hub

unfoldable pub deliver_pending : (String → Bool) → Hub → String → ℕ → Hub
deliver_pending takes hub identity ws =
    deliver_each takes hub ws (pending_messages hub.messages identity)

unfoldable pub deliver_granted : (String → Bool) → Hub → List String → ℕ → Hub
deliver_granted takes hub [] ws = hub
deliver_granted takes hub (pid ∷ pids) ws =
    deliver_granted takes (deliver_pending takes hub pid ws) pids ws

-- The proxy claims of one socket: the map, the socket's set, and what was granted.
pub record Claims : Type 0 where
  pub proxy_map : List (String × ℕ)
  pub proxied : List String
  pub granted : List String

abbrev pub add_to : String → List String → List String
add_to pid set = insert_absent (λ s. s == pid) pid set

unfoldable pub declare_each :
    List Agent → List AgentType → String → ℕ → Claims → List Param → Claims
declare_each agents types identity ws c [] = c
declare_each agents types identity ws c (p ∷ ps) =
    declare_each agents types identity ws
      (elim (text_of p) [
        | none ↦ c
        | some pid ↦ elim (may_proxy agents types identity pid) [
          | refused reason ↦ c
          | entitled ↦ record {
            proxy_map = put pid ws c.proxy_map;
            proxied = add_to pid c.proxied;
            granted = c.granted ++ pid ∷ [];
          }
        ]
      ])
      ps

abbrev pub declare : List Agent → List AgentType → Presence → String → ℕ → List Param → Claims
declare agents types p identity ws proxy_for =
    declare_each agents types identity ws
      (record { proxy_map = p.proxy_map; proxied = get_or (get ws p.ws_proxies) []; granted = [] })
      proxy_for

-- The maps after a connect that owns its identity.
unfoldable pub wired : Presence → ConnectionOwnership → String → ℕ → List Param → Claims → Presence
wired p ownership identity ws proxy_for c = record p {
  ownership = ownership;
  online_agents = put identity ws p.online_agents;
  ws_identities = put ws identity p.ws_identities;
  proxy_map = c.proxy_map;
  ws_proxies = elim proxy_for [ [] ↦ p.ws_proxies | q ∷ qs ↦ put ws c.proxied p.ws_proxies ];
}

pub record ConnectParams : Type 0 where
  pub identity : Param
  pub proxy_for : List Param

unfoldable pub connect_as :
    (String → Bool) → Hub → ℕ → String → List Param → ℕ → Hub × ConnectAnswer
connect_as takes hub ws identity proxy_for now =
    let (ownership, claimed) = claim hub.presence.ownership identity ws in
    elim claimed [
      | conflict incumbent contender ↦ (
        record hub { presence = record hub.presence { ownership = ownership } },
        duplicate_identity incumbent contender,
      )
      | Claim.granted generation ↦
          let c = declare hub.agents hub.types hub.presence identity ws proxy_for in
          let hub' = record hub {
            agents = touch_last_seen hub.agents identity now;
            presence = wired hub.presence ownership identity ws proxy_for c;
          } in
          (
            deliver_granted takes (deliver_pending takes hub' identity ws) c.granted ws,
            connected_as identity,
          )
    ]

unfoldable pub perform_connect :
    (String → Bool) → Hub → ℕ → ConnectParams → Option String → ℕ → Hub × ConnectAnswer
perform_connect takes hub ws params observed now = elim (text_of params.identity) [
  | none ↦ (hub, identity_required)
  | some identity ↦
      if not (is_live identity hub.agents)
      then (hub, identity_not_registered identity)
      else connect_as takes
          (record hub { sources = record_source hub.sources identity observed now }) ws identity
          params.proxy_for now
]

-- The `close` handler of a socket.
unfoldable pub close_socket : Hub → ℕ → ℕ → Hub
close_socket hub ws now = elim (truthy (get ws hub.presence.ws_identities)) [
  | none ↦ hub
  | some identity ↦ record hub {
    presence = drop_connection hub.presence ws identity;
    agents = touch_last_seen hub.agents identity now;
  }
]
