-- ===== src/Hub/Send/Handler.antt =====
-- packages/hub/src/rpc/send.ts: the routing of a message, its commit and its delivery, and the handler.
use agent_mesh_platform.Hub.Send.{
  Param, undefined, null, string, other, SendParams, Runtime, EventType, sent_event,
  delivered_event, pending_event, MeshEvent, Notification, message, delivered_to, Hub, SendAnswer,
  not_connected, to_required, content_required, recipient_deleted, not_persisted, egress_denied,
  sent_as, text_of, content_of, is_deleted, check_key, authorize,
}
use agent_mesh_platform.Mailbox.{reply_channel, MeshDb, AcceptOptions, accept}
use agent_mesh_platform.Hub.Presence.{socket_of}
use agent_mesh_platform.Hub.Dormancy.{}
use agent_mesh_platform.Hub.Signature.{SignatureEnvelope}
use agent_mesh_platform.Hub.RawParams.{Text, raw_params}
use agent_mesh_platform.Hub.Refusals.{RefusalKind, key_eq, record_refusal}
use agent_mesh_platform.Store.Entitlement.{}
use agent_mesh_platform.Store.Groups.{}
use agent_mesh_platform.Store.Sources.{truthy, mark_send}
use agent_mesh_platform.Store.Messages.{
  MailStatus, delivered, pending, Channel, mesh, mailbox, mail_status_eq, is_id, message_by_id,
}
use agent_mesh_platform.Store.Agents.{Agent, tenant_of}
use Prim.Native.String.{◌++◌ as str_append}
use agent_mesh_platform.Base.Map.{get}
use agent_mesh_platform.Base.{
  if◌then◌else◌, ◌==◌, string_eq, nat_eq, update, Result, ok, err, get_or, is_some, ℕ, ◌/◌, String,
  not, ◌&&◌, Option, none, some, List, [], ◌∷◌, ◌++◌,
}

-- A refusal by the egress rules is counted under the pair of the groups.
unfoldable pub counted_refusal : Hub → SendAnswer → Hub
counted_refusal hub (egress_denied from_group to_group) = record hub {
  refusals =
      record_refusal hub.refusals RefusalKind.egress
        (str_append from_group (str_append "->" to_group));
}
counted_refusal hub answer = hub

-- The `via` of the message that is answered: null where there is none.
abbrev pub parent_via : Hub → Option String → Option Channel
parent_via hub reply_to = elim (truthy reply_to) [
  | none ↦ none
  | some id ↦ elim (message_by_id hub.messages id) [ none ↦ none | some m ↦ m.via ]
]

-- The socket that the message is pushed to.
unfoldable pub deliver_now : Hub → String → String → Option String → Option ℕ
deliver_now hub from to reply_to =
    let recipient = socket_of hub.presence to in
    elim (reply_channel (record {
      in_reply_to_via = parent_via hub reply_to;
      recipient_live = is_some recipient;
      sender_live = is_some (socket_of hub.presence from);
    })) [ mesh ↦ recipient | mailbox ↦ none ]

-- One send: what the checks have established.
pub record Envelope : Type 0 where
  pub id : String
  pub from : String
  pub to : String
  pub sent_by : String
  pub content : String
  pub reply_to : Option String
  pub via : Channel
  pub client_message_id : Option String
  pub idempotency_digest : Option String
  pub sender_sig : Option SignatureEnvelope
  pub sender_params : Text

abbrev pub accept_options : Hub → Envelope → MailStatus → AcceptOptions
accept_options hub e status = record {
  id = e.id;
  from = e.from;
  to = e.to;
  sent_by = some e.sent_by;
  content = e.content;
  reply_to = e.reply_to;
  status = status;
  via = e.via;
  tenant = tenant_of hub.agents e.to;
  client_message_id = e.client_message_id;
  idempotency_digest = e.idempotency_digest;
}

abbrev pub stored_in : Hub → MeshDb (List Agent) → Hub
stored_in hub db = record hub {
  messages = db.messages;
  stats = db.stats;
  idempotency = db.idempotency;
  agents = db.other;
}

-- `accept`, with the stamp of the sender inside. A throw of the store leaves its own tables; where it
-- comes after the stamp, the stamp stays.
unfoldable pub persist : Runtime → Hub → Envelope → MailStatus → ℕ → Result Hub Hub
persist rt hub e status now =
    if not (rt.inserts && rt.stamps)
    then err hub
    else elim (accept (λ agents. mark_send agents e.from now)
        (record {
          messages = hub.messages;
          stats = hub.stats;
          idempotency = hub.idempotency;
          other = hub.agents;
        })
        (accept_options hub e status) now) [
          | err (constraint, agents) ↦ err (record hub { agents = agents })
          | ok db ↦
              if rt.commits then ok (stored_in hub db) else err (record hub { agents = db.other })
        ]

abbrev pub push_frame : Runtime → Hub → ℕ → Notification → Hub
push_frame rt hub ws n =
    if rt.lands ws then record hub { frames = hub.frames ++ (ws, n) ∷ [] } else hub

-- The sender is told, where it has another socket.
abbrev pub notify_sender : Runtime → Hub → Envelope → ℕ → Hub
notify_sender rt hub e recipient = elim (socket_of hub.presence e.from) [
  | none ↦ hub
  | some ws ↦ if ws == recipient then hub else push_frame rt hub ws (delivered_to e.id e.from e.to)
]

abbrev pub message_frame : Envelope → Notification
message_frame e = message e.id e.from e.to (some e.sent_by) e.content e.reply_to

-- The push, and the status that it leaves.
unfoldable pub deliver : Runtime → Hub → Envelope → Option ℕ → Hub × MailStatus
deliver rt hub e none = (hub, pending)
deliver rt hub e (some ws) =
    if rt.lands ws
    then (notify_sender rt (push_frame rt hub ws (message_frame e)) e ws, delivered)
    else (
      record hub {
        messages = update (is_id e.id) (λ m. record m { status = pending }) hub.messages;
      },
      pending,
    )

abbrev pub mesh_event : Envelope → EventType → MeshEvent
mesh_event e event_type = record {
  event_type = event_type;
  message_id = e.id;
  from = e.from;
  to = e.to;
  sent_by = e.sent_by;
  content = e.content;
  reply_to = e.reply_to;
  sender_sig = e.sender_sig;
  sender_params = e.sender_params;
}

abbrev pub outcome_event : MailStatus → EventType
outcome_event delivered = delivered_event
outcome_event pending = pending_event

unfoldable pub send_envelope : Runtime → Hub → Envelope → ℕ → Hub × SendAnswer
send_envelope rt hub e now =
    let target = deliver_now hub e.from e.to e.reply_to in
    let provisional = if is_some target then delivered else pending in
    elim (persist rt hub e provisional now) [
      | err left ↦ (left, not_persisted)
      | ok stored ↦
          let (hub', status) = deliver rt stored e target in
          (
            record hub' {
              events =
                  hub'.events ++ mesh_event e sent_event ∷ mesh_event e (outcome_event status) ∷ [];
            },
            sent_as e.id status,
          )
    ]

-- `typeof clientMessageId === "string" ? clientMessageId : null`.
abbrev pub key_text : Param → Option String
key_text undefined = none
key_text null = none
key_text (string s) = some s
key_text (other s) = none

-- `raw ? rawParams(raw) ?? "{}" : "{}"`.
abbrev pub params_text : Option Text → Text
params_text none = b'{' ∷ b'}' ∷ []
params_text (some []) = b'{' ∷ b'}' ∷ []
params_text (some (c ∷ t)) = get_or (raw_params (c ∷ t)) (b'{' ∷ b'}' ∷ [])

-- What the request brings besides its parameters: the new id, the observed address, the text and its
-- signature, and the channel.
pub record Request : Type 0 where
  pub msg_id : String
  pub observed : Option String
  pub raw : Option Text
  pub sig : Option SignatureEnvelope
  pub via : Channel

abbrev pub envelope_of :
    Request → SendParams → String → String → String → String → Option String → Envelope
envelope_of req params sender from to content digest = record {
  id = req.msg_id;
  from = from;
  to = to;
  sent_by = sender;
  content = content;
  reply_to = params.reply_to;
  via = req.via;
  client_message_id = key_text params.client_message_id;
  idempotency_digest = digest;
  sender_sig = req.sig;
  sender_params = params_text req.raw;
}

unfoldable pub send_from : Runtime → Hub → ℕ → String → SendParams → Request → ℕ → Hub × SendAnswer
send_from rt hub ws sender params req now_ms = elim (text_of params.to) [
  | none ↦ (hub, to_required)
  | some to ↦ elim (content_of params.content) [
    | none ↦ (hub, content_required)
    | some content ↦
        if is_deleted to hub.agents
        then (hub, recipient_deleted)
        else let from = get_or (text_of params.from) sender in
          elim (check_key rt hub sender to from content params) [
            | err answer ↦ (hub, answer)
            | ok digest ↦ elim (authorize rt hub ws sender from to req.observed now_ms) [
              | some refusal ↦ (counted_refusal hub refusal, refusal)
              | none ↦
                  send_envelope rt hub (envelope_of req params sender from to content digest)
                    (now_ms / 1000)
            ]
          ]
  ]
]

unfoldable pub handle_send : Runtime → Hub → ℕ → SendParams → Request → ℕ → Hub × SendAnswer
handle_send rt hub ws params req now_ms = elim (truthy (get ws hub.presence.ws_identities)) [
  | none ↦ (hub, not_connected)
  | some sender ↦ send_from rt hub ws sender params req now_ms
]
