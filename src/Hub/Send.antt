-- ===== src/Hub/Send.antt =====
-- packages/hub/src/rpc/send.ts: `mesh.send`. The state is what the handler reads and writes: the tables
-- of the two databases, the presence maps, the refusal counters, the events handed to the audit and
-- the frames that landed. The clock is in milliseconds, and SQLite's `now` is its seconds.
pub mod Handler
pub mod Sent
pub mod Unsent
pub mod Stored
pub mod Recorded
pub mod Retry
pub mod Dropped
pub mod Tests
use agent_mesh_platform.Mailbox.{StatsRow, IdempotencyRow, is_key}
use agent_mesh_platform.Hub.Presence.{Presence}
use agent_mesh_platform.Hub.Dormancy.{DormancyRefusal, check_dormant_source}
use agent_mesh_platform.Hub.Signature.{SignatureEnvelope}
use agent_mesh_platform.Hub.RawParams.{Text}
use agent_mesh_platform.Hub.Refusals.{egress, CounterKey, key_eq}
use agent_mesh_platform.Store.Entitlement.{Refusal, Entitlement, entitled, may_proxy}
use agent_mesh_platform.Store.Groups.{Tables, SendVerdict, may_send}
use agent_mesh_platform.Store.Sources.{AgentSource, truthy}
use agent_mesh_platform.Store.Messages.{MailStatus, mail_status_eq, MessageRow}
use agent_mesh_platform.Store.Agents.{Agent, AgentType, default_tenant}
use agent_mesh_platform.Base.Map.{get}
use agent_mesh_platform.Base.{
  ltb, if◌then◌else◌, ◌==◌, string_eq, nat_eq, first, exists, Result, ok, err, get_or, is_some, ℕ,
  String, Bool, not, ◌&&◌, ◌||◌, Option, none, some, List, [],
}

-- A member of `params`: absent, null, a text, or another value with the text that `String()` gives.
pub data Param : Type 0 where
  undefined null : Param
  string other : String → Param

-- A `reply_to` that is neither a text nor null is not modelled.
pub record SendParams : Type 0 where
  pub to : Param
  pub content : Param
  pub from : Param
  pub reply_to : Option String
  pub client_message_id : Param

-- What the handler takes from the runtime, and two settings: a text's length in UTF-16 units, the SHA-256
-- of the four parts joined by NUL, `prefixOf`, which sockets take a frame (false also where the send
-- throws), and what can be written: the message's rows, the registry's stamp, and last the key's row with
-- the commit. The registry is a file of its own, and its stamp is not rolled back.
pub record Runtime : Type 0 where
  pub js_length : String → ℕ
  pub sha256 : String → String → String → String → String
  pub prefix_of : Option String → Option String
  pub lands : ℕ → Bool
  pub inserts : Bool
  pub stamps : Bool
  pub commits : Bool
  pub dormancy_seconds : ℕ

pub data EventType : Type 0 where
  sent_event delivered_event pending_event : EventType

pub record MeshEvent : Type 0 where
  pub event_type : EventType
  pub message_id : String
  pub from : String
  pub to : String
  pub sent_by : String
  pub content : String
  pub reply_to : Option String
  pub sender_sig : Option SignatureEnvelope
  pub sender_params : Text

pub data Notification : Type 0 where
  message :
      (id from to : String) (sent_by : Option String) (content : String) (reply_to : Option String)
      → Notification
  delivered_to : (id from to : String) → Notification

pub record Hub : Type 0 where
  pub agents : List Agent
  pub types : List AgentType
  pub groups : Tables
  pub sources : List AgentSource
  pub messages : List MessageRow
  pub stats : List StatsRow
  pub idempotency : List IdempotencyRow
  pub presence : Presence
  pub refusals : List (CounterKey × ℕ)
  pub events : List MeshEvent
  pub frames : List (ℕ × Notification)

-- The answer: each refusal of the handler, the original answer of a retry, and the answer to a send.
pub data SendAnswer : Type 0 where
  not_connected to_required content_required recipient_deleted bad_client_message_id : SendAnswer
  send_conflict not_declared not_persisted : SendAnswer
  egress_denied : (from_group to_group : String) → SendAnswer
  source_changed : DormancyRefusal → SendAnswer
  not_entitled : Refusal → SendAnswer
  duplicate_of sent_as : (id : String) (status : MailStatus) → SendAnswer

-- `typeof p === "string" && p`.
abbrev pub text_of : Param → Option String
text_of undefined = none
text_of null = none
text_of (string s) = truthy (some s)
text_of (other s) = none

-- `String(p)`, where it is neither undefined nor null.
abbrev pub content_of : Param → Option String
content_of undefined = none
content_of null = none
content_of (string s) = some s
content_of (other s) = some s

-- `stmtAgentDeleted`.
abbrev pub is_deleted : String → List Agent → Bool
is_deleted identity agents = exists (λ a. a.identity == identity && is_some a.deleted_at) agents

-- The two parts of the key's answer: a refusal or an original answer, or the digest to remember.
abbrev pub prior_answer : Option IdempotencyRow → String → Result SendAnswer (Option String)
prior_answer none digest = ok (some digest)
prior_answer (some prior) digest =
    if prior.request_digest == digest
    then err (duplicate_of prior.message_id prior.status)
    else err send_conflict

unfoldable pub check_key :
    Runtime
    → Hub
    → String
    → String
    → String
    → String
    → SendParams
    → Result SendAnswer (Option String)
check_key rt hub sender to from content params = elim params.client_message_id [
  | undefined ↦ ok none
  | null ↦ err bad_client_message_id
  | string key ↦
      if rt.js_length key == 0 || ltb 128 (rt.js_length key)
      then err bad_client_message_id
      else prior_answer (first (is_key sender key) hub.idempotency)
          (rt.sha256 to from content (get_or params.reply_to ""))
  | other s ↦ err bad_client_message_id
]

-- `wsProxies.get(ws)?.has(from)`.
abbrev pub declared : Presence → ℕ → String → Bool
declared p ws from = exists (λ pid. pid == from) (get_or (get ws p.ws_proxies) [])

-- Egress, dormancy and entitlement, in this order.
abbrev pub may_speak : Hub → ℕ → String → String → Option SendAnswer
may_speak hub ws sender from =
    if from == sender then none else elim (may_proxy hub.agents hub.types sender from) [
      | Entitlement.refused reason ↦ some (not_entitled reason)
      | entitled ↦ if declared hub.presence ws from then none else some not_declared
    ]

abbrev pub egress_of : Hub → String → String → SendVerdict
egress_of hub from to = may_send hub.groups from to default_tenant

unfoldable pub authorize :
    Runtime → Hub → ℕ → String → String → String → Option String → ℕ → Option SendAnswer
authorize rt hub ws sender from to observed now_ms =
    let egress = egress_of hub from to in
    if not egress.ok
    then some (egress_denied egress.from_group egress.to_group)
    else elim (check_dormant_source rt.dormancy_seconds rt.prefix_of hub.agents hub.sources from
        sender observed now_ms) [
          | some refusal ↦ some (source_changed refusal)
          | none ↦ may_speak hub ws sender from
        ]
