-- ===== src/Mailbox.antt =====
-- packages/mailbox/src: taking delivery (receive.ts), taking a message in (accept.ts), and which way a
-- reply goes (channel.ts). The hook `onSettled` is the list of the rows that it is called with, in
-- order; `alsoInTransaction` is a function on a state that the caller keeps.
pub mod Receive
pub mod Lease
pub mod Remaining
pub mod Settle
pub mod Reply
pub mod Accept
pub mod Waiting
mod Tests
use agent_mesh_platform.Store.Messages.{
  MailStatus, Channel, mesh, mailbox, mail_status_eq, MessageRow, is_id, leasable_messages,
  lease_message, ack_message, message_by_id, count_leasable,
}
use agent_mesh_platform.Base.{
  ltb, if◌then◌else◌, ◌==◌, string_eq, nat_eq, exists, Result, ok, err, is_some, ℕ, String, Bool,
  true, false, not, ◌&&◌, ◌||◌, Option, none, some, List, [], ◌∷◌, ◌++◌, map,
}

pub record MailboxMessage : Type 0 where
  pub id : String
  pub from : String
  pub to : String
  pub sent_by : Option String
  pub content : String
  pub reply_to : Option String
  pub ts : ℕ

pub record ReceiveResult : Type 0 where
  pub messages : List MailboxMessage
  pub remaining : ℕ
  pub lease_seconds : ℕ

abbrev pub to_message : MessageRow → MailboxMessage
to_message m = record {
  id = m.id;
  from = m.from_agent;
  to = m.to_agent;
  sent_by = m.sent_by;
  content = m.content;
  reply_to = m.reply_to;
  ts = m.ts;
}

-- `if (row && onSettled) onSettled(row)`, where `changes > 0`.
abbrev pub reported : ℕ → Option MessageRow → List MessageRow → List MessageRow
reported changes none rest = rest
reported changes (some row) rest = if ltb 0 changes then row ∷ rest else rest

-- The loop over `ackIds`: the table, and what was reported.
unfoldable pub settle : List MessageRow → String → List String → List MessageRow × List MessageRow
settle db identity [] = (db, [])
settle db identity (id ∷ ids) =
    let (db', changes) = ack_message db id identity in
    let (done, rest) = settle db' identity ids in
    (done, reported changes (message_by_id db' id) rest)

-- The loop over `page`.
unfoldable pub lease_all : List MessageRow → List MessageRow → ℕ → ℕ → List MessageRow
lease_all db [] seconds now = db
lease_all db (m ∷ page) seconds now = lease_all (lease_message db m.id seconds now) page seconds now

unfoldable pub receive :
    List MessageRow
    → String
    → ℕ
    → List String
    → ℕ
    → ℕ
    → List MessageRow × (ReceiveResult × List MessageRow)
receive db identity limit ack_ids lease_seconds now =
    let (acked, settled) = settle db identity ack_ids in
    let page = leasable_messages acked identity limit now in
    let leased = lease_all acked page lease_seconds now in
    (
      leased,
      (
        record {
          messages = map to_message page;
          remaining = count_leasable leased identity now;
          lease_seconds = lease_seconds;
        },
        settled,
      ),
    )

-- `channelOf`: a row from before the column exists reads as `mesh`.
abbrev pub channel_of : Option Channel → Channel
channel_of none = mesh
channel_of (some mesh) = mesh
channel_of (some mailbox) = mailbox

pub record ReplyRoutingInput : Type 0 where
  pub in_reply_to_via : Option Channel
  pub recipient_live : Bool
  pub sender_live : Bool

abbrev pub is_mesh : Channel → Bool
is_mesh mesh = true
is_mesh mailbox = false

unfoldable pub reply_channel : ReplyRoutingInput → Channel
reply_channel input =
    if not (is_some input.in_reply_to_via)
    then (if input.recipient_live then mesh else mailbox)
    else if is_mesh (channel_of input.in_reply_to_via)
    then (if input.recipient_live then mesh else mailbox)
    else if input.recipient_live && input.sender_live
    then mesh
    else mailbox

pub record StatsRow : Type 0 where
  pub message_id : String
  pub tenant : String
  pub to_agent : String
  pub from_agent : String
  pub via : Channel
  pub ts : ℕ

pub record IdempotencyRow : Type 0 where
  pub sent_by : String
  pub client_message_id : String
  pub request_digest : String
  pub message_id : String
  pub status : MailStatus
  pub created_at : ℕ

-- The hub's store, as far as a send writes it, and the state that the hook writes.
pub record MeshDb {ℓ} (S : Type ℓ) : Type ℓ where
  pub messages : List MessageRow
  pub stats : List StatsRow
  pub idempotency : List IdempotencyRow
  pub other : S

pub record AcceptOptions : Type 0 where
  pub id : String
  pub from : String
  pub to : String
  pub sent_by : Option String
  pub content : String
  pub reply_to : Option String
  pub status : MailStatus
  pub via : Channel
  pub tenant : String
  pub client_message_id : Option String
  pub idempotency_digest : Option String

-- What SQLite throws: a duplicate primary key, or a null in a column that takes none.
pub data Constraint : Type 0 where
  duplicate null_column : Constraint

abbrev pub accepted_row : AcceptOptions → ℕ → MessageRow
accepted_row o now = record {
  id = o.id;
  from_agent = o.from;
  to_agent = o.to;
  sent_by = o.sent_by;
  content = o.content;
  reply_to = o.reply_to;
  status = o.status;
  ts = now;
  leased_until = none;
  via = some o.via;
}

abbrev pub stats_row : AcceptOptions → ℕ → StatsRow
stats_row o now = record {
  message_id = o.id;
  tenant = o.tenant;
  to_agent = o.to;
  from_agent = o.from;
  via = o.via;
  ts = now;
}

abbrev pub is_key : String → String → IdempotencyRow → Bool
is_key sent_by client_message_id r =
    r.sent_by == sent_by && r.client_message_id == client_message_id

-- The insert of the key, where there are a digest and a key.
unfoldable pub remember :
    List IdempotencyRow → AcceptOptions → ℕ → Result Constraint (List IdempotencyRow)
remember keys o now = elim o.idempotency_digest [
  | none ↦ ok keys
  | some digest ↦ elim o.client_message_id [
    | none ↦ ok keys
    | some client_message_id ↦ elim o.sent_by [
      | none ↦ err null_column
      | some sent_by ↦
          if exists (is_key sent_by client_message_id) keys
          then err duplicate
          else ok (
              keys
              ++ record {
                sent_by = sent_by;
                client_message_id = client_message_id;
                request_digest = digest;
                message_id = o.id;
                status = o.status;
                created_at = now;
              }
                ∷ [])
    ]
  ]
]

-- One transaction on the hub's file: a throw leaves its tables as they were, and the answer has what
-- the caller keeps elsewhere. That is another file, which is not rolled back: where the insert of the
-- key throws, the hook has run.
unfoldable pub accept {ℓ} :
    {S : Type ℓ} → (S → S) → MeshDb S → AcceptOptions → ℕ → Result (Constraint × S) (MeshDb S)
accept also db o now =
    if exists (is_id o.id) db.messages || exists (λ r. r.message_id == o.id) db.stats
    then err (duplicate, db.other)
    else elim (remember db.idempotency o now) [
      | err e ↦ err (e, also db.other)
      | ok keys ↦ ok (record {
        messages = db.messages ++ accepted_row o now ∷ [];
        stats = db.stats ++ stats_row o now ∷ [];
        idempotency = keys;
        other = also db.other;
      })
    ]
