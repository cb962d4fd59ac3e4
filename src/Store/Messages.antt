-- ===== src/Store/Messages.antt =====
-- packages/store/src/schema/hub.ts: the table `messages` and the statements that the mailbox runs on
-- it, and packages/store/src/outbox.ts: what a sender may take back. A time is a number of seconds.
pub mod Outbox
mod Tests
use agent_mesh_platform.Base.Order.{order_by}
use agent_mesh_platform.Base.{
  ltb, leb, if◌then◌else◌, Eq, ◌==◌, string_eq, nat_eq, select, first, exists, update, delete,
  count, ℕ, zero, suc, ◌+◌, String, Bool, true, ◌&&◌, Option, none, some, List, [], ◌∷◌, map,
}

pub data MailStatus : Type 0 where
  delivered pending : MailStatus

-- `messages.via`.
pub data Channel : Type 0 where
  mesh mailbox : Channel

unfoldable pub MailStatus-discrete : Discrete MailStatus
MailStatus-discrete = hlevel

instance abbrev pub mail_status_eq : Eq MailStatus
mail_status_eq = record { dec = MailStatus-discrete }

pub record MessageRow : Type 0 where
  pub id : String
  pub from_agent : String
  pub to_agent : String
  pub sent_by : Option String
  pub content : String
  pub reply_to : Option String
  pub status : MailStatus
  pub ts : ℕ
  pub leased_until : Option ℕ
  pub via : Option Channel

abbrev pub is_id : String → MessageRow → Bool
is_id id m = m.id == id

-- `leased_until IS NULL OR leased_until < datetime('now')`.
abbrev pub unleased : ℕ → Option ℕ → Bool
unleased now none = true
unleased now (some t) = ltb t now

-- The `WHERE` of `leasableMessages` and of `countLeasable`.
abbrev pub is_leasable : String → ℕ → MessageRow → Bool
is_leasable identity now m =
    m.to_agent == identity && (m.status == MailStatus.pending && unleased now m.leased_until)

-- `LIMIT n`.
unfoldable pub take {ℓ} : {A : Type ℓ} → ℕ → List A → List A
take zero xs = []
take (suc n) [] = []
take (suc n) (x ∷ xs) = x ∷ take n xs

unfoldable pub leasable_messages : List MessageRow → String → ℕ → ℕ → List MessageRow
leasable_messages db identity limit now =
    take limit (order_by (λ a b. leb a.ts b.ts) (select (is_leasable identity now) db))

unfoldable pub lease_message : List MessageRow → String → ℕ → ℕ → List MessageRow
lease_message db id seconds now =
    update (is_id id) (λ m. record m { leased_until = some (now + seconds) }) db

-- The `WHERE` of `ackMessage`.
abbrev pub is_held : String → String → MessageRow → Bool
is_held id identity m = m.id == id && (m.to_agent == identity && m.status == MailStatus.pending)

-- The table, and `changes`.
unfoldable pub ack_message : List MessageRow → String → String → List MessageRow × ℕ
ack_message db id identity = (
  update (is_held id identity)
      (λ m. record m { status = MailStatus.delivered; leased_until = none }) db,
  count (is_held id identity) db,
)

unfoldable pub message_by_id : List MessageRow → String → Option MessageRow
message_by_id db id = first (is_id id) db

unfoldable pub count_leasable : List MessageRow → String → ℕ → ℕ
count_leasable db identity now = count (is_leasable identity now) db

pub record RecallableMessage : Type 0 where
  pub id : String
  pub to : String
  pub ts : ℕ
  pub size : ℕ

-- The `WHERE` of `listRecallable`.
abbrev pub is_recallable : String → ℕ → MessageRow → Bool
is_recallable sender now m =
    m.from_agent == sender && (m.status == MailStatus.pending && unleased now m.leased_until)

-- `length(content)` is SQLite's: an argument.
unfoldable pub list_recallable :
    (String → ℕ) → List MessageRow → String → ℕ → ℕ → List RecallableMessage
list_recallable content_length db sender limit now =
    map (λ r. record { id = r.id; to = r.to_agent; ts = r.ts; size = content_length r.content })
      (take limit (order_by (λ a b. leb b.ts a.ts) (select (is_recallable sender now) db)))

pub data RecallOutcome : Type 0 where
  recalled already_delivered not_found : RecallOutcome

unfoldable pub recall : List MessageRow → String → String → ℕ → List MessageRow × RecallOutcome
recall db sender message_id now =
    let matches = λ (m : MessageRow). m.id == message_id && is_recallable sender now m in
    let own = exists (λ m. m.id == message_id && m.from_agent == sender) db in
    if ltb 0 (count matches db)
    then (delete matches db, recalled)
    else (db, if own then already_delivered else not_found)
