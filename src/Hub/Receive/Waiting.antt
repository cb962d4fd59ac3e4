-- ===== src/Hub/Receive/Waiting.antt =====
-- A message that was queued is fetched: mesh.send and mesh.receive over one table.
use agent_mesh_platform.Hub.Receive.{
  ReceiveParams, Settings, ReceiveAnswer, no_identity, received, limit_of, ack_ids_of,
  handle_receive,
}
use agent_mesh_platform.Hub.Send.Stored.{row_of, persist-some}
use agent_mesh_platform.Hub.Send.Unsent.{send_envelope-cases, sent-IsPassed}
use agent_mesh_platform.Hub.Send.Sent.{}
use agent_mesh_platform.Hub.Send.Handler.{
  deliver_now, Envelope, deliver, Request, envelope_of, handle_send,
}
use agent_mesh_platform.Hub.Send.{
  Param, string, SendParams, Runtime, Hub, SendAnswer, sent_as, text_of,
}
use agent_mesh_platform.Mailbox.Waiting.{IsWaiting, Spares, ops-IsWaiting, waiting-select}
use agent_mesh_platform.Mailbox.Lease.{Op, ops}
use agent_mesh_platform.Mailbox.{to_message, settle, receive, MeshDb}
use agent_mesh_platform.Store.Sources.{truthy}
use agent_mesh_platform.Store.Messages.{
  MailStatus, delivered, pending, mail_status_eq, MessageRow, is_id, is_leasable, take,
  leasable_messages, count_leasable,
}
use agent_mesh_platform.Hub.Refusals.{key_eq}
use agent_mesh_platform.Base.Order.{order_by, exists-order_by, length-order_by}
use agent_mesh_platform.Base.RowLaws.{length-select}
use agent_mesh_platform.Base.{
  leb, if◌then◌else◌, Bool-cases, ◌==◌, string_eq, nat_eq, length, select, exists, update, Every,
  get_or, is_some, ℕ, zero, suc, ◌/◌, ◌≤◌, String, ◌≡◌, refl, sym, ap, ◌∙◌, subst, inl, inr, Bool,
  true, false, Option, none, some, List, [], ◌∷◌, ◌++◌, map, arith,
}

take_all : (n : ℕ) (xs : List MessageRow) → length xs ≤ n → take n xs ≡ xs
unfolding take
take_all zero [] h = refl
take_all zero (x ∷ xs) h = ground arith
take_all (suc n) [] h = refl
take_all (suc n) (x ∷ xs) h = ground (arith, take_all n xs)

page-waiting :
    (db : List MessageRow) (to id : String) (limit now : ℕ)
    → IsWaiting id to db
    → count_leasable db to now ≤ limit
    → exists (is_id id) (leasable_messages db to limit now) ≡ true
unfolding leasable_messages count_leasable
page-waiting db to id limit now v enough =
    let waiting = select (is_leasable to now) db in
    let page = order_by (λ a b. leb a.ts b.ts) waiting in
    let whole : take limit page ≡ page = take_all limit page (
      omega (
        arith,
        length-order_by (λ a b. leb a.ts b.ts) waiting,
        length-select (is_leasable to now) db,
      )) in
    ap (exists (is_id id)) whole
    ∙ exists-order_by (λ a b. leb a.ts b.ts) (is_id id) waiting
    ∙ waiting-select id to now db v

exists-to_message :
    (id : String) (page : List MessageRow)
    → exists (λ m. m.id == id) (map to_message page) ≡ exists (is_id id) page
unfolding exists
exists-to_message id [] = refl
exists-to_message id (m ∷ page) = ground (arith, exists-to_message id page)

-- Whether an answer hands a message out.
abbrev pub hands_out : String → ReceiveAnswer → Bool
hands_out id no_identity = false
hands_out id (received result) = exists (λ m. m.id == id) result.messages

handed-page :
    (settings : Settings) (hub : Hub) (caller id : String) (fetch : ReceiveParams) (now : ℕ)
    → truthy (some caller) ≡ some caller
    → ack_ids_of fetch ≡ []
    → hands_out id (handle_receive settings hub (some caller) fetch now).1
      ≡ exists (is_id id) (leasable_messages hub.messages caller (limit_of settings fetch) now)
unfolding handle_receive receive settle
handed-page settings hub caller id fetch now k a = ground (
  arith,
  exists-to_message id (leasable_messages hub.messages caller (limit_of settings fetch) now),
)

-- A new row, as the send of a queued message leaves it.
new-IsWaiting :
    (id to : String) (db : List MessageRow) (row : MessageRow)
    → exists (is_id id) db ≡ false
    → row.id ≡ id
    → row.to_agent ≡ to
    → row.leased_until ≡ none
    → row.status ≡ pending
    → IsWaiting id to (db ++ row ∷ [])
unfolding exists
new-IsWaiting id to [] row n i t f s = record { on_record = ground arith; waits = ground arith }
new-IsWaiting id to (m ∷ db) row n i t f s =
    let v = new-IsWaiting id to db row (ground arith) i t f s in
    record { on_record = ground (arith, v.on_record); waits = ground (arith, v.waits) }

requeued-IsWaiting :
    (id to : String) (db : List MessageRow) (row : MessageRow)
    → exists (is_id id) db ≡ false
    → row.id ≡ id
    → row.to_agent ≡ to
    → row.leased_until ≡ none
    → IsWaiting id to (update (is_id id) (λ m. record m { status = pending }) (db ++ row ∷ []))
unfolding exists update
requeued-IsWaiting id to [] row n i t f = record { on_record = ground arith; waits = ground arith }
requeued-IsWaiting id to (m ∷ db) row n i t f =
    let v = requeued-IsWaiting id to db row (ground arith) i t f in
    record { on_record = ground (arith, v.on_record); waits = ground (arith, v.waits) }

deliver-IsWaiting :
    (rt : Runtime) (st : Hub) (db : List MessageRow) (e : Envelope) (target : Option ℕ)
    (row : MessageRow)
    → exists (is_id e.id) db ≡ false
    → st.messages ≡ db ++ row ∷ []
    → row.id ≡ e.id
    → row.leased_until ≡ none
    → row.status ≡ (if is_some target then delivered else pending)
    → (deliver rt st e target).1 ≡ pending
    → IsWaiting e.id row.to_agent (deliver rt st e target).0.messages
unfolding deliver
deliver-IsWaiting rt st db e none row n m i f s q =
    subst (IsWaiting e.id row.to_agent) (sym m)
      (new-IsWaiting e.id row.to_agent db row n i refl f s)
deliver-IsWaiting rt st db e (some w) row n m i f s q = elim (Bool-cases (rt.lands w)) [
  | inl here ↦ absurd (ground arith)
  | inr gone ↦ rw (gone, m) (requeued-IsWaiting e.id row.to_agent db row n i refl f)
]

recipient_only : (p : Param) (a b : String) → text_of p ≡ some a → p ≡ string b → a ≡ b
recipient_only p a b h e = ground arith

sent-IsWaiting :
    (rt : Runtime) (hub : Hub) (ws : ℕ) (params : SendParams) (req : Request) (now_ms : ℕ)
    (hub' : Hub) (id to : String)
    → handle_send rt hub ws params req now_ms ≡ (hub', sent_as id pending)
    → params.to ≡ string to
    → IsWaiting id to hub'.messages
sent-IsWaiting rt hub ws params req now_ms hub' id to h t =
    let p = sent-IsPassed rt hub ws params req now_ms hub' id pending h in
    let from = get_or (text_of params.from) p.sender in
    let e = envelope_of req params p.sender from p.to p.content p.digest in
    let now = now_ms / 1000 in
    let target = deliver_now hub e.from e.to e.reply_to in
    let provisional : MailStatus = if is_some target then delivered else pending in
    elim (send_envelope-cases rt hub e now) [
      | inl (left, k, n) ↦ absurd (ground (arith, p.result))
      | inr (st, k, n) ↦
          let (keys, new, r, is) = persist-some rt hub e provisional now st k in
          let row = row_of hub e provisional now in
          let same = sym n ∙ sym p.result ∙ h in
          let named : e.id ≡ id = ground arith in
          let queued : (deliver rt st e target).1 ≡ pending = ground arith in
          let aimed : p.to ≡ to = recipient_only params.to p.to to p.recipient t in
          let left : (deliver rt st e target).0.messages ≡ hub'.messages =
            ap (λ (x : Hub × SendAnswer). x.0.messages) same in
          let v =
            deliver-IsWaiting rt st hub.messages e target row new (ap (λ (x : Hub). x.messages) is)
              refl refl refl queued in
          subst (λ db. IsWaiting id to db) left
            (subst (λ i. IsWaiting i to (deliver rt st e target).0.messages) named
              (subst (λ u. IsWaiting e.id u (deliver rt st e target).0.messages) aimed v))
    ]

-- A send that is answered as pending is not lost. Through any later fetches of others, new messages of
-- anybody and recalls of other messages, the message goes on waiting; and whatever else has changed in
-- the hub, and at whatever time, a fetch of the recipient hands it out, if the fetch acknowledges
-- nothing and its batch has room for all that waits.
pub handle_receive-handle_send {ℓ} :
    {S : Type ℓ} (also : S → S) (db : MeshDb S) (between : List Op) (rt : Runtime) (hub : Hub)
    (ws : ℕ) (params : SendParams) (req : Request) (now_ms : ℕ) (hub' : Hub) (id to : String)
    (then_hub : Hub) (settings : Settings) (fetch : ReceiveParams) (now : ℕ)
    → handle_send rt hub ws params req now_ms ≡ (hub', sent_as id pending)
    → params.to ≡ string to
    → truthy (some to) ≡ some to
    → db.messages ≡ hub'.messages
    → Every (Spares id to) between
    → then_hub.messages ≡ (ops also db between).messages
    → ack_ids_of fetch ≡ []
    → count_leasable then_hub.messages to now ≤ limit_of settings fetch
    → hands_out id (handle_receive settings then_hub (some to) fetch now).1 ≡ true
handle_receive-handle_send also db between rt hub ws params req now_ms hub' id to then_hub settings
      fetch now h t k start others kept a enough =
    let first_waits = sent-IsWaiting rt hub ws params req now_ms hub' id to h t in
    let still =
      ops-IsWaiting also db between id to others
        (subst (IsWaiting id to) (sym start) first_waits) in
    handed-page settings then_hub to id fetch now k a
    ∙ page-waiting then_hub.messages to id (limit_of settings fetch) now
        (subst (IsWaiting id to) (sym kept) still) enough
