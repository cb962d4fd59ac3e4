-- ===== src/Mailbox/Waiting.antt =====
-- A message that waits for its recipient goes on waiting while others use the mailbox.
use agent_mesh_platform.Mailbox.Lease.{Op, receives, accepts, recalls, after_accept, op, ops}
use agent_mesh_platform.Mailbox.Receive.{exists-take}
use agent_mesh_platform.Mailbox.Accept.{accept_ok}
use agent_mesh_platform.Mailbox.{
  settle, lease_all, receive, MeshDb, AcceptOptions, accepted_row, accept,
}
use agent_mesh_platform.Store.Messages.{
  MailStatus, mail_status_eq, MessageRow, is_id, is_leasable, leasable_messages, lease_message,
  ack_message, is_recallable, recall,
}
use agent_mesh_platform.Base.RowLaws.{exists-append}
use agent_mesh_platform.Base.Order.{exists-order_by}
use agent_mesh_platform.Base.{
  ltb, leb, Bool-cases, ◌==◌, string_eq, nat_eq, select, exists, update, delete, count, Every,
  is_some, Result-cases, ℕ, String, ◌≡◌, refl, ◌∙◌, subst, ◌≢◌, inl, inr, Bool, true, false, not,
  ◌&&◌, List, [], ◌∷◌, ◌++◌, arith,
}

-- A row of the message that is not as it waits for its recipient.
abbrev pub is_astray : String → String → MessageRow → Bool
is_astray id to m =
    m.id == id
    && not (m.to_agent == to && (m.status == MailStatus.pending && not (is_some m.leased_until)))

-- The message is on record, addressed to the recipient, pending and unleased.
pub record IsWaiting (id to : String) (db : List MessageRow) : Type 0 where
  pub on_record : exists (is_id id) db ≡ true
  pub waits : exists (is_astray id to) db ≡ false

-- An operation of somebody else, on other messages.
abbrev pub Spares : String → String → Op → Type 0
Spares id to (receives identity _ _ _ _) = identity ≢ to
Spares id to (accepts _ _) = Unit
Spares id to (recalls _ message_id _) = message_id ≢ id

ack-IsWaiting :
    (id to j identity : String) (db : List MessageRow)
    → identity ≢ to
    → (exists (is_id id) (ack_message db j identity).0 ≡ exists (is_id id) db)
      × (exists (is_astray id to) db ≡ false
          → exists (is_astray id to) (ack_message db j identity).0 ≡ false)
unfolding exists ack_message update
ack-IsWaiting id to j identity [] n = (refl, λ h. h)
ack-IsWaiting id to j identity (m ∷ db) n =
    let (same, kept) = ack-IsWaiting id to j identity db n in
    (ground arith, λ h. ground (arith, kept (ground arith)))

settle-IsWaiting :
    (id to identity : String) (db : List MessageRow) (ids : List String)
    → identity ≢ to
    → IsWaiting id to db
    → IsWaiting id to (settle db identity ids).0
unfolding settle
settle-IsWaiting id to identity db [] n v = v
settle-IsWaiting id to identity db (j ∷ ids) n v =
    let (same, kept) = ack-IsWaiting id to j identity db n in
    settle-IsWaiting id to identity (ack_message db j identity).0 ids n
      (record { on_record = same ∙ v.on_record; waits = kept v.waits })

lease-IsWaiting :
    (id to j : String) (seconds now : ℕ) (db : List MessageRow)
    → j ≢ id
    → (exists (is_id id) (lease_message db j seconds now) ≡ exists (is_id id) db)
      × (exists (is_astray id to) (lease_message db j seconds now) ≡ exists (is_astray id to) db)
unfolding exists lease_message update
lease-IsWaiting id to j seconds now [] n = (refl, refl)
lease-IsWaiting id to j seconds now (m ∷ db) n =
    ground (arith, lease-IsWaiting id to j seconds now db n)

lease_all-IsWaiting :
    (id to : String) (seconds now : ℕ) (db page : List MessageRow)
    → exists (is_id id) page ≡ false
    → IsWaiting id to db
    → IsWaiting id to (lease_all db page seconds now)
unfolding lease_all exists
lease_all-IsWaiting id to seconds now db [] n v = v
lease_all-IsWaiting id to seconds now db (m ∷ page) n v =
    let other : m.id ≢ id = λ e. ground arith in
    let (same, kept) = lease-IsWaiting id to m.id seconds now db other in
    lease_all-IsWaiting id to seconds now (lease_message db m.id seconds now) page (ground arith)
      (record { on_record = same ∙ v.on_record; waits = kept ∙ v.waits })

-- It is on nobody else's page.
others_select :
    (id to identity : String) (now : ℕ) (db : List MessageRow)
    → identity ≢ to
    → exists (is_astray id to) db ≡ false
    → exists (is_id id) (select (is_leasable identity now) db) ≡ false
unfolding exists select
others_select id to identity now [] n h = refl
others_select id to identity now (m ∷ db) n h =
    ground (arith, others_select id to identity now db n)

append-IsWaiting :
    (id to : String) (db : List MessageRow) (o : AcceptOptions) (now : ℕ)
    → exists (is_id o.id) db ≡ false
    → IsWaiting id to db
    → IsWaiting id to (db ++ accepted_row o now ∷ [])
unfolding exists
append-IsWaiting id to db o now new v = record {
  on_record = ground (arith, exists-append (is_id id) db (accepted_row o now ∷ []), v.on_record);
  waits =
      ground (arith, exists-append (is_astray id to) db (accepted_row o now ∷ []), v.waits, other);
}
  where
    other : o.id ≢ id
    other e = ground (arith, subst (λ j. exists (is_id j) db ≡ false) e new, v.on_record)

accept-IsWaiting {ℓ} :
    {S : Type ℓ} (also : S → S) (db : MeshDb S) (o : AcceptOptions) (id to : String) (now : ℕ)
    → IsWaiting id to db.messages
    → IsWaiting id to (after_accept db (accept also db o now)).messages
accept-IsWaiting also db o id to now v = elim (Result-cases (accept also db o now)) [
  | inl (c, h) ↦ rw h v
  | inr (db', h) ↦
      let (keys, new, r, is) = accept_ok also db db' o now h in
      rw h (
        subst (λ d. IsWaiting id to d.messages) is (append-IsWaiting id to db.messages o now new v))
]

delete-IsWaiting :
    (id to : String) (p : MessageRow → Bool) (db : List MessageRow)
    → ((m : MessageRow) → m.id ≡ id → p m ≡ false)
    → (exists (is_id id) (delete p db) ≡ exists (is_id id) db)
      × (exists (is_astray id to) (delete p db) ≡ exists (is_astray id to) db)
unfolding exists delete
delete-IsWaiting id to p [] n = (refl, refl)
delete-IsWaiting id to p (m ∷ db) n = ground (arith, delete-IsWaiting id to p db n, n m)

recall-IsWaiting :
    (id to sender message_id : String) (now : ℕ) (db : List MessageRow)
    → message_id ≢ id
    → IsWaiting id to db
    → IsWaiting id to (recall db sender message_id now).0
unfolding recall
recall-IsWaiting id to sender message_id now db n v =
    let p = λ (m : MessageRow). m.id == message_id && is_recallable sender now m in
    let (same, kept) = delete-IsWaiting id to p db (λ m e. ground arith) in
    elim (Bool-cases (ltb 0 (count p db))) [
      | inl some_match ↦
          rw some_match (record { on_record = same ∙ v.on_record; waits = kept ∙ v.waits })
      | inr no_match ↦ rw no_match v
    ]

op-IsWaiting {ℓ} :
    {S : Type ℓ} (also : S → S) (db : MeshDb S) (o : Op) (id to : String)
    → Spares id to o
    → IsWaiting id to db.messages
    → IsWaiting id to (op also db o).messages
unfolding op receive leasable_messages
op-IsWaiting also db (receives identity limit acks seconds now) id to n v =
    let acked = settle-IsWaiting id to identity db.messages acks n v in
    lease_all-IsWaiting id to seconds now _ _
      (exists-take (is_id id) limit _ (
        exists-order_by (λ a b. leb a.ts b.ts) (is_id id)
          (select (is_leasable identity now) (settle db.messages identity acks).0)
        ∙ others_select id to identity now (settle db.messages identity acks).0 n acked.waits))
      acked
op-IsWaiting also db (accepts o now) id to n v = accept-IsWaiting also db o id to now v
op-IsWaiting also db (recalls sender message_id now) id to n v =
    recall-IsWaiting id to sender message_id now db.messages n v

pub ops-IsWaiting {ℓ} :
    {S : Type ℓ} (also : S → S) (db : MeshDb S) (os : List Op) (id to : String)
    → Every (Spares id to) os
    → IsWaiting id to db.messages
    → IsWaiting id to (ops also db os).messages
unfolding ops
ops-IsWaiting also db [] id to n v = v
ops-IsWaiting also db (o ∷ os) id to n v =
    ops-IsWaiting also (op also db o) os id to n.1 (op-IsWaiting also db o id to n.0 v)

-- What waits is selected for its recipient.
pub waiting-select :
    (id to : String) (now : ℕ) (db : List MessageRow)
    → IsWaiting id to db
    → exists (is_id id) (select (is_leasable to now) db) ≡ true
unfolding exists select
waiting-select id to now [] v = v.on_record
waiting-select id to now (m ∷ db) v = elim (Bool-cases (m.id == id)) [
  | inl same ↦ ground (arith, v.waits)
  | inr other ↦
      let rest =
        waiting-select id to now db
          (record { on_record = ground (arith, v.on_record); waits = ground (arith, v.waits) }) in
      ground arith
]
