-- ===== src/Mailbox/Lease.antt =====
-- A message that was handed out belongs to its recipient until the lease lapses.
use agent_mesh_platform.Mailbox.Receive.{
  is_free, IsHeld, exists-take, exists-map, not_in_page, free-ack, record-ack, record-lease,
  lease-IsHeld, own_lease, recall-IsHeld, not_recalled,
}
use agent_mesh_platform.Mailbox.{
  ReceiveResult, to_message, settle, lease_all, receive, MeshDb, AcceptOptions, Constraint,
  accepted_row, remember, accept,
}
use agent_mesh_platform.Store.Messages.{
  mail_status_eq, MessageRow, is_id, is_leasable, leasable_messages, lease_message, ack_message,
  recalled, recall,
}
use agent_mesh_platform.Base.RowLaws.{exists-append, exists-select-false}
use agent_mesh_platform.Base.Order.{order_by, exists-order_by}
use agent_mesh_platform.Base.{
  leb, Bool-cases, ◌==◌, string_eq, nat_eq, select, exists, Every, Result, ok, err, Result-cases, ℕ,
  ◌+◌, ◌≤◌, String, ◌≡◌, sym, ◌∙◌, subst, ◌≢◌, ◌⊎◌, inl, inr, Bool, true, false, ◌||◌, List, [],
  ◌∷◌, ◌++◌, arith,
}

-- What happens to the table: deliveries, new messages, and recalls, each at a time.
pub data Op : Type 0 where
  receives : (identity : String) (limit : ℕ) (ack_ids : List String) (seconds now : ℕ) → Op
  accepts : (o : AcceptOptions) (now : ℕ) → Op
  recalls : (sender message_id : String) (now : ℕ) → Op

-- What an accept leaves: a throw changes none of the rows.
abbrev pub after_accept {ℓ} :
    {S : Type ℓ} → MeshDb S → Result (Constraint × S) (MeshDb S) → MeshDb S
after_accept db (ok db') = db'
after_accept db (err (constraint, left)) = record db { other = left }

-- The other tables stand beside: they are what they are.
unfoldable pub op {ℓ} : {S : Type ℓ} → (S → S) → MeshDb S → Op → MeshDb S
op also db (receives identity limit ack_ids seconds now) = record db {
  messages = (receive db.messages identity limit ack_ids seconds now).0;
}
op also db (accepts o now) = after_accept db (accept also db o now)
op also db (recalls sender message_id now) = record db {
  messages = (recall db.messages sender message_id now).0;
}

unfoldable pub ops {ℓ} : {S : Type ℓ} → (S → S) → MeshDb S → List Op → MeshDb S
ops also db [] = db
ops also db (o ∷ os) = ops also (op also db o) os

-- An operation no later than a time.
abbrev pub Timely : ℕ → Op → Type 0
Timely last (receives _ _ _ _ now) = now ≤ last
Timely last (accepts _ now) = now ≤ last
Timely last (recalls _ _ now) = now ≤ last

pub settle-IsHeld :
    (id identity : String) (last : ℕ) (db : List MessageRow) (ids : List String)
    → IsHeld id last db
    → IsHeld id last (settle db identity ids).0
unfolding settle
settle-IsHeld id identity last db [] v = v
settle-IsHeld id identity last db (j ∷ ids) v =
    settle-IsHeld id identity last (ack_message db j identity).0 ids (record {
      on_record = record-ack id j identity db ∙ v.on_record;
      held = free-ack id j identity last db v.held;
    })

pub lease_all-IsHeld :
    (id : String) (last seconds now : ℕ) (db page : List MessageRow)
    → IsHeld id last db
    → ((exists (is_id id) page ≡ false) ⊎ (last ≤ now + seconds))
    → IsHeld id last (lease_all db page seconds now)
unfolding lease_all exists
lease_all-IsHeld id last seconds now db [] v o = v
lease_all-IsHeld id last seconds now db (m ∷ page) v (inl other) =
    lease_all-IsHeld id last seconds now (lease_message db m.id seconds now) page
      (lease-IsHeld id m.id last seconds now db v (inl (λ e. ground arith))) (inl (ground arith))
lease_all-IsHeld id last seconds now db (m ∷ page) v (inr long) =
    lease_all-IsHeld id last seconds now (lease_message db m.id seconds now) page
      (lease-IsHeld id m.id last seconds now db v (inr long)) (inr long)

-- A lease of the page takes hold of what is on it.
lease_all-page :
    (id : String) (last seconds now : ℕ) (db page : List MessageRow)
    → last ≤ now + seconds
    → exists (is_id id) db ≡ true
    → exists (is_id id) page ≡ true
    → IsHeld id last (lease_all db page seconds now)
unfolding lease_all exists
lease_all-page id last seconds now db [] t r h = ground arith
lease_all-page id last seconds now db (m ∷ page) t r h = elim (Bool-cases (m.id == id)) [
  | inl same ↦
      lease_all-IsHeld id last seconds now (lease_message db m.id seconds now) page
        (record {
          on_record = record-lease id m.id seconds now db ∙ r;
          held =
              subst (λ j. exists (is_free id last) (lease_message db j seconds now) ≡ false)
                (sym (ground arith)) (own_lease id last seconds now db t);
        })
        (inr t)
  | inr other ↦
      lease_all-page id last seconds now (lease_message db m.id seconds now) page t
        (record-lease id m.id seconds now db ∙ r) (ground arith)
]

-- An accepted message is a new one.
append-IsHeld :
    (o : AcceptOptions) (db : List MessageRow) (id : String) (last now : ℕ)
    → exists (is_id o.id) db ≡ false
    → IsHeld id last db
    → IsHeld id last (db ++ accepted_row o now ∷ [])
unfolding exists
append-IsHeld o db id last now new v = record {
  on_record = ground (arith, exists-append (is_id id) db (accepted_row o now ∷ []), v.on_record);
  held =
      ground (arith, exists-append (is_free id last) db (accepted_row o now ∷ []), v.held, other);
}
  where
    other : o.id ≢ id
    other e = ground (arith, subst (λ j. exists (is_id j) db ≡ false) e new, v.on_record)

accept-IsHeld {ℓ} :
    {S : Type ℓ} (also : S → S) (db : MeshDb S) (o : AcceptOptions) (id : String) (last now : ℕ)
    → IsHeld id last db.messages
    → IsHeld id last (after_accept db (accept also db o now)).messages
unfolding accept
accept-IsHeld also db o id last now v =
    elim (Bool-cases
      (exists (is_id o.id) db.messages || exists (λ r. r.message_id == o.id) db.stats)) [
        | inl taken ↦ rw (taken, accept) v
        | inr new ↦ elim (Result-cases (remember db.idempotency o now)) [
          | inl (e, r) ↦ rw (new, r, accept) v
          | inr (keys, r) ↦
              rw (new, r, accept) (append-IsHeld o db.messages id last now (ground arith) v)
        ]
      ]

pub op-IsHeld {ℓ} :
    {S : Type ℓ} (also : S → S) (db : MeshDb S) (o : Op) (id : String) (last : ℕ)
    → Timely last o
    → IsHeld id last db.messages
    → IsHeld id last (op also db o).messages
unfolding op receive
op-IsHeld also db (receives identity limit ack_ids seconds now) id last t v =
    let acked = settle-IsHeld id identity last db.messages ack_ids v in
    lease_all-IsHeld id last seconds now _ _ acked
      (inl (not_in_page id identity limit last now _ t acked.held))
op-IsHeld also db (accepts o now) id last t v = accept-IsHeld also db o id last now v
op-IsHeld also db (recalls sender message_id now) id last t v =
    recall-IsHeld id sender message_id last now db.messages t v

pub ops-IsHeld {ℓ} :
    {S : Type ℓ} (also : S → S) (db : MeshDb S) (os : List Op) (id : String) (last : ℕ)
    → Every (Timely last) os
    → IsHeld id last db.messages
    → IsHeld id last (ops also db os).messages
unfolding ops
ops-IsHeld also db [] id last t v = v
ops-IsHeld also db (o ∷ os) id last t v =
    ops-IsHeld also (op also db o) os id last t.1 (op-IsHeld also db o id last t.0 v)

-- Whether a delivery hands out a message.
abbrev pub hands_out : String → ReceiveResult → Bool
hands_out id r = exists (λ m. m.id == id) r.messages

-- What is on a page is on record.
page_on_record :
    (id identity : String) (limit now : ℕ) (db : List MessageRow)
    → exists (is_id id) (leasable_messages db identity limit now) ≡ true
    → exists (is_id id) db ≡ true
unfolding leasable_messages
page_on_record id identity limit now db h = elim (Bool-cases (exists (is_id id) db)) [
  | inl yes_there ↦ yes_there
  | inr absent ↦ absurd (
      ground (
        arith,
        exists-take (is_id id) limit
            (order_by (λ a b. leb a.ts b.ts) (select (is_leasable identity now) db))
            (exists-order_by (λ a b. leb a.ts b.ts) (is_id id)
                (select (is_leasable identity now) db)
              ∙ exists-select-false (is_id id) (is_leasable identity now) db absent),
      ))
]

receive-IsHeld :
    (db : List MessageRow) (identity id : String) (limit seconds now : ℕ) (acks : List String)
    → hands_out id (receive db identity limit acks seconds now).1.0 ≡ true
    → IsHeld id (now + seconds) (receive db identity limit acks seconds now).0
unfolding receive
receive-IsHeld db identity id limit seconds now acks h =
    lease_all-page id (now + seconds) seconds now acked page (omega arith)
      (page_on_record id identity limit now acked shown) shown
  where
    acked : List MessageRow
    acked = (settle db identity acks).0

    page : List MessageRow
    page = leasable_messages acked identity limit now

    shown : exists (is_id id) page ≡ true
    shown = sym (exists-map (λ m. m.id == id) to_message page) ∙ h

pub not_handed_out :
    (db : List MessageRow) (identity id : String) (limit seconds last now : ℕ) (acks : List String)
    → now ≤ last
    → IsHeld id last db
    → hands_out id (receive db identity limit acks seconds now).1.0 ≡ false
unfolding receive
not_handed_out db identity id limit seconds last now acks t v =
    exists-map (λ m. m.id == id) to_message _
    ∙ not_in_page id identity limit last now _ t (settle-IsHeld id identity last db acks v).held

-- A message that a delivery handed out stays with its recipient until the lease lapses: through any
-- deliveries, new messages and recalls up to then, no delivery hands it out again, to anybody, and no
-- sender takes it back.
pub receive-exclusive {ℓ} :
    {S : Type ℓ} (also : S → S) (db : MeshDb S) (identity i sender id : String)
    (limit seconds now limit' seconds' later : ℕ) (acks acks' : List String) (between : List Op)
    → hands_out id (receive db.messages identity limit acks seconds now).1.0 ≡ true
    → Every (Timely (now + seconds)) between
    → later ≤ now + seconds
    → let db' = ops also (op also db (receives identity limit acks seconds now)) between in
      (hands_out id (receive db'.messages i limit' acks' seconds' later).1.0 ≡ false)
      × ((recall db'.messages sender id later).1 ≢ recalled)
unfolding op
receive-exclusive also db identity i sender id limit seconds now limit' seconds' later acks acks'
      between h t l =
    (
      not_handed_out _ i id limit' seconds' (now + seconds) later acks' l held,
      not_recalled id sender (now + seconds) later _ l held,
    )
  where
    held :
        IsHeld id
          (now + seconds)
          (ops also (op also db (receives identity limit acks seconds now)) between).messages
    held =
        ops-IsHeld also (op also db (receives identity limit acks seconds now)) between id
          (now + seconds) t (receive-IsHeld db.messages identity id limit seconds now acks h)
