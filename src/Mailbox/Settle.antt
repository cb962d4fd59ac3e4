-- ===== src/Mailbox/Settle.antt =====
-- A message is settled once.
use agent_mesh_platform.Mailbox.Lease.{
  Op, receives, accepts, recalls, op, ops, Timely, settle-IsHeld, lease_all-IsHeld, op-IsHeld,
  hands_out, not_handed_out,
}
use agent_mesh_platform.Mailbox.Remaining.{same_id, ack-IsKeyed}
use agent_mesh_platform.Mailbox.Receive.{is_free, IsHeld, not_in_page, free-ack, record-ack}
use agent_mesh_platform.Mailbox.{reported, settle, receive, MeshDb}
use agent_mesh_platform.Store.Messages.{
  mail_status_eq, MessageRow, is_id, is_held, ack_message, message_by_id,
}
use agent_mesh_platform.Base.RowLaws.{first_holds}
use agent_mesh_platform.Base.{
  Bool-cases, Option-cases, string_eq, nat_eq, first, exists, update, count, IsKeyed, ℕ, suc, ◌+◌,
  ◌≤◌, String, ◌≡◌, refl, sym, ◌∙◌, subst, ◌⊎◌, inl, inr, true, false, List, [], ◌∷◌, arith,
}

-- Held for ever: the message was delivered.
abbrev IsSettled : String → List MessageRow → Type 0
IsSettled id db = (last : ℕ) → IsHeld id last db

free-earlier :
    (id : String) (last last' : ℕ) (db : List MessageRow)
    → last ≤ last'
    → exists (is_free id last') db ≡ false
    → exists (is_free id last) db ≡ false
unfolding exists
free-earlier id last last' [] t h = refl
free-earlier id last last' (m ∷ db) t h = ground (arith, free-earlier id last last' db)

IsHeld-earlier :
    (id : String) (last last' : ℕ) (db : List MessageRow)
    → last ≤ last'
    → IsHeld id last' db
    → IsHeld id last db
IsHeld-earlier id last last' db t v = record {
  on_record = v.on_record;
  held = free-earlier id last last' db t v.held;
}

at_time : Op → ℕ
at_time (receives _ _ _ _ now) = now
at_time (accepts _ now) = now
at_time (recalls _ _ now) = now

Timely-at : (last : ℕ) (o : Op) → Timely (last + at_time o) o
unfolding at_time
Timely-at last (receives _ _ _ _ now) = omega arith
Timely-at last (accepts _ now) = omega arith
Timely-at last (recalls _ _ now) = omega arith

op-IsSettled {ℓ} :
    {S : Type ℓ} (also : S → S) (db : MeshDb S) (o : Op) (id : String)
    → IsSettled id db.messages
    → IsSettled id (op also db o).messages
op-IsSettled also db o id v last =
    IsHeld-earlier id last (last + at_time o) _ (omega arith)
      (op-IsHeld also db o id (last + at_time o) (Timely-at last o) (v (last + at_time o)))

ops-IsSettled {ℓ} :
    {S : Type ℓ} (also : S → S) (db : MeshDb S) (os : List Op) (id : String)
    → IsSettled id db.messages
    → IsSettled id (ops also db os).messages
unfolding ops
ops-IsSettled also db [] id v = v
ops-IsSettled also db (o ∷ os) id v =
    ops-IsSettled also (op also db o) os id (op-IsSettled also db o id v)

other_rows :
    (id identity : String) (last : ℕ) (m : MessageRow) (db : List MessageRow)
    → exists (same_id m) db ≡ false
    → m.id ≡ id
    → (exists (is_free id last) (ack_message db id identity).0 ≡ false)
      × (count (is_held id identity) db ≡ 0)
unfolding exists count ack_message update
other_rows id identity last m [] h e = (refl, refl)
other_rows id identity last m (r ∷ db) h e = ground (arith, other_rows id identity last m db)

-- With unique ids, an acknowledgement that changed a row leaves none that is pending.
acked-free :
    (id identity : String) (last : ℕ) (db : List MessageRow)
    → IsKeyed same_id db
    → 1 ≤ count (is_held id identity) db
    → exists (is_free id last) (ack_message db id identity).0 ≡ false
unfolding exists count ack_message update
acked-free id identity last [] k h = ground arith
acked-free id identity last (m ∷ db) k h =
    ground (arith, acked-free id identity last db k.1, other_rows id identity last m db k.0)

held_absent :
    (id identity : String) (db : List MessageRow)
    → ((last : ℕ) → exists (is_free id last) db ≡ false)
    → count (is_held id identity) db ≡ 0
unfolding exists count
held_absent id identity [] h = refl
held_absent id identity (m ∷ db) h = elim (Option-cases m.leased_until) [
  | inl e ↦ ground (arith, h 0, held_absent id identity db (λ last. ground (arith, h last)))
  | inr (t, e) ↦
      ground (arith, h (suc t), held_absent id identity db (λ last. ground (arith, h last)))
]

-- What an acknowledgement reports carries its id.
reported_other :
    (id j : String) (changes : ℕ) (db rest : List MessageRow)
    → exists (is_id id) (reported changes (message_by_id db j) rest) ≡ true
    → (exists (is_id id) rest ≡ true) ⊎ ((j ≡ id) × (1 ≤ changes))
unfolding exists message_by_id
reported_other id j changes db rest h = elim (Option-cases (first (is_id j) db)) [
  | inl e ↦ inl (ground arith)
  | inr (m, e) ↦ ground (arith, first_holds (is_id j) db m e)
]

there_of_held :
    (j identity : String) (db : List MessageRow)
    → 1 ≤ (ack_message db j identity).1
    → exists (is_id j) db ≡ true
unfolding ack_message count exists
there_of_held j identity [] h = absurd (omega (arith, h))
there_of_held j identity (m ∷ db) h = ground (arith, there_of_held j identity db)

acked-IsHeld :
    (db : List MessageRow) (j identity : String) (last : ℕ)
    → IsKeyed same_id db
    → 1 ≤ (ack_message db j identity).1
    → IsHeld j last (ack_message db j identity).0
unfolding ack_message
acked-IsHeld db j identity last k changed = record {
  on_record = record-ack j j identity db ∙ there_of_held j identity db changed;
  held = acked-free j identity last db k changed;
}

IsSettled-of_report :
    (db : List MessageRow) (identity id : String) (ids : List String)
    → IsKeyed same_id db
    → exists (is_id id) (settle db identity ids).1 ≡ true
    → IsSettled id (settle db identity ids).0
unfolding settle exists
IsSettled-of_report db identity id [] k h = absurd (ground arith)
IsSettled-of_report db identity id (j ∷ ids) k h =
    elim (reported_other id j (ack_message db j identity).1 (ack_message db j identity).0
      (settle (ack_message db j identity).0 identity ids).1 h) [
        | inl later ↦
            IsSettled-of_report (ack_message db j identity).0 identity id ids
              (ack-IsKeyed db j identity k) later
        | inr (same, changed) ↦ λ last.
            settle-IsHeld id identity last (ack_message db j identity).0 ids (
              subst (λ i. IsHeld i last (ack_message db j identity).0) same
                (acked-IsHeld db j identity last k changed))
      ]

acked-IsSettled :
    (db : List MessageRow) (identity id j : String)
    → IsSettled id db
    → IsSettled id (ack_message db j identity).0
acked-IsSettled db identity id j v last = record {
  on_record = record-ack id j identity db ∙ (v last).on_record;
  held = free-ack id j identity last db (v last).held;
}

unreported :
    (db : List MessageRow) (identity id : String) (ids : List String)
    → IsSettled id db
    → exists (is_id id) (settle db identity ids).1 ≡ false
unfolding settle exists ack_message
unreported db identity id [] v = refl
unreported db identity id (j ∷ ids) v =
    elim (Bool-cases (exists (is_id id) (settle db identity (j ∷ ids)).1)) [
      | inr absent ↦ absent
      | inl shown ↦
          elim (reported_other id j (ack_message db j identity).1 (ack_message db j identity).0
            (settle (ack_message db j identity).0 identity ids).1 shown) [
              | inl later ↦ absurd (
                  ground (
                    arith,
                    unreported (ack_message db j identity).0 identity id ids
                        (acked-IsSettled db identity id j v),
                  ))
              | inr (same, changed) ↦ absurd (none_changed same changed)
            ]
    ]
  where
    none_changed : j ≡ id → 1 ≤ (ack_message db j identity).1 → ⊥
    none_changed same changed = absurd (
        omega (
          arith,
          held_absent j identity db
              (λ last. subst (λ u. exists (is_free u last) db ≡ false) (sym same) (v last).held),
        ))

-- With unique message ids, a message is reported as settled at most once: after a receive has reported
-- it, through any deliveries, new messages and recalls, no receive of anybody reports it again or hands
-- it out, however often its id is acknowledged.
pub receive-settled_once {ℓ} :
    {S : Type ℓ} (also : S → S) (db : MeshDb S) (identity i id : String)
    (limit seconds now limit' seconds' later : ℕ) (acks acks' : List String) (between : List Op)
    → IsKeyed same_id db.messages
    → exists (is_id id) (receive db.messages identity limit acks seconds now).1.1 ≡ true
    → let db' = ops also (op also db (receives identity limit acks seconds now)) between in
      (exists (is_id id) (receive db'.messages i limit' acks' seconds' later).1.1 ≡ false)
      × (hands_out id (receive db'.messages i limit' acks' seconds' later).1.0 ≡ false)
unfolding op receive
receive-settled_once also db identity i id limit seconds now limit' seconds' later acks acks'
      between k h =
    (
      unreported _ i id acks' kept_settled,
      not_handed_out _ i id limit' seconds' later later acks' (omega arith) (kept_settled later),
    )
  where
    acked : List MessageRow
    acked = (settle db.messages identity acks).0

    reported_one : IsSettled id acked
    reported_one = IsSettled-of_report db.messages identity id acks k h

    settled_now : IsSettled id (op also db (receives identity limit acks seconds now)).messages
    settled_now last = IsHeld-earlier id last (last + now) _ (omega arith) (
        lease_all-IsHeld id (last + now) seconds now acked _ (reported_one (last + now)) (
          inl (
            not_in_page id identity limit (last + now) now acked (omega arith)
              (reported_one (last + now)).held)))

    kept_settled :
        IsSettled id
          (ops also (op also db (receives identity limit acks seconds now)) between).messages
    kept_settled =
        ops-IsSettled also (op also db (receives identity limit acks seconds now)) between id
          settled_now
