-- ===== src/Mailbox/Receive.antt =====
-- What the steps of a delivery do to the rows of one message.
use agent_mesh_platform.Mailbox.{}
use agent_mesh_platform.Store.Messages.{
  MailStatus, mail_status_eq, MessageRow, is_id, unleased, is_leasable, take, leasable_messages,
  lease_message, ack_message, is_recallable, recalled, recall,
}
use agent_mesh_platform.Base.RowLaws.{ltb-count, exists-delete-false}
use agent_mesh_platform.Base.Order.{exists-order_by}
use agent_mesh_platform.Base.{
  ltb, leb, Bool-cases, ◌==◌, string_eq, nat_eq, select, exists, update, delete, count, ℕ, zero,
  suc, ◌+◌, ◌≤◌, String, ◌≡◌, refl, ◌∙◌, ◌≢◌, ◌⊎◌, inl, inr, Bool, true, false, ◌&&◌, List, [], ◌∷◌,
  map, arith,
}

-- A message that could be handed out or taken back at a time.
abbrev pub is_free : String → ℕ → MessageRow → Bool
is_free id now m = m.id == id && (m.status == MailStatus.pending && unleased now m.leased_until)

-- A message is on record, and nobody can be given it at a time, nor its sender take it back.
pub record IsHeld (id : String) (now : ℕ) (db : List MessageRow) : Type 0 where
  pub on_record : exists (is_id id) db ≡ true
  pub held : exists (is_free id now) db ≡ false

pub exists-take {ℓ} :
    {A : Type ℓ} (p : A → Bool) (n : ℕ) (xs : List A)
    → exists p xs ≡ false
    → exists p (take n xs) ≡ false
unfolding exists take
exists-take p zero xs h = refl
exists-take p (suc n) [] h = refl
exists-take p (suc n) (x ∷ xs) h = ground (arith, exists-take p n xs)

pub exists-map {ℓ κ} :
    {A : Type ℓ} {B : Type κ} (p : B → Bool) (f : A → B) (xs : List A)
    → exists p (map f xs) ≡ exists (λ x. p (f x)) xs
unfolding exists
exists-map p f [] = refl
exists-map p f (x ∷ xs) = ground (arith, exists-map p f xs)

not_selected :
    (id identity : String) (last now : ℕ) (db : List MessageRow)
    → now ≤ last
    → exists (is_free id last) db ≡ false
    → exists (is_id id) (select (is_leasable identity now) db) ≡ false
unfolding exists select
not_selected id identity last now [] t h = refl
not_selected id identity last now (m ∷ db) t h =
    ground (arith, not_selected id identity last now db)

pub not_in_page :
    (id identity : String) (limit last now : ℕ) (db : List MessageRow)
    → now ≤ last
    → exists (is_free id last) db ≡ false
    → exists (is_id id) (leasable_messages db identity limit now) ≡ false
unfolding leasable_messages
not_in_page id identity limit last now db t h = exists-take (is_id id) limit _ (
    exists-order_by (λ a b. leb a.ts b.ts) (is_id id) (select (is_leasable identity now) db)
    ∙ not_selected id identity last now db t h)

pub free-ack :
    (id j identity : String) (last : ℕ) (db : List MessageRow)
    → exists (is_free id last) db ≡ false
    → exists (is_free id last) (ack_message db j identity).0 ≡ false
unfolding exists ack_message update
free-ack id j identity last [] h = refl
free-ack id j identity last (m ∷ db) h = ground (arith, free-ack id j identity last db)

pub record-ack :
    (id j identity : String) (db : List MessageRow)
    → exists (is_id id) (ack_message db j identity).0 ≡ exists (is_id id) db
unfolding exists ack_message update
record-ack id j identity [] = refl
record-ack id j identity (m ∷ db) = ground (arith, record-ack id j identity db)

pub record-lease :
    (id j : String) (seconds now : ℕ) (db : List MessageRow)
    → exists (is_id id) (lease_message db j seconds now) ≡ exists (is_id id) db
unfolding exists lease_message update
record-lease id j seconds now [] = refl
record-lease id j seconds now (m ∷ db) = ground (arith, record-lease id j seconds now db)

-- A lease takes a message away until it lapses; a lease of another message does not concern it.
free-lease :
    (id j : String) (last seconds now : ℕ) (db : List MessageRow)
    → exists (is_free id last) db ≡ false
    → ((j ≢ id) ⊎ (last ≤ now + seconds))
    → exists (is_free id last) (lease_message db j seconds now) ≡ false
unfolding exists lease_message update
free-lease id j last seconds now [] h o = refl
free-lease id j last seconds now (m ∷ db) h o = ground (arith, free-lease id j last seconds now db)

pub lease-IsHeld :
    (id j : String) (last seconds now : ℕ) (db : List MessageRow)
    → IsHeld id last db
    → ((j ≢ id) ⊎ (last ≤ now + seconds))
    → IsHeld id last (lease_message db j seconds now)
lease-IsHeld id j last seconds now db v o = record {
  on_record = record-lease id j seconds now db ∙ v.on_record;
  held = free-lease id j last seconds now db v.held o;
}

pub own_lease :
    (id : String) (last seconds now : ℕ) (db : List MessageRow)
    → last ≤ now + seconds
    → exists (is_free id last) (lease_message db id seconds now) ≡ false
unfolding exists lease_message update
own_lease id last seconds now [] t = refl
own_lease id last seconds now (m ∷ db) t = ground (arith, own_lease id last seconds now db)

record-recall :
    (id sender message_id : String) (last now : ℕ) (db : List MessageRow)
    → now ≤ last
    → exists (is_free id last) db ≡ false
    → exists (is_id id) (delete (λ m. m.id == message_id && is_recallable sender now m) db)
      ≡ exists (is_id id) db
unfolding exists delete
record-recall id sender message_id last now [] t h = refl
record-recall id sender message_id last now (m ∷ db) t h =
    ground (arith, record-recall id sender message_id last now db)

-- A recall takes nothing that somebody holds.
pub recall-IsHeld :
    (id sender message_id : String) (last now : ℕ) (db : List MessageRow)
    → now ≤ last
    → IsHeld id last db
    → IsHeld id last (recall db sender message_id now).0
unfolding recall
recall-IsHeld id sender message_id last now db t v =
    elim (Bool-cases (ltb 0 (count (λ m. m.id == message_id && is_recallable sender now m) db))) [
      | inl some_match ↦ rw some_match (record {
        on_record = record-recall id sender message_id last now db t v.held ∙ v.on_record;
        held =
            exists-delete-false (is_free id last)
              (λ m. m.id == message_id && is_recallable sender now m) db v.held;
      })
      | inr no_match ↦ rw no_match v
    ]

no_match_of_held :
    (id sender : String) (last now : ℕ) (db : List MessageRow)
    → now ≤ last
    → exists (is_free id last) db ≡ false
    → exists (λ m. m.id == id && is_recallable sender now m) db ≡ false
unfolding exists
no_match_of_held id sender last now [] t h = refl
no_match_of_held id sender last now (m ∷ db) t h =
    ground (arith, no_match_of_held id sender last now db)

pub not_recalled :
    (id sender : String) (last now : ℕ) (db : List MessageRow)
    → now ≤ last
    → IsHeld id last db
    → (recall db sender id now).1 ≢ recalled
unfolding recall
not_recalled id sender last now db t v = ground (
  arith,
  ltb-count (λ m. m.id == id && is_recallable sender now m) db,
  no_match_of_held id sender last now db t v.held,
)
