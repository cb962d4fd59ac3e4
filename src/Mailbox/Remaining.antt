-- ===== src/Mailbox/Remaining.antt =====
-- What `remaining` counts.
use agent_mesh_platform.Mailbox.Receive.{record-ack}
use agent_mesh_platform.Mailbox.{to_message, settle, lease_all, receive}
use agent_mesh_platform.Store.Messages.{
  mail_status_eq, MessageRow, is_leasable, take, leasable_messages, lease_message, ack_message,
  count_leasable,
}
use agent_mesh_platform.Base.RowLaws.{length-select, count_ext, count-select, select-IsKeyed}
use agent_mesh_platform.Base.Order.{order_by, length-order_by, count-order_by, order_by-IsKeyed}
use agent_mesh_platform.Base.{
  leb, ◌==◌, string_eq, nat_eq, length, select, exists, update, count, IsKeyed, ℕ, zero, suc, ◌+◌,
  ◌≤◌, String, ◌≡◌, refl, sym, ap, ◌∙◌, Bool, true, false, not, ◌&&◌, ◌||◌, List, [], ◌∷◌, map,
  arith,
}

-- `PRIMARY KEY` of `messages`.
abbrev pub same_id : MessageRow → MessageRow → Bool
same_id m r = r.id == m.id

same_id-sym : (a b : MessageRow) → same_id a b ≡ same_id b a
same_id-sym a b = ground arith

-- Whether a message is on a page, by its id.
abbrev on_page : List MessageRow → String → Bool
on_page page id = exists (λ m. m.id == id) page

leasable-lease :
    (identity j : String) (q : String → Bool) (seconds now : ℕ) (db : List MessageRow)
    → count (λ m. is_leasable identity now m && q m.id) (lease_message db j seconds now)
      ≡ count (λ m. is_leasable identity now m && (q m.id && not (j == m.id))) db
unfolding lease_message count update
leasable-lease identity j q seconds now [] = refl
leasable-lease identity j q seconds now (m ∷ db) =
    ground (arith, leasable-lease identity j q seconds now db)

-- A lease of a page takes exactly its messages away.
leasable-lease_all :
    (identity : String) (q : String → Bool) (seconds now : ℕ) (db page : List MessageRow)
    → count (λ m. is_leasable identity now m && q m.id) (lease_all db page seconds now)
      ≡ count (λ m. is_leasable identity now m && (q m.id && not (on_page page m.id))) db
unfolding lease_all exists
leasable-lease_all identity q seconds now db [] = count_ext _ _ (λ m. ground arith) db
leasable-lease_all identity q seconds now db (x ∷ page) =
    leasable-lease_all identity q seconds now (lease_message db x.id seconds now) page
    ∙ leasable-lease identity x.id (λ id. q id && not (on_page page id)) seconds now db
    ∙ count_ext _ _ (λ m. ground arith) db

count_skip :
    (y : MessageRow) (e : String → Bool) (ys : List MessageRow)
    → exists (same_id y) ys ≡ false
    → count (λ m. not (y.id == m.id || e m.id)) ys ≡ count (λ m. not (e m.id)) ys
unfolding count exists
count_skip y e [] h = refl
count_skip y e (m ∷ ys) h = ground (arith, count_skip y e ys)

count_all : (ys : List MessageRow) → count (λ m. not (on_page [] m.id)) ys ≡ length ys
unfolding count exists
count_all [] = refl
count_all (m ∷ ys) = ap suc (count_all ys)

-- Of a table with unique ids, a page and the rows that are not on it make up all.
page_and_rest :
    (limit : ℕ) (ys : List MessageRow)
    → IsKeyed same_id ys
    → count (λ m. not (on_page (take limit ys) m.id)) ys + length (take limit ys) ≡ length ys
unfolding take count exists
page_and_rest zero ys k = ground (arith, count_all ys)
page_and_rest (suc n) [] k = refl
page_and_rest (suc n) (y ∷ ys) k =
    ground (arith, page_and_rest n ys k.1, count_skip y (on_page (take n ys)) ys k.0)

length-map {ℓ κ} :
    {A : Type ℓ} {B : Type κ} (f : A → B) (xs : List A) → length (map f xs) ≡ length xs
length-map f [] = refl
length-map f (x ∷ xs) = ap suc (length-map f xs)

length-take : (n : ℕ) (xs : List MessageRow) → length (take n xs) ≤ n
unfolding take
length-take zero xs = omega arith
length-take (suc n) [] = omega arith
length-take (suc n) (x ∷ xs) = ground (arith, length-take n xs)

pub ack-IsKeyed :
    (db : List MessageRow) (id identity : String)
    → IsKeyed same_id db
    → IsKeyed same_id (ack_message db id identity).0
unfolding ack_message update
ack-IsKeyed [] id identity k = tt
ack-IsKeyed (m ∷ db) id identity k =
    ground (arith, ack-IsKeyed db id identity k.1, record-ack m.id id identity db)

pub settle-IsKeyed :
    (db : List MessageRow) (identity : String) (ids : List String)
    → IsKeyed same_id db
    → IsKeyed same_id (settle db identity ids).0
unfolding settle
settle-IsKeyed db identity [] k = k
settle-IsKeyed db identity (id ∷ ids) k =
    settle-IsKeyed (ack_message db id identity).0 identity ids (ack-IsKeyed db id identity k)

leased_count :
    (db : List MessageRow) (identity : String) (limit seconds now : ℕ)
    → IsKeyed same_id db
    → let page = leasable_messages db identity limit now in
      count_leasable (lease_all db page seconds now) identity now + length page
      ≡ count_leasable db identity now
unfolding leasable_messages count_leasable
leased_count db identity limit seconds now k = ground (
  arith,
  rest,
  page_and_rest limit ys keyed,
  length-order_by older (select waiting db),
  length-select waiting db,
)
  where
    waiting : MessageRow → Bool
    waiting = is_leasable identity now

    older : MessageRow → MessageRow → Bool
    older a b = leb a.ts b.ts

    ys : List MessageRow
    ys = order_by older (select waiting db)

    off_page : MessageRow → Bool
    off_page m = not (on_page (take limit ys) m.id)

    keyed : IsKeyed same_id ys
    keyed =
        order_by-IsKeyed older same_id same_id-sym (select waiting db)
          (select-IsKeyed same_id waiting db k)

    rest : count waiting (lease_all db (take limit ys) seconds now) ≡ count off_page ys
    rest =
        count_ext _ (λ m. waiting m && true) (λ m. ground arith)
          (lease_all db (take limit ys) seconds now)
        ∙ leasable-lease_all identity (λ _. true) seconds now db (take limit ys)
        ∙ count_ext _ (λ m. waiting m && off_page m) (λ m. ground arith) db
        ∙ sym (count-select waiting off_page db)
        ∙ sym (count-order_by older off_page (select waiting db))

-- With unique message ids, a delivery hands out at most `limit` messages, and `remaining` is exactly
-- what was waiting, once the acknowledged messages are settled, less what was handed out.
pub receive-remaining :
    (db : List MessageRow) (identity : String) (limit seconds now : ℕ) (acks : List String)
    → IsKeyed same_id db
    → let result = (receive db identity limit acks seconds now).1.0 in
      (result.remaining + length result.messages
        ≡ count_leasable (settle db identity acks).0 identity now)
      × (length result.messages ≤ limit)
unfolding receive leasable_messages
receive-remaining db identity limit seconds now acks k = ground (
  arith,
  leased_count acked identity limit seconds now (settle-IsKeyed db identity acks k),
  length-map to_message (leasable_messages acked identity limit now),
  page_le,
)
  where
    acked : List MessageRow
    acked = (settle db identity acks).0

    page_le : length (leasable_messages acked identity limit now) ≤ limit
    page_le = length-take limit _
