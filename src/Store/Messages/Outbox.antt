-- ===== src/Store/Messages/Outbox.antt =====
-- packages/store/src/outbox.ts: what a sender may take back.
use agent_mesh_platform.Store.Messages.{
  mail_status_eq, MessageRow, is_recallable, recalled, not_found, recall,
}
use agent_mesh_platform.Base.RowLaws.{exists-delete_self, ltb-count, exists_mono}
use agent_mesh_platform.Base.{
  ◌==◌, string_eq, nat_eq, exists, ℕ, String, ◌≡◌, ◌≢◌, ◌↔◌, true, false, ◌&&◌, List, arith,
}

own_of_open :
    (id sender : String) (now : ℕ) (db : List MessageRow)
    → exists (λ m. m.id == id && is_recallable sender now m) db ≡ true
    → exists (λ m. m.id == id && m.from_agent == sender) db ≡ true
own_of_open id sender now db =
    exists_mono (λ m. m.id == id && is_recallable sender now m)
      (λ m. m.id == id && m.from_agent == sender) (λ m h. ground arith) db

-- A recall succeeds exactly if the sender has a pending message of that id which is under no lease,
-- and then every such message is gone; else the table stays, and the answer says whether the sender
-- has a message of that id at all, never whether somebody else does.
pub recall_lem :
    (db : List MessageRow) (sender id : String) (now : ℕ)
    → let (db', outcome) = recall db sender id now in
      let mine = exists (λ m. m.id == id && m.from_agent == sender) db in
      let open_ = exists (λ m. m.id == id && is_recallable sender now m) db in
      ((outcome ≡ recalled) ↔ (open_ ≡ true))
      × ((outcome ≡ not_found) ↔ (mine ≡ false))
      × (exists (λ m. m.id == id && is_recallable sender now m) db' ≡ false)
      × (outcome ≢ recalled → db' ≡ db)
unfolding recall
recall_lem db sender id now = ground (
  arith,
  ltb-count (λ m. m.id == id && is_recallable sender now m) db,
  exists-delete_self (λ m. m.id == id && is_recallable sender now m) db,
  own_of_open id sender now db,
)
