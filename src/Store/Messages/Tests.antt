-- ===== src/Store/Messages/Tests.antt =====
-- A run of the theorem on one message.
use agent_mesh_platform.Store.Messages.Outbox.{recall_lem}
use agent_mesh_platform.Store.Messages.{
  MailStatus, mesh, mail_status_eq, MessageRow, is_recallable, recalled, not_found, recall,
}
use agent_mesh_platform.Base.{
  ◌==◌, string_eq, nat_eq, exists, ◌≡◌, ◌≢◌, ◌↔◌, true, false, ◌&&◌, none, some, [], ◌∷◌,
}

abbrev waiting : MessageRow
waiting = record {
  id = "m";
  from_agent = "a";
  to_agent = "b";
  sent_by = some "a";
  content = "hello";
  reply_to = none;
  status = MailStatus.pending;
  ts = 1;
  leased_until = none;
  via = some mesh;
}

recall_example :
    let (db', outcome) = recall (waiting ∷ []) "a" "m" 5 in
    let mine = exists (λ m. m.id == "m" && m.from_agent == "a") (waiting ∷ []) in
    let open_ = exists (λ m. m.id == "m" && is_recallable "a" 5 m) (waiting ∷ []) in
    ((outcome ≡ recalled) ↔ (open_ ≡ true))
    × ((outcome ≡ not_found) ↔ (mine ≡ false))
    × (exists (λ m. m.id == "m" && is_recallable "a" 5 m) db' ≡ false)
    × (outcome ≢ recalled → db' ≡ waiting ∷ [])
recall_example = recall_lem (waiting ∷ []) "a" "m" 5
