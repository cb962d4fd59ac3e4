-- ===== src/Mailbox/Tests.antt =====
-- Runs of the theorems on one message and its delivery.
use agent_mesh_platform.Mailbox.Settle.{receive-settled_once}
use agent_mesh_platform.Mailbox.Lease.{receives, recalls, op, ops, hands_out, receive-exclusive}
use agent_mesh_platform.Mailbox.Remaining.{receive-remaining}
use agent_mesh_platform.Mailbox.Reply.{}
use agent_mesh_platform.Mailbox.{
  settle, receive, ReplyRoutingInput, MeshDb, AcceptOptions, accepted_row, stats_row,
}
use agent_mesh_platform.Store.Messages.{
  MailStatus, mesh, mailbox, MailStatus-discrete, mail_status_eq, is_id, take, leasable_messages,
  ack_message, message_by_id, count_leasable, recalled, recall,
}
use agent_mesh_platform.Base.Order.{order_by}
use agent_mesh_platform.Base.{
  String-discrete, string_eq, nat_eq, length, select, first, exists, update, count, ℕ, suc, ◌+◌,
  ◌≤◌, ◌≡◌, refl, ◌≢◌, true, false, none, some, [], ◌∷◌, arith,
}

abbrev letter : AcceptOptions
letter = record {
  id = "m";
  from = "a";
  to = "b";
  sent_by = some "a";
  content = "hello";
  reply_to = none;
  status = MailStatus.pending;
  via = mesh;
  tenant = "default";
  client_message_id = some "retry-1";
  idempotency_digest = some "digest";
}

abbrev empty : MeshDb ℕ
empty = record { messages = []; stats = []; idempotency = []; other = 0 }

abbrev one_message : MeshDb ℕ
one_message = record {
  messages = accepted_row letter 1 ∷ [];
  stats = stats_row letter 1 ∷ [];
  idempotency =
      record {
        sent_by = "a";
        client_message_id = "retry-1";
        request_digest = "digest";
        message_id = "m";
        status = MailStatus.pending;
        created_at = 1;
      }
      ∷ [];
  other = 1;
}

receive-exclusive_example :
    let db' = ops suc (op suc one_message (receives "b" 10 [] 60 5)) (recalls "a" "m" 30 ∷ []) in
    (hands_out "m" (receive db'.messages "b" 10 [] 60 65).1.0 ≡ false)
    × ((recall db'.messages "a" "m" 65).1 ≢ recalled)
unfolding receive settle select take leasable_messages order_by exists String-discrete
    MailStatus-discrete
receive-exclusive_example =
    receive-exclusive suc one_message "b" "b" "a" "m" 10 60 5 10 60 65 [] []
      (recalls "a" "m" 30 ∷ []) refl (omega arith, tt) (omega arith)

receive-remaining_example :
    let result = (receive one_message.messages "b" 10 [] 60 5).1.0 in
    (result.remaining + length result.messages
      ≡ count_leasable (settle one_message.messages "b" []).0 "b" 5)
    × (length result.messages ≤ 10)
unfolding exists
receive-remaining_example = receive-remaining one_message.messages "b" 10 60 5 [] (refl, tt)

abbrev answer : ReplyRoutingInput
answer = record { in_reply_to_via = some mailbox; recipient_live = true; sender_live = false }

receive-settled_once_example :
    let db' =
      ops suc
        (op suc one_message (receives "b" 10 ("m" ∷ []) 60 5))
        (receives "b" 10 [] 60 7 ∷ []) in
    (exists (is_id "m") (receive db'.messages "b" 10 ("m" ∷ []) 60 9).1.1 ≡ false)
    × (hands_out "m" (receive db'.messages "b" 10 ("m" ∷ []) 60 9).1.0 ≡ false)
unfolding receive settle ack_message update count message_by_id first exists String-discrete
    MailStatus-discrete
receive-settled_once_example =
    receive-settled_once suc one_message "b" "b" "m" 10 60 5 10 60 9 ("m" ∷ []) ("m" ∷ [])
      (receives "b" 10 [] 60 7 ∷ []) (refl, tt) refl
