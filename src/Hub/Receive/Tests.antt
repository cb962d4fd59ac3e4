-- ===== src/Hub/Receive/Tests.antt =====
-- The recipient's socket drops the message, and the recipient fetches it.
use agent_mesh_platform.Hub.Receive.Waiting.{hands_out, handle_receive-handle_send}
use agent_mesh_platform.Hub.Receive.{
  negative, number, ReceiveParams, Settings, no_identity, at_least_one, limit_of, texts, ack_ids_of,
  handle_receive,
}
use agent_mesh_platform.Hub.Send.Tests.{runtime, hub, params, request, sent_to_gone, after_drop}
use agent_mesh_platform.Hub.Send.Handler.{
  deliver_now, persist, deliver, send_envelope, send_from, handle_send,
}
use agent_mesh_platform.Hub.Send.{undefined, string, Hub, check_key, authorize}
use agent_mesh_platform.Hub.Presence.{socket_of}
use agent_mesh_platform.Hub.Dormancy.{check_dormant_source}
use agent_mesh_platform.Mailbox.Lease.{Op, receives, recalls, op, ops}
use agent_mesh_platform.Mailbox.{
  settle, lease_all, receive, reply_channel, MeshDb, remember, accept,
}
use agent_mesh_platform.Store.Groups.{group_of, may_send}
use agent_mesh_platform.Base.Order.{order_by}
use agent_mesh_platform.Base.Map.{get}
use agent_mesh_platform.Store.Messages.{
  MailStatus-discrete, mail_status_eq, take, leasable_messages, count_leasable, recall,
}
use agent_mesh_platform.Base.{
  String-discrete, string_eq, nat_eq, distinct, select, first, exists, update, delete, count, ℕ,
  ◌≡◌, refl, true, none, some, List, [], ◌∷◌, arith, ℕ_discrete,
}

abbrev settings : Settings
settings = record { max_receive_batch = 100; lease_seconds = 60 }

abbrev fetch : ReceiveParams
fetch = record { limit = some (number 500); ack_ids = none }

below_zero : limit_of settings (record { limit = some negative; ack_ids = none }) ≡ 1
unfolding at_least_one
below_zero = refl

zero_is_default : limit_of settings (record { limit = some (number 0); ack_ids = none }) ≡ 50
unfolding at_least_one
zero_is_default = refl

only_texts :
    ack_ids_of (record { limit = none; ack_ids = some (undefined ∷ string "m" ∷ []) }) ≡ "m" ∷ []
unfolding texts
only_texts = refl

unknown_caller : handle_receive settings hub none fetch 9 ≡ (hub, no_identity)
unfolding handle_receive
unknown_caller = refl

one_waits : count_leasable after_drop.messages "gone" 9 ≡ 1
unfolding handle_send send_from get String-discrete ℕ_discrete check_key first exists authorize
    may_send group_of check_dormant_source send_envelope deliver_now socket_of reply_channel persist
    accept remember deliver count_leasable count update MailStatus-discrete
one_waits = refl

one_hundred : limit_of settings fetch ≡ 100
unfolding at_least_one
one_hundred = refl

-- The other tables stand beside; meanwhile another agent fetches, and the sender recalls another
-- message.
abbrev table : MeshDb ℕ
table = record { messages = after_drop.messages; stats = []; idempotency = []; other = 0 }

abbrev between : List Op
between = receives "b" 10 [] 60 7 ∷ recalls "a" "msg_0" 8 ∷ []

abbrev later_hub : Hub
later_hub = record after_drop { agents = []; messages = (ops (λ n. n) table between).messages }

one_waits_still : count_leasable later_hub.messages "gone" 9 ≡ 1
unfolding handle_send send_from get String-discrete ℕ_discrete check_key first exists authorize
    may_send group_of check_dormant_source send_envelope deliver_now socket_of reply_channel persist
    accept remember deliver count_leasable count update MailStatus-discrete ops op receive settle
    lease_all leasable_messages order_by select take recall delete
one_waits_still = refl

handle_receive-handle_send_example :
    hands_out "msg_1" (handle_receive settings later_hub (some "gone") fetch 9).1 ≡ true
unfolding String-discrete
handle_receive-handle_send_example =
    handle_receive-handle_send (λ n. n) table between runtime hub 1 (params "gone") request 5000
      after_drop "msg_1" "gone" later_hub settings fetch 9 sent_to_gone refl refl refl
      (distinct "b" "gone" refl, (distinct "msg_0" "msg_1" refl, tt)) refl refl
      (omega (arith, one_waits_still, one_hundred))
