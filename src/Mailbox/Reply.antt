-- ===== src/Mailbox/Reply.antt =====
-- packages/mailbox/src/channel.ts, against the rule that it states.
use agent_mesh_platform.Mailbox.{ReplyRoutingInput, reply_channel}
use agent_mesh_platform.Store.Messages.{Channel, mesh, mailbox}
use agent_mesh_platform.Base.{◌≡◌, refl, ◌↔◌, Bool, true, Option, none, some, arith}

routed :
    (via : Option Channel) (recipient sender : Bool)
    → (reply_channel
          (record { in_reply_to_via = via; recipient_live = recipient; sender_live = sender })
        ≡ mesh)
      ↔ ((recipient ≡ true) × ((via ≡ some mailbox) → sender ≡ true))
unfolding reply_channel
routed none recipient sender = (λ h. (ground arith, λ e. cc), λ h. ground arith)
routed (some mesh) recipient sender = (λ h. (ground arith, λ e. cc), λ h. ground arith)
routed (some mailbox) recipient sender =
    (λ h. (ground arith, λ e. ground arith), λ h. ground (arith, h.1 refl))

-- A send takes the mesh exactly if its recipient is live and, where it answers something that came
-- through the mailbox, its sender is live too. So a message never takes the mesh to somebody who is
-- not there.
pub reply_channel_iff :
    (input : ReplyRoutingInput)
    → (reply_channel input ≡ mesh) ↔ (
        (input.recipient_live ≡ true)
        × ((input.in_reply_to_via ≡ some mailbox) → input.sender_live ≡ true))
reply_channel_iff input = routed input.in_reply_to_via input.recipient_live input.sender_live
