-- ===== src/Hub/Send/Dropped.antt =====
-- A pushed frame that does not land: the message is queued, and its key's row says that it is not.
use agent_mesh_platform.Hub.Send.Retry.{
  is_deleted-mark_send, provisional, sent_envelope, passed_retry, sent_presence,
}
use agent_mesh_platform.Hub.Send.Recorded.{handle_send-IsRecorded}
use agent_mesh_platform.Hub.Send.Stored.{row_of, IsPushed, IsQueued, deliver_now_socket}
use agent_mesh_platform.Hub.Send.Unsent.{sent-IsPassed}
use agent_mesh_platform.Hub.Send.Sent.{}
use agent_mesh_platform.Hub.Send.Handler.{deliver_now, Envelope, Request, handle_send}
use agent_mesh_platform.Hub.Send.{
  string, SendParams, Runtime, Hub, recipient_deleted, duplicate_of, sent_as, text_of, is_deleted,
}
use agent_mesh_platform.Mailbox.{}
use agent_mesh_platform.Hub.Presence.{socket_of}
use agent_mesh_platform.Store.Sources.{truthy}
use agent_mesh_platform.Store.Messages.{
  MailStatus, delivered, pending, mail_status_eq, MessageRow, message_by_id,
}
use agent_mesh_platform.Store.Agents.{}
use agent_mesh_platform.Base.RowLaws.{}
use mathlib.Core.List.{append-nil}
use agent_mesh_platform.Base.Map.{get}
use agent_mesh_platform.Base.{
  if◌then◌else◌, string_eq, nat_eq, get_or, is_some, ℕ, ◌/◌, String, ◌≡◌, sym, ap, ◌∙◌, subst, ◌⊎◌,
  inl, inr, false, Option, some, [], arith,
}

some_injective {ℓ} : {A : Type ℓ} {a b : A} → some a ≡ some b → a ≡ b
some_injective h = cc

recipient_text : (a b : String) → text_of (string a) ≡ some b → a ≡ b
recipient_text a b h = ground arith

module _ (rt : Runtime) where
  -- What was pushed to a socket that takes no frame is queued.
  queued :
      (hub hub' : Hub) (e : Envelope) (status : MailStatus) (w : ℕ)
      → socket_of hub.presence e.to ≡ some w
      → rt.lands w ≡ false
      → IsPushed rt hub hub' e status ⊎ IsQueued hub hub' status
      → status ≡ pending
  queued hub hub' e status w s l (inl (d, (ws, rest, s', l', f))) =
      let same : w ≡ ws = some_injective (sym s ∙ s') in absurd (ground arith)
  queued hub hub' e status w s l (inr (p, f)) = p

  -- The sends to a socket that drops its frame: the answer is `pending`, and the answer to a retry under
  -- the same key is `delivered`, of a message that is still queued.
  pub handle_send-dropped :
      (hub : Hub) (ws : ℕ) (params : SendParams) (req req' : Request) (now_ms later : ℕ)
      (hub' : Hub) (id key sender to : String) (status : MailStatus) (w : ℕ)
      → handle_send rt hub ws params req now_ms ≡ (hub', sent_as id status)
      → params.client_message_id ≡ string key
      → truthy (get ws hub.presence.ws_identities) ≡ some sender
      → text_of params.to ≡ some to
      → deliver_now hub (get_or (text_of params.from) sender) to params.reply_to ≡ some w
      → rt.lands w ≡ false
      → (status ≡ pending)
        × (handle_send rt hub' ws params req' later ≡ (hub', duplicate_of id delivered))
        × ((m : MessageRow) × (message_by_id hub'.messages id ≡ some m) × (m.status ≡ pending))
  handle_send-dropped hub ws params req req' now_ms later hub' id key sender to status w h k es et t
        l =
      let p = sent-IsPassed rt hub ws params req now_ms hub' id status h in
      let r = handle_send-IsRecorded rt hub ws params req now_ms hub' id status h in
      let s : sender ≡ p.sender = some_injective (sym es ∙ p.connected) in
      let o : to ≡ p.to = some_injective (sym et ∙ p.recipient) in
      let aimed : r.envelope.to ≡ to =
        recipient_text r.envelope.to to (ap text_of r.recipient ∙ et) in
      let target =
        deliver_now_socket rt hub (get_or (text_of params.from) sender) to params.reply_to w t in
      let q =
        queued hub hub' r.envelope status w (ap (socket_of hub.presence) aimed ∙ target) l r.way in
      let t' =
        subst
          (λ (x : String).
            deliver_now hub (get_or (text_of params.from) x) p.to params.reply_to ≡ some w)
          s
          (subst
            (λ (y : String).
              deliver_now hub (get_or (text_of params.from) sender) y params.reply_to ≡ some w)
            o t) in
      let live : is_deleted p.to hub'.agents ≡ false =
        ap (is_deleted p.to) r.stamped
        ∙ is_deleted-mark_send p.to r.envelope.from (now_ms / 1000) hub.agents
        ∙ p.live in
      let again =
        passed_retry rt hub ws params req now_ms hub' id key status p hub' ws req' later [] rt.lands
          rt.inserts rt.stamps rt.commits h k
          (ap (get ws) (sent_presence rt hub ws params req now_ms hub' id status h))
          (sym (append-nil hub'.idempotency))
        ∙ ap
            (λ b. (
              hub',
              if b
                  then recipient_deleted
                  else duplicate_of id
                      (provisional rt hub (sent_envelope rt hub ws params req now_ms p)),
            ))
            live
        ∙ ap (λ (x : Option ℕ). (hub', duplicate_of id (if is_some x then delivered else pending)))
            t' in
      (q, again, (row_of hub r.envelope status (now_ms / 1000), r.row, q))
