-- ===== src/Hub/Send/Recorded.antt =====
-- What an accepted send leaves: the row, the frame and the events say the same.
use agent_mesh_platform.Hub.Send.Stored.{
  row_of, IsPushed, IsQueued, deliver_now_socket, persist_lem, deliver_lem,
}
use agent_mesh_platform.Hub.Send.Unsent.{
  send_envelope-cases, truthy-some, sent-IsPassed, text_of-some,
}
use agent_mesh_platform.Hub.Send.Handler.{
  deliver_now, Envelope, persist, deliver, mesh_event, outcome_event, Request, envelope_of,
  handle_send,
}
use agent_mesh_platform.Hub.Send.{
  string, SendParams, Runtime, sent_event, Hub, SendAnswer, sent_as, text_of, content_of,
}
use agent_mesh_platform.Hub.Refusals.{key_eq}
use agent_mesh_platform.Store.Sources.{mark_send}
use agent_mesh_platform.Store.Messages.{
  MailStatus, delivered, pending, mail_status_eq, message_by_id,
}
use agent_mesh_platform.Base.Map.{get}
use agent_mesh_platform.Base.{
  if◌then◌else◌, string_eq, nat_eq, ok, get_or, is_some, ℕ, ◌/◌, String, ◌≡◌, refl, sym, ap, ◌∙◌,
  subst, ◌⊎◌, inl, inr, Option, none, some, [], ◌∷◌, ◌++◌, arith,
}

-- What an answer with an id says of the state.
pub record IsRecorded (rt : Runtime) (hub : Hub) (ws : ℕ) (params : SendParams) (req : Request)
    (now_ms : ℕ) (hub' : Hub) (id : String) (status : MailStatus) : Type 0 where
  pub envelope : Envelope
  pub named : envelope.id ≡ req.msg_id
  pub answered : id ≡ req.msg_id
  pub recipient : string envelope.to ≡ params.to
  pub speaker : envelope.from ≡ get_or (text_of params.from) envelope.sent_by
  pub reply : envelope.reply_to ≡ params.reply_to
  pub body : content_of params.content ≡ some envelope.content
  pub sender : get ws hub.presence.ws_identities ≡ some envelope.sent_by
  pub row : message_by_id hub'.messages id ≡ some (row_of hub envelope status (now_ms / 1000))
  pub stamped : hub'.agents ≡ mark_send hub.agents envelope.from (now_ms / 1000)
  pub events :
      hub'.events
      ≡ hub.events
        ++ mesh_event envelope sent_event ∷ mesh_event envelope (outcome_event status) ∷ []
  pub way : IsPushed rt hub hub' envelope status ⊎ IsQueued hub hub' status

-- The state, the id and the status of an answer.
abbrev parts : Hub × (String × MailStatus) → Hub × SendAnswer → Hub × (String × MailStatus)
parts d (hub, sent_as id status) = (hub, (id, status))
parts d (hub, answer) = d

module _ (rt : Runtime) (hub : Hub) where
  -- What a delivery leaves of a message that is stored.
  abbrev Left : Envelope → ℕ → Hub → MailStatus → Type 0
  Left e now hub' status =
      (message_by_id hub'.messages e.id ≡ some (row_of hub e status now))
      × (hub'.events ≡ hub.events)
      × (hub'.agents ≡ mark_send hub.agents e.from now)
      × (IsPushed rt hub hub' e status ⊎ IsQueued hub hub' status)

  deliver-Left :
      (st : Hub) (e : Envelope) (now : ℕ) (target : Option ℕ)
      → deliver_now hub e.from e.to e.reply_to ≡ target
      → persist rt hub e (if is_some target then delivered else pending) now ≡ ok st
      → Left e now (deliver rt st e target).0 (deliver rt st e target).1
  unfolding deliver
  deliver-Left st e now none t k =
      let (found, stamped, ev, fr, pr) = persist_lem rt hub e pending now st k in
      (found, ev, stamped, inr (refl, fr))
  deliver-Left st e now (some ws) t k =
      let (found, stamped, ev, fr, pr) = persist_lem rt hub e delivered now st k in
      let s = deliver_now_socket rt hub e.from e.to e.reply_to ws t in
      let (row, ev', ag', way) =
        deliver_lem rt hub st e ws (row_of hub e delivered now) found fr s refl in
      (row, ev' ∙ ev, ag' ∙ stamped, way)

  IsRecorded-of :
      (ws : ℕ) (params : SendParams) (req : Request) (now_ms : ℕ) (e : Envelope) (hub' : Hub)
      (status : MailStatus)
      → e.id ≡ req.msg_id
      → string e.to ≡ params.to
      → e.from ≡ get_or (text_of params.from) e.sent_by
      → e.reply_to ≡ params.reply_to
      → content_of params.content ≡ some e.content
      → get ws hub.presence.ws_identities ≡ some e.sent_by
      → Left e (now_ms / 1000) hub' status
      → IsRecorded rt hub ws params req now_ms
          (record hub' {
            events =
                hub'.events ++ mesh_event e sent_event ∷ mesh_event e (outcome_event status) ∷ [];
          })
          e.id
          status
  IsRecorded-of ws params req now_ms e hub' status i t f y c s (row, ev, ag, way) = record {
    envelope = e;
    named = i;
    answered = i;
    recipient = t;
    speaker = f;
    reply = y;
    body = c;
    sender = s;
    row = row;
    stamped = ag;
    events = ap (λ es. es ++ mesh_event e sent_event ∷ mesh_event e (outcome_event status) ∷ []) ev;
    way = way;
  }

  pub handle_send-IsRecorded :
      (ws : ℕ) (params : SendParams) (req : Request) (now_ms : ℕ) (hub' : Hub) (id : String)
      (status : MailStatus)
      → handle_send rt hub ws params req now_ms ≡ (hub', sent_as id status)
      → IsRecorded rt hub ws params req now_ms hub' id status
  handle_send-IsRecorded ws params req now_ms hub' id status h =
      let p = sent-IsPassed rt hub ws params req now_ms hub' id status h in
      let from = get_or (text_of params.from) p.sender in
      let e = envelope_of req params p.sender from p.to p.content p.digest in
      let now = now_ms / 1000 in
      let target = deliver_now hub e.from e.to e.reply_to in
      elim (send_envelope-cases rt hub e now) [
        | inl (left, k, n) ↦ absurd (ground (arith, p.result))
        | inr (st, k, n) ↦
            subst (λ t. IsRecorded rt hub ws params req now_ms t.0 t.1.0 t.1.1)
              (ap (parts (hub', (id, status))) (sym n ∙ sym p.result ∙ h))
              (IsRecorded-of ws params req now_ms e (deliver rt st e target).0
                (deliver rt st e target).1 refl
                (sym (text_of-some rt hub params.to p.to p.recipient)) refl refl p.body
                (truthy-some rt hub (get ws hub.presence.ws_identities) p.sender p.connected)
                (deliver-Left st e now target refl k))
      ]
