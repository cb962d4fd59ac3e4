-- ===== src/Hub/Send/Retry.antt =====
-- A retry under the same key is answered with the first message.
use agent_mesh_platform.Hub.Send.Recorded.{}
use agent_mesh_platform.Hub.Send.Stored.{persist-some}
use agent_mesh_platform.Hub.Send.Unsent.{
  send_envelope-cases, truthy-some, sent-IsPassed, text_of-some,
}
use agent_mesh_platform.Hub.Send.Sent.{IsPassed}
use agent_mesh_platform.Hub.Send.Handler.{
  deliver_now, Envelope, accept_options, deliver, send_envelope, key_text, Request, envelope_of,
  send_from, handle_send,
}
use agent_mesh_platform.Hub.Send.{
  string, SendParams, Runtime, Hub, SendAnswer, recipient_deleted, duplicate_of, sent_as, text_of,
  content_of, is_deleted, check_key,
}
use agent_mesh_platform.Mailbox.{IdempotencyRow, AcceptOptions, is_key, remember}
use agent_mesh_platform.Hub.Presence.{Presence}
use agent_mesh_platform.Store.Sources.{truthy, mark_send}
use agent_mesh_platform.Store.Messages.{MailStatus, delivered, pending, mail_status_eq}
use agent_mesh_platform.Store.Agents.{Agent}
use agent_mesh_platform.Base.RowLaws.{first-append}
use agent_mesh_platform.Base.Map.{get}
use agent_mesh_platform.Base.{
  if◌then◌else◌, string_eq, nat_eq, first, exists, update, ok, err, get_or, is_some, ℕ, ◌/◌, String,
  ◌≡◌, refl, sym, ap, ◌∙◌, inl, inr, Bool, Option, none, some, List, [], ◌∷◌, ◌++◌, arith,
}

remembered :
    (keys keys' : List IdempotencyRow) (o : AcceptOptions) (now : ℕ) (digest key sender : String)
    → o.idempotency_digest ≡ some digest
    → o.client_message_id ≡ some key
    → o.sent_by ≡ some sender
    → remember keys o now ≡ ok keys'
    → first (is_key sender key) keys'
      ≡ some (record {
        sent_by = sender;
        client_message_id = key;
        request_digest = digest;
        message_id = o.id;
        status = o.status;
        created_at = now;
      })
unfolding remember first
remembered keys keys' o now digest key sender ed ek es h =
    ground (arith, first-append (is_key sender key) keys (row ∷ []))
  where
    row : IdempotencyRow
    row = record {
      sent_by = sender;
      client_message_id = key;
      request_digest = digest;
      message_id = o.id;
      status = o.status;
      created_at = now;
    }

kept_row :
    (p : IdempotencyRow → Bool) (keys more : List IdempotencyRow) (row : IdempotencyRow)
    → first p keys ≡ some row
    → first p (keys ++ more) ≡ some row
unfolding first
kept_row p [] more row h = absurd (ground arith)
kept_row p (k ∷ keys) more row h = ground (arith, kept_row p keys more row)

pub is_deleted-mark_send :
    (identity from : String) (now : ℕ) (agents : List Agent)
    → is_deleted identity (mark_send agents from now) ≡ is_deleted identity agents
unfolding mark_send update exists
is_deleted-mark_send identity from now [] = refl
is_deleted-mark_send identity from now (a ∷ agents) =
    ground (arith, is_deleted-mark_send identity from now agents)

-- The runtime at another time: other sockets take frames, and other writes succeed.
abbrev pub at_later : Runtime → (ℕ → Bool) → Bool → Bool → Bool → Runtime
at_later rt lands inserts stamps commits = record rt {
  lands = lands;
  inserts = inserts;
  stamps = stamps;
  commits = commits;
}

module _ (rt : Runtime) where
  -- A send whose key is known, of a connected identity.
  retried :
      (hub : Hub) (ws : ℕ) (params : SendParams) (req : Request) (later : ℕ)
      (sender to content : String) (answer : SendAnswer)
      → truthy (get ws hub.presence.ws_identities) ≡ some sender
      → text_of params.to ≡ some to
      → content_of params.content ≡ some content
      → check_key rt hub sender to (get_or (text_of params.from) sender) content params ≡ err answer
      → handle_send rt hub ws params req later
        ≡ (hub, if is_deleted to hub.agents then recipient_deleted else answer)
  unfolding handle_send send_from
  retried hub ws params req later sender to content answer es et ec k = ground arith

module _ (rt : Runtime) where
  deliver_keeps :
      (st : Hub) (e : Envelope) (target : Option ℕ)
      → ((deliver rt st e target).0.idempotency ≡ st.idempotency)
        × ((deliver rt st e target).0.presence ≡ st.presence)
        × ((deliver rt st e target).0.agents ≡ st.agents)
  unfolding deliver
  deliver_keeps st e none = (refl, refl, refl)
  deliver_keeps st e (some ws) = ground arith

  -- The key's check, before its message is stored and after.
  check_key_first :
      (hub : Hub) (sender to from content key : String) (params : SendParams)
      (digest : Option String)
      → params.client_message_id ≡ string key
      → check_key rt hub sender to from content params ≡ ok digest
      → digest ≡ some (rt.sha256 to from content (get_or params.reply_to ""))
  unfolding check_key
  check_key_first hub sender to from content key params digest k h = ground arith

  check_key_again :
      (hub hub' : Hub) (sender to from content key : String) (params : SendParams)
      (digest : Option String) (row : IdempotencyRow)
      → params.client_message_id ≡ string key
      → check_key rt hub sender to from content params ≡ ok digest
      → first (is_key sender key) hub'.idempotency ≡ some row
      → row.request_digest ≡ rt.sha256 to from content (get_or params.reply_to "")
      → check_key rt hub' sender to from content params
        ≡ err (duplicate_of row.message_id row.status)
  unfolding check_key
  check_key_again hub hub' sender to from content key params digest row k h f d = ground arith

  check_key-at_later :
      (hub : Hub) (sender to from content : String) (params : SendParams) (lands : ℕ → Bool)
      (inserts stamps commits : Bool)
      → check_key (at_later rt lands inserts stamps commits) hub sender to from content params
        ≡ check_key rt hub sender to from content params
  unfolding check_key
  check_key-at_later hub sender to from content params lands inserts stamps commits = refl

  abbrev pub provisional : Hub → Envelope → MailStatus
  provisional hub e =
      if is_some (deliver_now hub e.from e.to e.reply_to) then delivered else pending

  abbrev key_row : Hub → Envelope → String → String → ℕ → IdempotencyRow
  key_row hub e key digest now = record {
    sent_by = e.sent_by;
    client_message_id = key;
    request_digest = digest;
    message_id = e.id;
    status = provisional hub e;
    created_at = now;
  }

  sent_kept :
      (hub hub' : Hub) (e : Envelope) (now : ℕ) (id key digest : String) (status : MailStatus)
      → send_envelope rt hub e now ≡ (hub', sent_as id status)
      → e.client_message_id ≡ some key
      → e.idempotency_digest ≡ some digest
      → (e.id ≡ id)
        × (hub'.presence ≡ hub.presence)
        × (hub'.agents ≡ mark_send hub.agents e.from now)
        × (first (is_key e.sent_by key) hub'.idempotency ≡ some (key_row hub e key digest now))
  sent_kept hub hub' e now id key digest status h k d = elim (send_envelope-cases rt hub e now) [
    | inl (left, p, n) ↦ absurd (ground arith)
    | inr (st, p, n) ↦
        let target = deliver_now hub e.from e.to e.reply_to in
        let (keys, new, r, is) = persist-some rt hub e (provisional hub e) now st p in
        let (di, dp, da) = deliver_keeps st e target in
        let found =
          remembered hub.idempotency keys (accept_options hub e (provisional hub e)) now digest key
            e.sent_by d k refl r in
        let same = sym n ∙ h in
        let keyed : st.idempotency ≡ keys = ap (λ (s : Hub). s.idempotency) is in
        let present : st.presence ≡ hub.presence = ap (λ (s : Hub). s.presence) is in
        let stamped : st.agents ≡ mark_send hub.agents e.from now = ap (λ (s : Hub). s.agents) is in
        (ground arith, ground arith, ground arith, ground arith)
  ]

  abbrev pub sent_envelope :
      (hub : Hub) (ws : ℕ) (params : SendParams) (req : Request) (now_ms : ℕ)
      → IsPassed rt hub ws params req now_ms
      → Envelope
  sent_envelope hub ws params req now_ms p =
      envelope_of req params p.sender (get_or (text_of params.from) p.sender) p.to p.content
        p.digest

  pub passed_retry :
      (hub : Hub) (ws : ℕ) (params : SendParams) (req : Request) (now_ms : ℕ) (hub' : Hub)
      (id key : String) (status : MailStatus) (p : IsPassed rt hub ws params req now_ms)
      (then_hub : Hub) (ws' : ℕ) (req' : Request) (later : ℕ) (more : List IdempotencyRow)
      (lands : ℕ → Bool) (inserts stamps commits : Bool)
      → handle_send rt hub ws params req now_ms ≡ (hub', sent_as id status)
      → params.client_message_id ≡ string key
      → get ws' then_hub.presence.ws_identities ≡ get ws hub.presence.ws_identities
      → then_hub.idempotency ≡ hub'.idempotency ++ more
      → handle_send (at_later rt lands inserts stamps commits) then_hub ws' params req' later ≡ (
        then_hub,
        if is_deleted p.to then_hub.agents
            then recipient_deleted
            else duplicate_of id (provisional hub (sent_envelope hub ws params req now_ms p)),
      )
  passed_retry hub ws params req now_ms hub' id key status p then_hub ws' req' later more lands
        inserts stamps commits h k same grown =
      let from = get_or (text_of params.from) p.sender in
      let e = sent_envelope hub ws params req now_ms p in
      let d = check_key_first hub p.sender p.to from p.content key params p.digest k p.keyed in
      let digest = rt.sha256 p.to from p.content (get_or params.reply_to "") in
      let (i, present, stamped, found) =
        sent_kept hub hub' e (now_ms / 1000) id key digest status (sym p.result ∙ h) (ap key_text k)
          d in
      let row = key_row hub e key digest (now_ms / 1000) in
      let there : first (is_key p.sender key) then_hub.idempotency ≡ some row =
        ap (first (is_key p.sender key)) grown
        ∙ kept_row (is_key p.sender key) hub'.idempotency more row found in
      let again =
        check_key_again hub then_hub p.sender p.to from p.content key params p.digest row k p.keyed
          there refl in
      retried (at_later rt lands inserts stamps commits) then_hub ws' params req' later p.sender
        p.to p.content (duplicate_of e.id (provisional hub e)) (ap truthy same ∙ p.connected)
        p.recipient p.body
        (check_key-at_later then_hub p.sender p.to from p.content params lands inserts stamps
            commits
          ∙ again)
      ∙ ap
          (λ (n : String). (
            then_hub,
            if is_deleted p.to then_hub.agents
                then recipient_deleted
                else duplicate_of n (provisional hub e),
          ))
          i

  -- A send leaves who is connected.
  pub sent_presence :
      (hub : Hub) (ws : ℕ) (params : SendParams) (req : Request) (now_ms : ℕ) (hub' : Hub)
      (id : String) (status : MailStatus)
      → handle_send rt hub ws params req now_ms ≡ (hub', sent_as id status)
      → hub'.presence.ws_identities ≡ hub.presence.ws_identities
  sent_presence hub ws params req now_ms hub' id status h =
      let p = sent-IsPassed rt hub ws params req now_ms hub' id status h in
      let e = sent_envelope hub ws params req now_ms p in
      elim (send_envelope-cases rt hub e (now_ms / 1000)) [
        | inl (left, k, n) ↦ absurd (ground (arith, p.result))
        | inr (st, k, n) ↦
            let (di, dp, da) = deliver_keeps st e (deliver_now hub e.from e.to e.reply_to) in
            let (keys, new, r, is) =
              persist-some rt hub e (provisional hub e) (now_ms / 1000) st k in
            let present : st.presence ≡ hub.presence = ap (λ (x : Hub). x.presence) is in
            ap (λ (x : Hub × SendAnswer). x.0.presence.ws_identities) (sym h ∙ p.result ∙ n)
            ∙ ap (λ (x : Presence). x.ws_identities) (dp ∙ present)
      ]

  -- A send that came with a key and was answered with an id may be repeated with the same parameters in
  -- any later state of the hub, at any time, over any socket that is connected as the same identity, as
  -- long as the rows of the keys that were there are there, and whatever sockets and files can be written
  -- by then: the answer names the first message, as a duplicate, and nothing changes; but where the
  -- recipient was deleted meanwhile, that is the answer. The status is the one that was noted before the
  -- first push: `delivered` where the routing had a socket to push to.
  pub handle_send-retry :
      (hub : Hub) (ws : ℕ) (params : SendParams) (req : Request) (now_ms : ℕ) (hub' : Hub)
      (id key : String) (status : MailStatus) (then_hub : Hub) (ws' : ℕ) (req' : Request)
      (later : ℕ) (more : List IdempotencyRow) (lands : ℕ → Bool) (inserts stamps commits : Bool)
      → handle_send rt hub ws params req now_ms ≡ (hub', sent_as id status)
      → params.client_message_id ≡ string key
      → get ws' then_hub.presence.ws_identities ≡ get ws hub.presence.ws_identities
      → then_hub.idempotency ≡ hub'.idempotency ++ more
      → (sender : String) × (to : String) × (get ws hub.presence.ws_identities ≡ some sender)
        × (params.to ≡ string to)
        × (handle_send (at_later rt lands inserts stamps commits) then_hub ws' params req' later ≡ (
          then_hub,
          if is_deleted to then_hub.agents
              then recipient_deleted
              else duplicate_of id (
                  if is_some
                    (deliver_now hub (get_or (text_of params.from) sender) to params.reply_to)
                  then delivered
                  else pending),
        ))
  handle_send-retry hub ws params req now_ms hub' id key status then_hub ws' req' later more lands
        inserts stamps commits h k same grown =
      let p = sent-IsPassed rt hub ws params req now_ms hub' id status h in
      (
        p.sender,
        p.to,
        truthy-some rt hub (get ws hub.presence.ws_identities) p.sender p.connected,
        text_of-some rt hub params.to p.to p.recipient,
        passed_retry hub ws params req now_ms hub' id key status p then_hub ws' req' later more
            lands inserts stamps commits h k same grown,
      )
