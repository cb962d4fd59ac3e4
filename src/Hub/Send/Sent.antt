-- ===== src/Hub/Send/Sent.antt =====
-- What a send that is answered with an id has passed.
use agent_mesh_platform.Hub.Send.Handler.{
  counted_refusal, send_envelope, Request, envelope_of, send_from, handle_send,
}
use agent_mesh_platform.Hub.Send.{
  SendParams, Runtime, Hub, SendAnswer, not_connected, to_required, content_required,
  recipient_deleted, bad_client_message_id, send_conflict, not_declared, not_persisted,
  egress_denied, source_changed, not_entitled, duplicate_of, sent_as, text_of, content_of,
  is_deleted, check_key, authorize,
}
use agent_mesh_platform.Hub.Presence.{}
use agent_mesh_platform.Hub.Dormancy.{}
use agent_mesh_platform.Store.Entitlement.{}
use agent_mesh_platform.Store.Groups.{}
use agent_mesh_platform.Store.Sources.{truthy}
use agent_mesh_platform.Store.Messages.{mail_status_eq}
use agent_mesh_platform.Base.Map.{get}
use agent_mesh_platform.Base.{
  Bool-cases, Option-cases, string_eq, nat_eq, ok, err, get_or, Result-cases, ℕ, ◌/◌, String, ◌≡◌,
  refl, ◌⊎◌, inl, inr, false, Option, none, some, arith,
}

-- The sender, the recipient, the content and the digest of a send, with the checks that it passed.
pub record IsPassed (rt : Runtime) (hub : Hub) (ws : ℕ) (params : SendParams) (req : Request)
    (now_ms : ℕ) : Type 0 where
  pub sender : String
  pub to : String
  pub content : String
  pub digest : Option String
  pub connected : truthy (get ws hub.presence.ws_identities) ≡ some sender
  pub recipient : text_of params.to ≡ some to
  pub body : content_of params.content ≡ some content
  pub live : is_deleted to hub.agents ≡ false
  pub keyed :
      check_key rt hub sender to (get_or (text_of params.from) sender) content params ≡ ok digest
  pub allowed :
      authorize rt hub ws sender (get_or (text_of params.from) sender) to req.observed now_ms ≡ none
  pub result :
      handle_send rt hub ws params req now_ms
      ≡ send_envelope rt hub
          (envelope_of req params sender (get_or (text_of params.from) sender) to content digest)
          (now_ms / 1000)

-- An answer that is no id.
abbrev pub IsRefusal : SendAnswer → Type 0
IsRefusal (sent_as id status) = ⊥
IsRefusal not_connected = Unit
IsRefusal to_required = Unit
IsRefusal content_required = Unit
IsRefusal recipient_deleted = Unit
IsRefusal bad_client_message_id = Unit
IsRefusal send_conflict = Unit
IsRefusal not_declared = Unit
IsRefusal not_persisted = Unit
IsRefusal (egress_denied from_group to_group) = Unit
IsRefusal (source_changed refusal) = Unit
IsRefusal (not_entitled reason) = Unit
IsRefusal (duplicate_of id status) = Unit

module _ (rt : Runtime) (hub : Hub) (ws : ℕ) (params : SendParams) (req : Request)
    (now_ms : ℕ) where
  check_key-IsRefusal :
      (sender to from content : String) (answer : SendAnswer)
      → check_key rt hub sender to from content params ≡ err answer
      → IsRefusal answer × (counted_refusal hub answer ≡ hub)
  unfolding check_key counted_refusal
  check_key-IsRefusal sender to from content answer h = ground arith

  authorize-IsRefusal :
      (sender from to : String) (answer : SendAnswer)
      → authorize rt hub ws sender from to req.observed now_ms ≡ some answer
      → IsRefusal answer
  unfolding authorize
  authorize-IsRefusal sender from to answer h = ground arith

  -- A refusal leaves the state, but for the counter.
  abbrev pub IsRefused : Type 0
  IsRefused =
      (answer : SendAnswer) × IsRefusal answer
      × (handle_send rt hub ws params req now_ms ≡ (counted_refusal hub answer, answer))

  refused_at :
      (answer : SendAnswer)
      → IsRefusal answer
      → counted_refusal hub answer ≡ hub
      → handle_send rt hub ws params req now_ms ≡ (hub, answer)
      → IsRefused
  refused_at answer r e h = (answer, r, ground (arith, e))

  send_from-cases :
      (sender to content : String)
      → truthy (get ws hub.presence.ws_identities) ≡ some sender
      → text_of params.to ≡ some to
      → content_of params.content ≡ some content
      → is_deleted to hub.agents ≡ false
      → IsRefused ⊎ IsPassed rt hub ws params req now_ms
  unfolding handle_send send_from counted_refusal
  send_from-cases sender to content es et ec ed =
      let from = get_or (text_of params.from) sender in
      elim (Result-cases (check_key rt hub sender to from content params)) [
        | inl (answer, k) ↦
            let (r, same) = check_key-IsRefusal sender to from content answer k in
            inl (refused_at answer r same (ground arith))
        | inr (digest, k) ↦
            elim (Option-cases (authorize rt hub ws sender from to req.observed now_ms)) [
              | inr (answer, a) ↦
                  inl (answer, authorize-IsRefusal sender from to answer a, ground arith)
              | inl a ↦ inr (record {
                sender = sender;
                to = to;
                content = content;
                digest = digest;
                connected = es;
                recipient = et;
                body = ec;
                live = ed;
                keyed = k;
                allowed = a;
                result = ground arith;
              })
            ]
      ]

  pub handle_send-cases : IsRefused ⊎ IsPassed rt hub ws params req now_ms
  unfolding handle_send send_from counted_refusal
  handle_send-cases = elim (Option-cases (truthy (get ws hub.presence.ws_identities))) [
    | inl es ↦ inl (refused_at not_connected tt refl (ground arith))
    | inr (sender, es) ↦ elim (Option-cases (text_of params.to)) [
      | inl et ↦ inl (refused_at to_required tt refl (ground arith))
      | inr (to, et) ↦ elim (Option-cases (content_of params.content)) [
        | inl ec ↦ inl (refused_at content_required tt refl (ground arith))
        | inr (content, ec) ↦ elim (Bool-cases (is_deleted to hub.agents)) [
          | inl ed ↦ inl (refused_at recipient_deleted tt refl (ground arith))
          | inr ed ↦ send_from-cases sender to content es et ec ed
        ]
      ]
    ]
  ]
