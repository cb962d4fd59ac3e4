-- ===== src/Hub/Send/Unsent.antt =====
-- What a refused send leaves, and what an accepted one has passed.
use agent_mesh_platform.Hub.Send.Sent.{IsPassed, IsRefusal, handle_send-cases}
use agent_mesh_platform.Hub.Send.Handler.{
  counted_refusal, deliver_now, Envelope, accept_options, persist, deliver, mesh_event,
  outcome_event, send_envelope, Request, envelope_of, handle_send,
}
use agent_mesh_platform.Hub.Send.{
  Param, string, SendParams, Runtime, sent_event, Hub, SendAnswer, not_connected, not_persisted,
  egress_denied, sent_as, text_of, is_deleted, declared, egress_of, authorize,
}
use agent_mesh_platform.Mailbox.Accept.{stored}
use agent_mesh_platform.Mailbox.{remember, accept}
use agent_mesh_platform.Hub.Presence.{}
use agent_mesh_platform.Hub.Dormancy.{check_dormant_source}
use agent_mesh_platform.Hub.Refusals.{RefusalKind, key_eq, record_refusal}
use agent_mesh_platform.Store.Entitlement.{entitled, may_proxy}
use agent_mesh_platform.Store.Groups.{}
use agent_mesh_platform.Store.Sources.{truthy, mark_send}
use agent_mesh_platform.Store.Messages.{MailStatus, delivered, pending, mail_status_eq, is_id}
use agent_mesh_platform.Store.Agents.{Agent}
use agent_mesh_platform.Base.RowLaws.{}
use Prim.Native.String.{◌++◌ as str_append}
use agent_mesh_platform.Base.Map.{get}
use agent_mesh_platform.Base.{
  if◌then◌else◌, Bool-cases, String-discrete, ◌==◌, string_eq, nat_eq, exists, ok, err, get_or,
  is_some, Result-cases, ℕ, ◌/◌, String, ◌≡◌, refl, sym, ap, ◌∙◌, subst, ◌⊎◌, inl, inr, true, false,
  ◌&&◌, ◌||◌, Option, none, some, List, [], ◌∷◌, ◌++◌, arith,
}

module _ (rt : Runtime) (hub : Hub) where
  pub send_envelope-cases :
      (e : Envelope) (now : ℕ)
      → let target = deliver_now hub e.from e.to e.reply_to in
        let provisional = if is_some target then delivered else pending in
        ((left : Hub) × (persist rt hub e provisional now ≡ err left)
          × (send_envelope rt hub e now ≡ (left, not_persisted)))
        ⊎ ((stored : Hub) × (persist rt hub e provisional now ≡ ok stored)
            × (send_envelope rt hub e now ≡ (
              record (deliver rt stored e target).0 {
                events =
                    (deliver rt stored e target).0.events
                    ++ mesh_event e sent_event
                      ∷ mesh_event e (outcome_event (deliver rt stored e target).1)
                      ∷ [];
              },
              sent_as e.id (deliver rt stored e target).1,
            )))
  unfolding send_envelope
  send_envelope-cases e now =
      let target = deliver_now hub e.from e.to e.reply_to in
      let provisional = if is_some target then delivered else pending in
      elim (Result-cases (persist rt hub e provisional now)) [
        | inl (left, p) ↦ inl (left, p, ground arith)
        | inr (stored, p) ↦ inr (stored, p, ground arith)
      ]

  counted_refusal_lem :
      (answer : SendAnswer)
      → (record (counted_refusal hub answer) { refusals = hub.refusals } ≡ hub)
        × ((counted_refusal hub answer).agents ≡ hub.agents)
        × (((counted_refusal hub answer).refusals ≡ hub.refusals)
            ⊎ ((f : String) × (t : String) × (answer ≡ egress_denied f t)
                × ((counted_refusal hub answer).refusals
                    ≡ record_refusal hub.refusals RefusalKind.egress
                        (str_append f (str_append "->" t)))))
  unfolding counted_refusal
  counted_refusal_lem (egress_denied f t) = (refl, refl, inr (f, t, refl, refl))
  counted_refusal_lem not_connected = (refl, refl, inl refl)
  counted_refusal_lem answer = (refl, refl, inl refl)

  -- What a store that throws leaves: its own tables, and the stamp or not.
  persist-err :
      (e : Envelope) (status : MailStatus) (now : ℕ) (left : Hub)
      → persist rt hub e status now ≡ err left
      → (left ≡ hub) ⊎ (left ≡ record hub { agents = mark_send hub.agents e.from now })
  unfolding persist accept
  persist-err e status now left h =
      let o = accept_options hub e status in
      let also = λ (agents : List Agent). mark_send agents e.from now in
      let marked : Hub = record hub { agents = mark_send hub.agents e.from now } in
      elim (Bool-cases (rt.inserts && rt.stamps)) [
        | inr shut ↦ inl (ground arith)
        | inl open_now ↦
            elim (Bool-cases
              (exists (is_id e.id) hub.messages || exists (λ r. r.message_id == e.id) hub.stats)) [
                | inl taken ↦ inl (ground arith)
                | inr new ↦ elim (Result-cases (remember hub.idempotency o now)) [
                  | inl (c, k) ↦ inr (ground arith)
                  | inr (keys, k) ↦ inr (ground arith)
                ]
              ]
      ]

  -- What a refused send leaves, by its answer.
  abbrev pub IsUnsent : ℕ → SendParams → ℕ → Hub → SendAnswer → Type 0
  IsUnsent ws params now_ms hub' answer =
      (record hub' { refusals = hub.refusals; agents = hub.agents } ≡ hub)
      × ((hub'.refusals ≡ hub.refusals)
          ⊎ ((f : String) × (t : String) × (answer ≡ egress_denied f t)
              × (hub'.refusals
                  ≡ record_refusal hub.refusals RefusalKind.egress
                      (str_append f (str_append "->" t)))))
      × ((hub'.agents ≡ hub.agents)
          ⊎ ((sender : String) × (get ws hub.presence.ws_identities ≡ some sender)
              × (answer ≡ not_persisted)
              × (hub'.agents
                  ≡ mark_send hub.agents (get_or (text_of params.from) sender) (now_ms / 1000))))

  pub truthy-some : (o : Option String) (s : String) → truthy o ≡ some s → o ≡ some s
  truthy-some o s h = ground arith

  left-IsUnsent :
      (ws : ℕ) (params : SendParams) (req : Request) (now_ms : ℕ)
      (p : IsPassed rt hub ws params req now_ms) (left : Hub)
      → (left ≡ hub)
        ⊎ (left ≡ record hub {
          agents = mark_send hub.agents (get_or (text_of params.from) p.sender) (now_ms / 1000);
        })
      → IsUnsent ws params now_ms left not_persisted
  left-IsUnsent ws params req now_ms p left (inl same) = rw same (refl, inl refl, inl refl)
  left-IsUnsent ws params req now_ms p left (inr stamped) = rw stamped (
    refl,
    inl refl,
    inr (
      p.sender,
      truthy-some (get ws hub.presence.ws_identities) p.sender p.connected,
      refl,
      refl,
    ),
  )

  -- Whatever the refusal, of whatever step, no message, statistic, key, frame or event is written, and
  -- nothing of the presence, the groups and the sources. The refusal counters change only where egress
  -- is refused, under the pair of the two groups. The registry changes only where the store threw, and
  -- then at most by the stamp of the sender's last send. A retry that is answered as a duplicate is
  -- such a case.
  pub handle_send-refused :
      (ws : ℕ) (params : SendParams) (req : Request) (now_ms : ℕ) (hub' : Hub) (answer : SendAnswer)
      → handle_send rt hub ws params req now_ms ≡ (hub', answer)
      → IsRefusal answer
      → IsUnsent ws params now_ms hub' answer
  handle_send-refused ws params req now_ms hub' answer h r =
      elim (handle_send-cases rt hub ws params req now_ms) [
        | inl (a, k, e) ↦
            let (rest, agents, counters) = counted_refusal_lem a in
            let of_a : IsUnsent ws params now_ms (counted_refusal hub a) a =
              (ap (λ (x : Hub). record x { agents = hub.agents }) rest, counters, inl agents) in
            subst (λ x. IsUnsent ws params now_ms x.0 x.1) (sym e ∙ h) of_a
        | inr p ↦
            let from = get_or (text_of params.from) p.sender in
            let e = envelope_of req params p.sender from p.to p.content p.digest in
            elim (send_envelope-cases e (now_ms / 1000)) [
              | inl (left, k, n) ↦
                  subst (λ x. IsUnsent ws params now_ms x.0 x.1) (sym n ∙ sym p.result ∙ h)
                    (left-IsUnsent ws params req now_ms p left (
                      persist-err e
                        (if is_some (deliver_now hub e.from e.to e.reply_to)
                          then delivered
                          else pending)
                        (now_ms / 1000) left k))
              | inr (stored, k, n) ↦ absurd (ground (arith, p.result))
            ]
      ]

  pub sent-IsPassed :
      (ws : ℕ) (params : SendParams) (req : Request) (now_ms : ℕ) (hub' : Hub) (id : String)
      (status : MailStatus)
      → handle_send rt hub ws params req now_ms ≡ (hub', sent_as id status)
      → IsPassed rt hub ws params req now_ms
  sent-IsPassed ws params req now_ms hub' id status h =
      elim (handle_send-cases rt hub ws params req now_ms) [
        | inl (answer, r, e) ↦ absurd (ground arith)
        | inr p ↦ p
      ]

  pub text_of-some : (p : Param) (s : String) → text_of p ≡ some s → p ≡ string s
  text_of-some p s h = ground arith

  authorize-none :
      (ws : ℕ) (sender from to : String) (observed : Option String) (now_ms : ℕ)
      → authorize rt hub ws sender from to observed now_ms ≡ none
      → ((egress_of hub from to).ok ≡ true)
        × (check_dormant_source rt.dormancy_seconds rt.prefix_of hub.agents hub.sources from sender
              observed now_ms
            ≡ none)
        × ((from ≡ sender)
            ⊎ ((may_proxy hub.agents hub.types sender from ≡ entitled)
                × (declared hub.presence ws from ≡ true)))
  unfolding authorize
  authorize-none ws sender from to observed now_ms h = elim (String-discrete from sender) [
    | yes e ↦ (ground arith, ground arith, inl e)
    | no n ↦ (ground arith, ground arith, inr (ground arith, ground arith))
  ]

  -- A send that is answered with an id came from a connected identity and names a recipient that is not
  -- deleted; the sender's group may send to the recipient's; it is not silent and on a new network;
  -- and where it speaks for another identity, it may by the registry as it stands now, and its
  -- connection has declared that identity.
  pub handle_send-allowed :
      (ws : ℕ) (params : SendParams) (req : Request) (now_ms : ℕ) (hub' : Hub) (id : String)
      (status : MailStatus)
      → handle_send rt hub ws params req now_ms ≡ (hub', sent_as id status)
      → (sender : String) × (to : String) × (get ws hub.presence.ws_identities ≡ some sender)
        × (params.to ≡ string to)
        × (is_deleted to hub.agents ≡ false)
        × ((egress_of hub (get_or (text_of params.from) sender) to).ok ≡ true)
        × (check_dormant_source rt.dormancy_seconds rt.prefix_of hub.agents hub.sources
              (get_or (text_of params.from) sender)
              sender
              req.observed
              now_ms
            ≡ none)
        × ((get_or (text_of params.from) sender ≡ sender)
            ⊎ ((may_proxy hub.agents hub.types sender (get_or (text_of params.from) sender)
                  ≡ entitled)
                × (declared hub.presence ws (get_or (text_of params.from) sender) ≡ true)))
  handle_send-allowed ws params req now_ms hub' id status h =
      let p = sent-IsPassed ws params req now_ms hub' id status h in
      let (may, awake, speaks) =
        authorize-none ws p.sender (get_or (text_of params.from) p.sender) p.to req.observed now_ms
          p.allowed in
      (
        p.sender,
        p.to,
        truthy-some (get ws hub.presence.ws_identities) p.sender p.connected,
        text_of-some params.to p.to p.recipient,
        p.live,
        may,
        awake,
        speaks,
      )
