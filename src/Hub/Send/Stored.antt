-- ===== src/Hub/Send/Stored.antt =====
-- What the commit and the push of a message leave.
use agent_mesh_platform.Hub.Send.Handler.{
  deliver_now, Envelope, accept_options, stored_in, persist, notify_sender, message_frame, deliver,
}
use agent_mesh_platform.Hub.Send.{Runtime, Notification, delivered_to, Hub}
use agent_mesh_platform.Mailbox.Accept.{stored, accept_ok, stored_message}
use agent_mesh_platform.Mailbox.{IdempotencyRow, MeshDb, accepted_row, remember, accept}
use agent_mesh_platform.Hub.Presence.{socket_of}
use agent_mesh_platform.Hub.Refusals.{key_eq}
use agent_mesh_platform.Store.Sources.{mark_send}
use agent_mesh_platform.Store.Messages.{
  MailStatus, delivered, pending, mail_status_eq, MessageRow, is_id, message_by_id,
}
use agent_mesh_platform.Store.Agents.{Agent}
use mathlib.Core.List.{append-nil, append_assoc}
use agent_mesh_platform.Base.{
  Bool-cases, Option-cases, ◌==◌, string_eq, nat_eq, first, exists, update, ok, Result-cases, ℕ,
  String, ◌≡◌, refl, sym, ap, ◌∙◌, ◌⊎◌, inl, inr, true, false, not, ◌||◌, Option, some, List, [],
  ◌∷◌, ◌++◌, arith,
}

-- The row that a send stores, under the status that it is answered with.
abbrev pub row_of : Hub → Envelope → MailStatus → ℕ → MessageRow
row_of hub e status now = accepted_row (accept_options hub e status) now

settle_pending :
    (id : String) (xs : List MessageRow) (r : MessageRow)
    → message_by_id xs id ≡ some r
    → message_by_id (update (is_id id) (λ m. record m { status = pending }) xs) id
      ≡ some (record r { status = pending })
unfolding message_by_id first update
settle_pending id [] r h = cc
settle_pending id (x ∷ xs) r h = ground (arith, settle_pending id xs r)

-- The two ways of a send: pushed and taken by the recipient's socket, or queued.
abbrev pub IsPushed : Runtime → Hub → Hub → Envelope → MailStatus → Type 0
IsPushed rt hub hub' e status =
    (status ≡ delivered)
    × ((ws : ℕ) × (rest : List (ℕ × Notification)) × (socket_of hub.presence e.to ≡ some ws)
        × (rt.lands ws ≡ true)
        × (hub'.frames ≡ hub.frames ++ (ws, message_frame e) ∷ rest))

abbrev pub IsQueued : Hub → Hub → MailStatus → Type 0
IsQueued hub hub' status = (status ≡ pending) × (hub'.frames ≡ hub.frames)

module _ (rt : Runtime) (hub : Hub) where
  pub deliver_now_socket :
      (from to : String) (reply_to : Option String) (ws : ℕ)
      → deliver_now hub from to reply_to ≡ some ws
      → socket_of hub.presence to ≡ some ws
  unfolding deliver_now
  deliver_now_socket from to reply_to ws h = ground arith

  -- The store before a send, and its transaction's outcome.
  abbrev pub before : MeshDb (List Agent)
  before = record {
    messages = hub.messages;
    stats = hub.stats;
    idempotency = hub.idempotency;
    other = hub.agents;
  }

  pub persist-some :
      (e : Envelope) (status : MailStatus) (now : ℕ) (hub' : Hub)
      → persist rt hub e status now ≡ ok hub'
      → (keys : List IdempotencyRow) × (exists (is_id e.id) hub.messages ≡ false)
        × (remember hub.idempotency (accept_options hub e status) now ≡ ok keys)
        × (hub'
            ≡ stored_in hub (
                stored
                  (λ agents. mark_send agents e.from now)
                  before
                  (accept_options hub e status)
                  now
                  keys))
  unfolding persist
  persist-some e status now hub' h =
      let o = accept_options hub e status in
      let also = λ (agents : List Agent). mark_send agents e.from now in
      elim (Result-cases (accept also before o now)) [
        | inl (c, a) ↦ absurd (ground arith)
        | inr (db, a) ↦
            let (keys, new, r, same) = accept_ok also before db o now a in
            let is : hub' ≡ stored_in hub db = ground arith in
            (keys, new, r, is ∙ ap (stored_in hub) (sym same))
      ]

  pub persist_lem :
      (e : Envelope) (status : MailStatus) (now : ℕ) (hub' : Hub)
      → persist rt hub e status now ≡ ok hub'
      → (message_by_id hub'.messages e.id ≡ some (row_of hub e status now))
        × (hub'.agents ≡ mark_send hub.agents e.from now)
        × (hub'.events ≡ hub.events)
        × (hub'.frames ≡ hub.frames)
        × (hub'.presence ≡ hub.presence)
  persist_lem e status now hub' h =
      let (keys, new, r, is) = persist-some e status now hub' h in
      let (found, counted) =
        stored_message (λ agents. mark_send agents e.from now) before (accept_options hub e status)
          now keys new in
      rw is (found, refl, refl, refl, refl)

  notify_frames :
      (st : Hub) (e : Envelope) (ws : ℕ)
      → (rest : List (ℕ × Notification)) × (notify_sender rt st e ws
          ≡ record st { frames = st.frames ++ rest })
  notify_frames st e ws = elim (Option-cases (socket_of st.presence e.from)) [
    | inl n ↦ ([], ground (arith, append-nil st.frames))
    | inr (w, n) ↦ elim (Bool-cases (w == ws || not (rt.lands w))) [
      | inl quiet ↦ ([], ground (arith, append-nil st.frames))
      | inr told ↦ ((w, delivered_to e.id e.from e.to) ∷ [], ground arith)
    ]
  ]

  same_status : (r : MessageRow) → r.status ≡ delivered → r ≡ record r { status = delivered }
  same_status r d = ap (λ s. record r { status = s }) d

  deliver_landed :
      (st : Hub) (e : Envelope) (ws : ℕ)
      → rt.lands ws ≡ true
      → (rest : List (ℕ × Notification)) × (deliver rt st e (some ws)
          ≡ (record st { frames = st.frames ++ (ws, message_frame e) ∷ rest }, delivered))
  unfolding deliver
  deliver_landed st e ws here =
      let pushed = record st { frames = st.frames ++ (ws, message_frame e) ∷ [] } in
      let (rest, told) = notify_frames pushed e ws in
      (rest, rw (here, told, append_assoc st.frames ((ws, message_frame e) ∷ []) rest))

  deliver_gone :
      (st : Hub) (e : Envelope) (ws : ℕ)
      → rt.lands ws ≡ false
      → deliver rt st e (some ws) ≡ (
        record st {
          messages = update (is_id e.id) (λ m. record m { status = pending }) st.messages;
        },
        pending,
      )
  unfolding deliver
  deliver_gone st e ws gone = rw gone

  pub deliver_lem :
      (st : Hub) (e : Envelope) (ws : ℕ) (r : MessageRow)
      → message_by_id st.messages e.id ≡ some r
      → st.frames ≡ hub.frames
      → socket_of hub.presence e.to ≡ some ws
      → r.status ≡ delivered
      → let after = deliver rt st e (some ws) in
        (message_by_id after.0.messages e.id ≡ some (record r { status = after.1 }))
        × (after.0.events ≡ st.events)
        × (after.0.agents ≡ st.agents)
        × (IsPushed rt hub after.0 e after.1 ⊎ IsQueued hub after.0 after.1)
  deliver_lem st e ws r h f s d = elim (Bool-cases (rt.lands ws)) [
    | inr gone ↦
        rw (deliver_gone st e ws gone)
          (settle_pending e.id st.messages r h, refl, refl, inr (refl, f))
    | inl here ↦
        let (rest, is) = deliver_landed st e ws here in
        rw is (
          h ∙ ap some (same_status r d),
          refl,
          refl,
          inl (refl, (ws, rest, s, here, ap (λ fs. fs ++ (ws, message_frame e) ∷ rest) f)),
        )
  ]
