-- ===== src/Hub/Connect/Owned.antt =====
-- Who is online owns the identity, whatever connects and closes.
use agent_mesh_platform.Hub.Connect.Maps.{
  IsOwned, IsNamed, claim_granted, claim_conflict, wired-IsOwned, wired-IsNamed,
  drop_connection-IsOwned, drop_connection-IsNamed,
}
use agent_mesh_platform.Hub.Connect.Replay.{deliver_pending_lem}
use agent_mesh_platform.Hub.Connect.{
  is_live, touch_last_seen, deliver_pending, deliver_granted, Claims, declare, wired, ConnectParams,
  connect_as, perform_connect, close_socket,
}
use agent_mesh_platform.Hub.Send.Handler.{}
use agent_mesh_platform.Hub.Send.{Param, Hub, text_of}
use agent_mesh_platform.Hub.Presence.{Presence}
use agent_mesh_platform.Hub.Ownership.{ConnectionOwnership, Claim, conflict, owner, claim, named}
use agent_mesh_platform.Store.Entitlement.{}
use agent_mesh_platform.Store.Sources.{truthy, record_source}
use agent_mesh_platform.Store.Messages.{mail_status_eq}
use agent_mesh_platform.Store.Agents.{}
use agent_mesh_platform.Base.Order.{}
use agent_mesh_platform.Base.RowLaws.{}
use agent_mesh_platform.Base.Map.{get, put, kept}
use agent_mesh_platform.Base.{
  Bool-cases, Option-cases, string_eq, nat_eq, ℕ, String, ◌≡◌, refl, sym, ap, ◌∙◌, subst, ◌⊎◌, inl,
  inr, Bool, Option, some, List, [], ◌∷◌, arith,
}

pub Claim-cases :
    (c : Claim) → ((i : ℕ) × (n : ℕ) × (c ≡ conflict i n)) ⊎ ((g : ℕ) × (c ≡ Claim.granted g))
Claim-cases (conflict i n) = inl (i, n, refl)
Claim-cases (Claim.granted g) = inr (g, refl)

-- A connect or a close of a socket.
pub data Act : Type 0 where
  connects : (ws : ℕ) (params : ConnectParams) (observed : Option String) → Act
  closes : (ws : ℕ) → Act

unfoldable pub act : (String → Bool) → Hub → Act → ℕ → Hub
act takes hub (connects ws params observed) now =
    (perform_connect takes hub ws params observed now).0
act takes hub (closes ws) now = close_socket hub ws now

unfoldable pub acts : (String → Bool) → Hub → List (Act × ℕ) → Hub
acts takes hub [] = hub
acts takes hub ((a, now) ∷ as') = acts takes (act takes hub a now) as'

module _ (takes : String → Bool) where
  pub deliver_pending_presence :
      (hub : Hub) (identity : String) (ws : ℕ)
      → (deliver_pending takes hub identity ws).presence ≡ hub.presence
  deliver_pending_presence hub identity ws = (deliver_pending_lem takes hub identity ws "").3

  pub deliver_granted_presence :
      (hub : Hub) (pids : List String) (ws : ℕ)
      → (deliver_granted takes hub pids ws).presence ≡ hub.presence
  unfolding deliver_granted
  deliver_granted_presence hub [] ws = refl
  deliver_granted_presence hub (pid ∷ pids) ws =
      deliver_granted_presence (deliver_pending takes hub pid ws) pids ws
      ∙ deliver_pending_presence hub pid ws

  -- The maps after a connect: as they were but for the generations, or wired.
  abbrev IsKept : Presence → Presence → Type 0
  IsKept p p' =
      (p'.online_agents ≡ p.online_agents)
      × (p'.ws_identities ≡ p.ws_identities)
      × (p'.ownership.owners ≡ p.ownership.owners)
      × (p'.ownership.identities ≡ p.ownership.identities)

  abbrev IsWired : Presence → Presence → Type 0
  IsWired p p' =
      (o : ConnectionOwnership) × (identity : String) × (ws : ℕ) × (proxy_for : List Param)
      × (c : Claims) × (o.owners ≡ put identity ws p.ownership.owners)
      × (o.identities ≡ put ws identity p.ownership.identities)
      × (wired p o identity ws proxy_for c ≡ p')

  connect_as-cases :
      (hub : Hub) (ws : ℕ) (identity : String) (proxy_for : List Param) (now : ℕ)
      → let p' = (connect_as takes hub ws identity proxy_for now).0.presence in
        IsKept hub.presence p' ⊎ IsWired hub.presence p'
  unfolding connect_as
  connect_as-cases hub ws identity proxy_for now =
      let o = hub.presence.ownership in
      let o' = (claim o identity ws).0 in
      elim (Claim-cases (claim o identity ws).1) [
        | inl (i, n, e) ↦
            let (kept, named) = claim_conflict o o' identity ws i n (ap (λ c. (o', c)) e) in
            rw (e, connect_as) (inl (refl, refl, kept, named))
        | inr (g, e) ↦
            let (put_owner, put_name) = claim_granted o o' identity ws g (ap (λ c. (o', c)) e) in
            let c = declare hub.agents hub.types hub.presence identity ws proxy_for in
            let hub' = record hub {
              agents = touch_last_seen hub.agents identity now;
              presence = wired hub.presence o' identity ws proxy_for c;
            } in
            let same =
              deliver_granted_presence (deliver_pending takes hub' identity ws) c.granted ws
              ∙ deliver_pending_presence hub' identity ws in
            rw (e, connect_as) (inr (o', identity, ws, proxy_for, c, put_owner, put_name, sym same))
      ]

  kept-IsOwned :
      (p p' : Presence)
      → IsKept p p' ⊎ IsWired p p'
      → IsOwned p
      → IsNamed p
      → IsOwned p' × IsNamed p'
  unfolding owner
  kept-IsOwned p p' (inl (a, b, c, d)) h m =
      ((λ x s k. ground (arith, h x s)), (λ s. ground (arith, m s)))
  kept-IsOwned p p' (inr (o, identity, ws, proxy_for, c, eo, ei, w)) h m =
      subst (λ (q : Presence). IsOwned q × IsNamed q) w
        (
          wired-IsOwned p o identity ws proxy_for c eo h,
          wired-IsNamed p o identity ws proxy_for c ei m,
        )

  connect-IsOwned :
      (hub : Hub) (ws : ℕ) (params : ConnectParams) (observed : Option String) (now : ℕ)
      → IsOwned hub.presence
      → IsNamed hub.presence
      → IsOwned (perform_connect takes hub ws params observed now).0.presence
        × IsNamed (perform_connect takes hub ws params observed now).0.presence
  unfolding perform_connect
  connect-IsOwned hub ws params observed now h m = elim (Option-cases (text_of params.identity)) [
    | inl e ↦ rw (e, perform_connect) (h, m)
    | inr (identity, e) ↦ elim (Bool-cases (is_live identity hub.agents)) [
      | inr l ↦ rw (e, perform_connect, l) (h, m)
      | inl l ↦
          let hub' = record hub { sources = record_source hub.sources identity observed now } in
          rw (e, perform_connect, l)
            (kept-IsOwned hub.presence
              (connect_as takes hub' ws identity params.proxy_for now).0.presence
              (connect_as-cases hub' ws identity params.proxy_for now) h m)
    ]
  ]

  close-IsOwned :
      (hub : Hub) (ws now : ℕ)
      → IsOwned hub.presence
      → IsNamed hub.presence
      → IsOwned (close_socket hub ws now).presence × IsNamed (close_socket hub ws now).presence
  unfolding close_socket
  close-IsOwned hub ws now h m = elim (Option-cases (truthy (get ws hub.presence.ws_identities))) [
    | inl e ↦ rw (e, close_socket) (h, m)
    | inr (identity, e) ↦
        let here : get ws hub.presence.ws_identities ≡ some identity = ground arith in
        let named : identity ≡ "" → ⊥ = λ n. ground arith in
        rw (e, close_socket)
          (
            drop_connection-IsOwned hub.presence ws identity here named h m,
            drop_connection-IsNamed hub.presence ws identity here named m,
          )
  ]

  act-IsOwned :
      (hub : Hub) (a : Act) (now : ℕ)
      → IsOwned hub.presence
      → IsNamed hub.presence
      → IsOwned (act takes hub a now).presence × IsNamed (act takes hub a now).presence
  unfolding act
  act-IsOwned hub (connects ws params observed) now h m =
      connect-IsOwned hub ws params observed now h m
  act-IsOwned hub (closes ws) now h m = close-IsOwned hub ws now h m

  -- Whatever sockets connect and close, in whatever order, the socket under which an identity is online
  -- is the one that owns the identity, and a socket has the same identity in the presence maps and in
  -- the ownership: this holds from the empty maps on.
  pub acts-IsOwned :
      (hub : Hub) (as' : List (Act × ℕ))
      → IsOwned hub.presence
      → IsNamed hub.presence
      → IsOwned (acts takes hub as').presence × IsNamed (acts takes hub as').presence
  unfolding acts
  acts-IsOwned hub [] h m = (h, m)
  acts-IsOwned hub ((a, now) ∷ as') h m =
      let (h', m') = act-IsOwned hub a now h m in acts-IsOwned (act takes hub a now) as' h' m'
