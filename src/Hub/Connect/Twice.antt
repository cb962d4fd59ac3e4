-- ===== src/Hub/Connect/Twice.antt =====
-- A socket that connects a second time, under another identity, keeps the first one owned for good.
use agent_mesh_platform.Hub.Connect.Owned.{
  Claim-cases, deliver_pending_presence, deliver_granted_presence,
}
use agent_mesh_platform.Hub.Connect.Maps.{claim_granted, release_lem}
use agent_mesh_platform.Hub.Connect.{
  duplicate_identity, connected_as, is_live, touch_last_seen, deliver_pending, Claims, declare,
  wired, ConnectParams, connect_as, perform_connect, close_socket,
}
use agent_mesh_platform.Hub.Send.Handler.{}
use agent_mesh_platform.Hub.Send.{Param, Hub, text_of}
use agent_mesh_platform.Hub.Presence.{drop_connection}
use agent_mesh_platform.Hub.Ownership.Incumbent.{owners-generation_of}
use agent_mesh_platform.Hub.Ownership.{ConnectionOwnership, conflict, generation_of, owner, claim}
use agent_mesh_platform.Store.Entitlement.{}
use agent_mesh_platform.Store.Sources.{record_source}
use agent_mesh_platform.Store.Messages.{mail_status_eq}
use agent_mesh_platform.Store.Agents.{}
use agent_mesh_platform.Base.Order.{}
use agent_mesh_platform.Base.RowLaws.{}
use agent_mesh_platform.Base.Map.{get, put, get-put, get-drop}
use agent_mesh_platform.Base.{
  Option-cases, string_eq, nat_eq, ℕ, String, ◌≡◌, ap, ◌∙◌, ◌≢◌, inl, inr, Bool, true, Option, some,
  List, arith,
}

module _ (takes : String → Bool) where
  connect_as_lem :
      (hub hub' : Hub) (ws : ℕ) (identity x : String) (proxy_for : List Param) (now : ℕ)
      → connect_as takes hub ws identity proxy_for now ≡ (hub', connected_as x)
      → (identity ≡ x)
        × ((o : ConnectionOwnership) × (c : Claims) × (o.owners
              ≡ put identity ws hub.presence.ownership.owners)
            × (o.identities ≡ put ws identity hub.presence.ownership.identities)
            × (hub'.presence ≡ wired hub.presence o identity ws proxy_for c))
  unfolding connect_as
  connect_as_lem hub hub' ws identity x proxy_for now h =
      let o = hub.presence.ownership in
      let o' = (claim o identity ws).0 in
      elim (Claim-cases (claim o identity ws).1) [
        | inl (i, n, e) ↦ absurd (ground arith)
        | inr (g, e) ↦
            let (put_owner, put_name) = claim_granted o o' identity ws g (ap (λ c. (o', c)) e) in
            let c = declare hub.agents hub.types hub.presence identity ws proxy_for in
            let hub1 = record hub {
              agents = touch_last_seen hub.agents identity now;
              presence = wired hub.presence o' identity ws proxy_for c;
            } in
            let same =
              deliver_granted_presence takes (deliver_pending takes hub1 identity ws) c.granted ws
              ∙ deliver_pending_presence takes hub1 identity ws in
            (ground arith, (o', c, put_owner, put_name, ground (arith, same)))
      ]

  perform_connect_lem :
      (hub hub' : Hub) (ws : ℕ) (params : ConnectParams) (observed : Option String) (now : ℕ)
      (x : String)
      → perform_connect takes hub ws params observed now ≡ (hub', connected_as x)
      → (identity : String) × (text_of params.identity ≡ some identity)
        × (connect_as takes
              (record hub { sources = record_source hub.sources identity observed now })
              ws
              identity
              params.proxy_for
              now
            ≡ (hub', connected_as x))
  unfolding perform_connect
  perform_connect_lem hub hub' ws params observed now x h =
      elim (Option-cases (text_of params.identity)) [
        | inl e ↦ absurd (ground arith)
        | inr (identity, e) ↦ (identity, e, ground arith)
      ]

  -- What an answer that a socket is connected says.
  connected_lem :
      (hub hub' : Hub) (ws : ℕ) (params : ConnectParams) (observed : Option String) (now : ℕ)
      (x : String)
      → perform_connect takes hub ws params observed now ≡ (hub', connected_as x)
      → (text_of params.identity ≡ some x)
        × (get x hub'.presence.online_agents ≡ some ws)
        × ((y : String)
            → (y ≡ x → ⊥)
            → get y hub'.presence.online_agents ≡ get y hub.presence.online_agents)
        × (get ws hub'.presence.ws_identities ≡ some x)
        × (get ws hub'.presence.ownership.identities ≡ some x)
        × (get x hub'.presence.ownership.owners ≡ some ws)
        × ((y : String)
            → (y ≡ x → ⊥)
            → get y hub'.presence.ownership.owners ≡ get y hub.presence.ownership.owners)
  unfolding wired
  connected_lem hub hub' ws params observed now x h =
      let (identity, t, c) = perform_connect_lem hub hub' ws params observed now x h in
      let (same, (o, cl, eo, ei, w)) =
        connect_as_lem (record hub { sources = record_source hub.sources identity observed now })
          hub' ws identity x params.proxy_for now c in
      (
        ground arith,
        ground (arith, get-put identity x ws hub.presence.online_agents),
        (λ y n. ground (arith, get-put identity y ws hub.presence.online_agents)),
        ground (arith, get-put ws ws identity hub.presence.ws_identities),
        ground (arith, get-put ws ws identity hub.presence.ownership.identities),
        ground (arith, get-put identity x ws hub.presence.ownership.owners),
        (λ y n. ground (arith, get-put identity y ws hub.presence.ownership.owners)),
      )

  claim_rival :
      (o : ConnectionOwnership) (identity : String) (ws contender : ℕ)
      → owner o identity ≡ some ws
      → (ws ≡ contender → ⊥)
      → (i : ℕ) × (n : ℕ) × ((claim o identity contender).1 ≡ conflict i n)
  unfolding claim owner
  claim_rival o identity ws contender h n = (
    (generation_of (generation_of o contender).0 ws).1,
    (generation_of o contender).1,
    ground (arith, owners-generation_of o contender),
  )

  not_empty : (p : Param) (s : String) → text_of p ≡ some s → s ≡ "" → ⊥
  not_empty p s h e = ground arith

  -- Closing the socket lets go of its last identity alone.
  closed_other :
      (hub : Hub) (ws now : ℕ) (a b : String)
      → (a ≡ b → ⊥)
      → (b ≡ "" → ⊥)
      → get ws hub.presence.ws_identities ≡ some b
      → get ws hub.presence.ownership.identities ≡ some b
      → let p = (close_socket hub ws now).presence in
        (get a p.online_agents ≡ get a hub.presence.online_agents)
        × (owner p.ownership a ≡ get a hub.presence.ownership.owners)
  unfolding close_socket drop_connection owner
  closed_other hub ws now a b n e w o =
      let (i, ow, r) = release_lem hub.presence.ownership ws b o e in
      ground
        (arith, get-drop b a hub.presence.online_agents, get-drop b a hub.presence.ownership.owners)

  refused_rival :
      (hub : Hub) (ws contender : ℕ) (params : ConnectParams) (observed : Option String) (now : ℕ)
      (a : String)
      → text_of params.identity ≡ some a
      → is_live a hub.agents ≡ true
      → owner hub.presence.ownership a ≡ some ws
      → (ws ≡ contender → ⊥)
      → (i : ℕ) × (n : ℕ) × ((perform_connect takes hub contender params observed now).1
          ≡ duplicate_identity i n)
  unfolding perform_connect connect_as
  refused_rival hub ws contender params observed now a t l o n =
      let (i, m, c) = claim_rival hub.presence.ownership a ws contender o n in
      (i, m, ground (arith, c))

  -- A socket that has connected as `a`, and then connects as `b`, leaves `a` behind when it closes: `a`
  -- is still online under the closed socket and still owned by it, and another socket that would then
  -- connect as `a`, which is still registered, is refused as a duplicate.
  pub connect_twice :
      (hub hub1 hub2 : Hub) (ws contender : ℕ) (params params' : ConnectParams)
      (observed : Option String) (now closed later : ℕ) (a b : String)
      → perform_connect takes hub ws params observed now ≡ (hub1, connected_as a)
      → perform_connect takes hub1 ws params' observed now ≡ (hub2, connected_as b)
      → a ≢ b
      → ws ≢ contender
      → is_live a (close_socket hub2 ws closed).agents ≡ true
      → (get a (close_socket hub2 ws closed).presence.online_agents ≡ some ws)
        × (owner (close_socket hub2 ws closed).presence.ownership a ≡ some ws)
        × ((i : ℕ) × (n : ℕ) × ((perform_connect takes
                (close_socket hub2 ws closed)
                contender
                params
                observed
                later).1
              ≡ duplicate_identity i n))
  connect_twice hub hub1 hub2 ws contender params params' observed now closed later a b h1 h2 d r
        l =
      let (t, on, on', w, oi, ow, ow') = connected_lem hub hub1 ws params observed now a h1 in
      let (tb, onb, onb', wb, oib, owb, owb') =
        connected_lem hub1 hub2 ws params' observed now b h2 in
      let (keeps, owned) =
        closed_other hub2 ws closed a b d (not_empty params'.identity b tb) wb oib in
      let still = owned ∙ owb' a d ∙ ow in
      (
        keeps ∙ onb' a d ∙ on,
        still,
        refused_rival (close_socket hub2 ws closed) ws contender params observed later a t l still
            r,
      )
