-- ===== src/Hub/Connect/Maps.antt =====
-- The presence maps and the ownership agree on who is online.
use agent_mesh_platform.Hub.Connect.Replay.{}
use agent_mesh_platform.Hub.Connect.{Claims, wired}
use agent_mesh_platform.Hub.Send.Handler.{}
use agent_mesh_platform.Hub.Send.{Param}
use agent_mesh_platform.Hub.Presence.{Presence, drop_connection}
use agent_mesh_platform.Hub.Ownership.{
  ConnectionOwnership, Claim, conflict, generation_of, owner, claim, owns, release,
}
use agent_mesh_platform.Store.Entitlement.{}
use agent_mesh_platform.Store.Sources.{}
use agent_mesh_platform.Store.Messages.{mail_status_eq}
use agent_mesh_platform.Store.Agents.{}
use agent_mesh_platform.Base.Order.{}
use agent_mesh_platform.Base.RowLaws.{}
use agent_mesh_platform.Base.Map.{get, put, drop, get-put, get-drop}
use agent_mesh_platform.Base.{
  if◌then◌else◌, string_eq, nat_eq, ℕ, String, ◌≡◌, sym, ◌∙◌, some, List, arith,
}

-- An identity's socket in the map of those online is the one that owns the identity.
abbrev pub IsOwned : Presence → Type 0
IsOwned p = (x : String) (ws : ℕ) → get x p.online_agents ≡ some ws → owner p.ownership x ≡ some ws

-- A socket has the same identity in both maps.
abbrev pub IsNamed : Presence → Type 0
IsNamed p = (ws : ℕ) → get ws p.ws_identities ≡ get ws p.ownership.identities

-- What a claim that is granted leaves.
pub claim_granted :
    (o o' : ConnectionOwnership) (identity : String) (ws g : ℕ)
    → claim o identity ws ≡ (o', Claim.granted g)
    → (o'.owners ≡ put identity ws o.owners) × (o'.identities ≡ put ws identity o.identities)
unfolding claim generation_of
claim_granted o o' identity ws g h = ground arith

pub claim_conflict :
    (o o' : ConnectionOwnership) (identity : String) (ws i c : ℕ)
    → claim o identity ws ≡ (o', conflict i c)
    → (o'.owners ≡ o.owners) × (o'.identities ≡ o.identities)
unfolding claim generation_of
claim_conflict o o' identity ws i c h = ground arith

pub wired-IsOwned :
    (p : Presence) (o : ConnectionOwnership) (identity : String) (ws : ℕ) (proxy_for : List Param)
    (c : Claims)
    → o.owners ≡ put identity ws p.ownership.owners
    → IsOwned p
    → IsOwned (wired p o identity ws proxy_for c)
unfolding wired owner
wired-IsOwned p o identity ws proxy_for c e h x s k =
    ground (
      arith,
      h x s,
      get-put identity x ws p.online_agents,
      get-put identity x ws p.ownership.owners,
    )

pub wired-IsNamed :
    (p : Presence) (o : ConnectionOwnership) (identity : String) (ws : ℕ) (proxy_for : List Param)
    (c : Claims)
    → o.identities ≡ put ws identity p.ownership.identities
    → IsNamed p
    → IsNamed (wired p o identity ws proxy_for c)
unfolding wired
wired-IsNamed p o identity ws proxy_for c e h s = ground (
  arith,
  h s,
  get-put ws s identity p.ws_identities,
  get-put ws s identity p.ownership.identities,
)

pub release_lem :
    (o : ConnectionOwnership) (ws : ℕ) (identity : String)
    → get ws o.identities ≡ some identity
    → (identity ≡ "" → ⊥)
    → ((release o ws).0.identities ≡ drop ws o.identities)
      × ((release o ws).0.owners
          ≡ (if owns (owner o identity) ws then drop identity o.owners else o.owners))
      × ((release o ws).1
          ≡ some (record { identity = identity; was_owner = owns (owner o identity) ws }))
unfolding release
release_lem o ws identity h n = ground arith

-- The close of a socket that has an identity.
pub drop_connection-IsOwned :
    (p : Presence) (ws : ℕ) (identity : String)
    → get ws p.ws_identities ≡ some identity
    → (identity ≡ "" → ⊥)
    → IsOwned p
    → IsNamed p
    → IsOwned (drop_connection p ws identity)
unfolding drop_connection owner
drop_connection-IsOwned p ws identity e n h m x s k =
    let (i, o, r) = release_lem p.ownership ws identity (sym (m ws) ∙ e) n in
    ground
      (arith, h x s, get-drop identity x p.online_agents, get-drop identity x p.ownership.owners)

pub drop_connection-IsNamed :
    (p : Presence) (ws : ℕ) (identity : String)
    → get ws p.ws_identities ≡ some identity
    → (identity ≡ "" → ⊥)
    → IsNamed p
    → IsNamed (drop_connection p ws identity)
unfolding drop_connection
drop_connection-IsNamed p ws identity e n m s =
    let (i, o, r) = release_lem p.ownership ws identity (sym (m ws) ∙ e) n in
    ground (arith, m s, get-drop ws s p.ws_identities, get-drop ws s p.ownership.identities)
