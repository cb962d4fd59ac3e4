-- ===== src/Hub/Presence/Dropped.antt =====
-- What a dropped connection takes with it.
use agent_mesh_platform.Hub.Presence.{Presence, holds_socket, withdraw, drop_connection}
use agent_mesh_platform.Hub.Ownership.{ConnectionOwnership, owner, release}
use agent_mesh_platform.Base.Map.{get, drop, get-drop}
use agent_mesh_platform.Base.{
  if◌then◌else◌, ◌==◌, string_eq, nat_eq, exists, get_or, ℕ, String, ◌≡◌, refl, Bool, false, not,
  ◌&&◌, none, some, List, [], ◌∷◌, arith,
}

-- Whether a socket owns the identity that it is remembered for.
abbrev pub owns_one : ConnectionOwnership → ℕ → Bool
owns_one o ws = elim (get ws o.identities) [
  | none ↦ false
  | some i ↦ not (i == "") && holds_socket (get i o.owners) ws
]

withdraw_lem :
    (proxies : List (String × ℕ)) (ws : ℕ) (pids : List String) (x : String)
    → get x (withdraw proxies ws pids) ≡ (
        if exists (λ s. s == x) pids && holds_socket (get x proxies) ws
        then none
        else get x proxies)
unfolding withdraw exists
withdraw_lem proxies ws [] x = refl
withdraw_lem proxies ws (pid ∷ pids) x = ground (
  arith,
  withdraw_lem (if holds_socket (get pid proxies) ws then drop pid proxies else proxies) ws pids x,
  get-drop pid x proxies,
)

-- Dropping a connection touches no other one: an identity that is online or proxied on another socket
-- stays there, with what that socket has declared and is called. Of the dropped socket neither its
-- name nor its claims are left, and no identity that it claimed is proxied on it. Where the socket
-- owns an identity that it is remembered for, the identity that it is dropped as is not online on it
-- any more.
pub drop_connection_lem :
    (p : Presence) (ws other : ℕ) (identity x : String)
    → (ws == other) ≡ false
    → let p' = drop_connection p ws identity in
      (holds_socket (get x p'.online_agents) other ≡ holds_socket (get x p.online_agents) other)
      × (holds_socket (get x p'.proxy_map) other ≡ holds_socket (get x p.proxy_map) other)
      × (get other p'.ws_proxies ≡ get other p.ws_proxies)
      × (get other p'.ws_identities ≡ get other p.ws_identities)
      × (get ws p'.ws_identities ≡ none)
      × (get ws p'.ws_proxies ≡ none)
      × ((exists (λ s. s == x) (get_or (get ws p.ws_proxies) [])
            && holds_socket (get x p'.proxy_map) ws)
          ≡ false)
      × ((owns_one p.ownership ws && holds_socket (get identity p'.online_agents) ws) ≡ false)
unfolding drop_connection release owner
drop_connection_lem p ws other identity x n = ground (
  arith,
  withdraw_lem p.proxy_map ws (get_or (get ws p.ws_proxies) []) x,
  get-drop identity x p.online_agents,
  get-drop ws other p.ws_proxies,
  get-drop ws other p.ws_identities,
  get-drop ws ws p.ws_proxies,
  get-drop ws ws p.ws_identities,
  get-drop identity identity p.online_agents,
)
