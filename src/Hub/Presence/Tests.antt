-- ===== src/Hub/Presence/Tests.antt =====
-- Two sockets, of which one speaks for a third identity.
use agent_mesh_platform.Hub.Presence.Dropped.{owns_one, drop_connection_lem}
use agent_mesh_platform.Hub.Presence.{Presence, holds_socket, socket_of, withdraw, drop_connection}
use agent_mesh_platform.Hub.Ownership.{owner, release}
use agent_mesh_platform.Base.Map.{get, drop}
use agent_mesh_platform.Base.{
  String-discrete, ◌==◌, string_eq, nat_eq, exists, get_or, ◌≡◌, refl, false, ◌&&◌, none, some, [],
  ◌∷◌, ℕ_discrete,
}

abbrev presence : Presence
presence = record {
  online_agents = ("proxy", 1) ∷ ("b", 2) ∷ [];
  ws_identities = (1, "proxy") ∷ (2, "b") ∷ [];
  proxy_map = ("user", 1) ∷ [];
  ws_proxies = (1, "user" ∷ []) ∷ [];
  ownership = record {
    next_generation = 2;
    generations = (1, 1) ∷ (2, 2) ∷ [];
    identities = (1, "proxy") ∷ (2, "b") ∷ [];
    owners = ("proxy", 1) ∷ ("b", 2) ∷ [];
  };
}

dropped_proxy :
    (socket_of (drop_connection presence 1 "proxy") "user" ≡ none)
    × (socket_of (drop_connection presence 1 "proxy") "b" ≡ some 2)
unfolding drop_connection withdraw socket_of release owner get drop String-discrete ℕ_discrete
dropped_proxy = (refl, refl)

drop_connection_lem_example :
    let p' = drop_connection presence 1 "proxy" in
    (holds_socket (get "user" p'.online_agents) 2
      ≡ holds_socket (get "user" presence.online_agents) 2)
    × (holds_socket (get "user" p'.proxy_map) 2 ≡ holds_socket (get "user" presence.proxy_map) 2)
    × (get 2 p'.ws_proxies ≡ get 2 presence.ws_proxies)
    × (get 2 p'.ws_identities ≡ get 2 presence.ws_identities)
    × (get 1 p'.ws_identities ≡ none)
    × (get 1 p'.ws_proxies ≡ none)
    × ((exists (λ s. s == "user") (get_or (get 1 presence.ws_proxies) [])
          && holds_socket (get "user" p'.proxy_map) 1)
        ≡ false)
    × ((owns_one presence.ownership 1 && holds_socket (get "proxy" p'.online_agents) 1) ≡ false)
unfolding ℕ_discrete
drop_connection_lem_example = drop_connection_lem presence 1 2 "proxy" "user" refl
