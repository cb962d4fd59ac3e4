-- ===== src/Hub/Presence.antt =====
-- packages/hub/src/presence.ts: who is connected. A socket is a number, for the identity of the object;
-- maps and weak maps are association lists. A set of identities is a list.
pub mod Dropped
mod Tests
use agent_mesh_platform.Hub.Ownership.{ConnectionOwnership, Release, release}
use agent_mesh_platform.Base.Map.{get, drop}
use agent_mesh_platform.Base.{
  if◌then◌else◌, ◌==◌, string_eq, nat_eq, get_or, ℕ, String, Bool, false, ◌&&◌, Option, none, some,
  List, [], ◌∷◌,
}

pub record Presence : Type 0 where
  pub online_agents : List (String × ℕ)
  pub ws_identities : List (ℕ × String)
  pub proxy_map : List (String × ℕ)
  pub ws_proxies : List (ℕ × List String)
  pub ownership : ConnectionOwnership

-- `map.get(k) === ws`.
abbrev pub holds_socket : Option ℕ → ℕ → Bool
holds_socket none ws = false
holds_socket (some s) ws = s == ws

-- `onlineAgents.get(identity) ?? proxyMap.get(identity)`.
unfoldable pub socket_of : Presence → String → Option ℕ
socket_of p identity = elim (get identity p.online_agents) [
  | none ↦ get identity p.proxy_map
  | some ws ↦ some ws
]

abbrev was_owner : Option Release → Bool
was_owner none = false
was_owner (some r) = r.was_owner

-- The loop over the identities that a socket speaks for.
unfoldable pub withdraw : List (String × ℕ) → ℕ → List String → List (String × ℕ)
withdraw proxies ws [] = proxies
withdraw proxies ws (pid ∷ pids) =
    withdraw (if holds_socket (get pid proxies) ws then drop pid proxies else proxies) ws pids

unfoldable pub drop_connection : Presence → ℕ → String → Presence
drop_connection p ws identity =
    let (ownership, released) = release p.ownership ws in
    let gone = was_owner released && holds_socket (get identity p.online_agents) ws in
    let proxied = get_or (get ws p.ws_proxies) [] in
    record p {
      ownership = ownership;
      online_agents = if gone then drop identity p.online_agents else p.online_agents;
      proxy_map = withdraw p.proxy_map ws proxied;
      ws_proxies = drop ws p.ws_proxies;
      ws_identities = drop ws p.ws_identities;
    }
