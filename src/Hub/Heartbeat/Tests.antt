-- ===== src/Hub/Heartbeat/Tests.antt =====
-- One socket that is silent and one that is not.
use agent_mesh_platform.Hub.Heartbeat.Silent.{is_late, is_timely, drop_all, touch_all, sweep_lem}
use agent_mesh_platform.Hub.Heartbeat.{HeartbeatState, is_awaiting, sweep}
use agent_mesh_platform.Hub.Presence.{}
use agent_mesh_platform.Hub.Ownership.{}
use agent_mesh_platform.Base.{
  if◌then◌else◌, ◌==◌, string_eq, nat_eq, select, exists, ◌≡◌, refl, not, [], ◌∷◌, map, ℕ_discrete,
}

abbrev state : HeartbeatState
state = record {
  awaiting = 1 ∷ [];
  presence = record {
    online_agents = ("a", 1) ∷ ("b", 2) ∷ [];
    ws_identities = (1, "a") ∷ (2, "b") ∷ [];
    proxy_map = [];
    ws_proxies = [];
    ownership = record { next_generation = 0; generations = []; identities = []; owners = [] };
  };
  agents = [];
}

sweep_lem_example :
    let late = select (is_late state.awaiting) state.presence.online_agents in
    ((sweep state 5).1.dropped ≡ map (λ e. e.0) late)
    × ((sweep state 5).1.pinged
        ≡ map (λ e. e.0) (select (is_timely state.awaiting) state.presence.online_agents))
    × ((sweep state 5).0.presence ≡ drop_all state.presence late)
    × ((sweep state 5).0.agents ≡ touch_all state.agents late 5)
    × (is_awaiting 2 (sweep state 5).0.awaiting ≡ (
        if exists (λ e. e.1 == 2) state.presence.online_agents
        then not (is_awaiting 2 state.awaiting)
        else is_awaiting 2 state.awaiting))
unfolding exists ℕ_discrete
sweep_lem_example = sweep_lem state 5 2 (refl, (refl, tt))
