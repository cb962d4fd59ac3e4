-- ===== src/Hub/Heartbeat.antt =====
-- packages/hub/src/heartbeat.ts: the sweep that drops the sockets which did not answer the last ping.
pub mod Silent
mod Tests
use agent_mesh_platform.Hub.Connect.{touch_last_seen}
use agent_mesh_platform.Hub.Presence.{Presence, drop_connection}
use agent_mesh_platform.Store.Agents.{Agent}
use agent_mesh_platform.Base.{
  if◌then◌else◌, ◌==◌, string_eq, nat_eq, exists, delete, insert_absent, ℕ, String, Bool, List, [],
  ◌∷◌,
}

-- The sockets that were pinged and have not answered, with the presence and the registry.
pub record HeartbeatState : Type 0 where
  pub awaiting : List ℕ
  pub presence : Presence
  pub agents : List Agent

pub record SweepResult : Type 0 where
  pub pinged : List String
  pub dropped : List String

abbrev pub is_awaiting : ℕ → List ℕ → Bool
is_awaiting ws awaiting = exists (λ s. s == ws) awaiting

-- `alive` and `forget`: the two are the same.
unfoldable pub alive : HeartbeatState → ℕ → HeartbeatState
alive h ws = record h { awaiting = delete (λ s. s == ws) h.awaiting }

-- One round of the loop: the socket is dropped, or pinged.
unfoldable pub sweep_one : HeartbeatState → String → ℕ → ℕ → HeartbeatState
sweep_one h identity ws now =
    if is_awaiting ws h.awaiting
    then record {
      awaiting = delete (λ s. s == ws) h.awaiting;
      presence = drop_connection h.presence ws identity;
      agents = touch_last_seen h.agents identity now;
    }
    else record h { awaiting = insert_absent (λ s. s == ws) ws h.awaiting }

-- The loop over a snapshot of `online`.
unfoldable pub sweep_each : HeartbeatState → List (String × ℕ) → ℕ → HeartbeatState × SweepResult
sweep_each h [] now = (h, record { pinged = []; dropped = [] })
sweep_each h ((identity, ws) ∷ online) now =
    let (h', r) = sweep_each (sweep_one h identity ws now) online now in
    (
      h',
      if is_awaiting ws h.awaiting
          then record r { dropped = identity ∷ r.dropped }
          else record r { pinged = identity ∷ r.pinged },
    )

unfoldable pub sweep : HeartbeatState → ℕ → HeartbeatState × SweepResult
sweep h now = sweep_each h h.presence.online_agents now
