-- ===== src/Store/Agents/Tests.antt =====
-- Runs of the theorems on the registry of types.
use agent_mesh_platform.Store.Agents.Types.{}
use agent_mesh_platform.Store.Agents.{Agent, AgentType}
use agent_mesh_platform.Base.{none, some}

abbrev service : AgentType
service = record { type = "service"; description = none; requires_key = 0; created_at = 1 }

abbrev baseline : Agent
baseline = record {
  identity = "http-server";
  type = some "service";
  description = none;
  last_seen = none;
  created_at = 1;
  deleted_at = none;
  can_proxy = 1;
  tenant = "default";
  last_send_at = none;
}
