-- ===== src/Hub/Refusals/Tests.antt =====
-- A run of the theorem on three refusals.
use agent_mesh_platform.Hub.Refusals.Counts.{}
use agent_mesh_platform.Hub.Refusals.{signature, egress, CounterKey}
use agent_mesh_platform.Base.Map.{}
use agent_mesh_platform.Base.{}

abbrev stale : CounterKey
stale = record { kind = signature; reason = "stale" }

abbrev denied : CounterKey
denied = record { kind = egress; reason = "red blue" }
