-- ===== src/Hub/Dormancy/Refused.antt =====
-- When a send is refused for silence, and what ends the refusal.
use agent_mesh_platform.Hub.Dormancy.{DormancyRefusal, check_dormant_source}
use agent_mesh_platform.Store.Sources.Seen.{seen_near}
use agent_mesh_platform.Store.Sources.Seen.{}
use agent_mesh_platform.Store.Sources.{
  AgentSource, truthy, record_source, seen_before, last_send_at, mark_send,
}
use agent_mesh_platform.Store.Agents.{Agent, is_identity}
use agent_mesh_platform.Base.RowLaws.{}
use agent_mesh_platform.Base.{
  Option-cases, first, exists, update, ℕ, ◌+◌, ◌*◌, ◌≤◌, ◌<◌, String, ◌≡◌, inl, inr, true, false,
  Option, none, some, List, [], ◌∷◌, arith,
}

last_send_at-mark_send :
    (agents : List Agent) (identity : String) (now : ℕ)
    → exists (is_identity identity) agents ≡ true
    → last_send_at (mark_send agents identity now) identity ≡ some now
unfolding last_send_at mark_send exists first update
last_send_at-mark_send [] identity now h = cc
last_send_at-mark_send (a ∷ agents) identity now h =
    ground (arith, last_send_at-mark_send agents identity now)

module _ (dormancy : ℕ) (prefix_of : Option String → Option String) (agents : List Agent)
    (sources : List AgentSource) (from sent_by : String) (observed : Option String) where
  -- A refusal is of an identity that signs for itself, has sent before, has been silent for the whole
  -- window and comes from an address whose network it has not been seen on.
  pub check_dormant_source-refused :
      (now_ms : ℕ) (r : DormancyRefusal)
      → check_dormant_source dormancy prefix_of agents sources from sent_by observed now_ms ≡ some r
      → (0 < dormancy)
        × (sent_by ≡ from)
        × (seen_before sources from observed prefix_of ≡ false)
        × ((last : ℕ) × (last_send_at agents from ≡ some last)
            × (1000 * (last + dormancy) ≤ now_ms))
  unfolding check_dormant_source
  check_dormant_source-refused now_ms r h = elim (Option-cases (truthy observed)) [
    | inl e ↦ absurd (ground arith)
    | inr (o, e) ↦ elim (Option-cases (last_send_at agents from)) [
      | inl l ↦ absurd (ground arith)
      | inr (last, l) ↦ (ground arith, ground arith, ground arith, (last, l, ground arith))
    ]
  ]

  -- A send that was accepted ends the silence, and a request that was recorded makes its network a
  -- known one: a send within the window of the first, or from any address that `prefixOf` groups with
  -- the second's, is not refused for silence, at whatever later time.
  pub check_dormant_source-ended :
      (now later now_ms : ℕ) (place : String) (near : Option String)
      → exists (is_identity from) agents ≡ true
      → now_ms < 1000 * (now + dormancy)
      → truthy observed ≡ some place
      → prefix_of near ≡ prefix_of observed
      → (check_dormant_source dormancy prefix_of
            (mark_send agents from now)
            sources
            from
            sent_by
            observed
            now_ms
          ≡ none)
        × (check_dormant_source dormancy prefix_of agents
              (record_source sources from observed now)
              from
              sent_by
              near
              later
            ≡ none)
  unfolding check_dormant_source
  check_dormant_source-ended now later now_ms place near known soon there grouped = ground (
    arith,
    last_send_at-mark_send agents from now known,
    seen_near sources from observed near place now prefix_of there grouped,
  )
