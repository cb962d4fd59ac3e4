-- ===== src/Hub/Dormancy.antt =====
-- packages/hub/src/dormancy.ts: a send from a network that a silent identity has not been seen on. The
-- clock is in milliseconds; `last_send_at` is in seconds. `prefixOf` of packages/hub/src/observed.ts is
-- an argument.
pub mod Refused
mod Tests
use agent_mesh_platform.Store.Sources.{AgentSource, truthy, seen_before, last_send_at}
use agent_mesh_platform.Store.Agents.{Agent}
use agent_mesh_platform.Base.{
  ltb, leb, if◌then◌else◌, ◌==◌, string_eq, nat_eq, ℕ, ◌+◌, ◌-◌, ◌*◌, ◌/◌, String, Bool, not,
  Option, none, some, List,
}

-- The refusal, with the whole seconds of silence and the prefix that it reports.
pub record DormancyRefusal : Type 0 where
  pub idle_seconds : ℕ
  pub dormancy_seconds : ℕ
  pub observed_prefix : Option String

-- `idleSeconds < DORMANCY_SECONDS`, also where the clock is behind.
abbrev pub is_active : ℕ → ℕ → ℕ → Bool
is_active dormancy_seconds now_ms last = ltb now_ms (1000 * (last + dormancy_seconds))

unfoldable pub check_dormant_source :
    ℕ
    → (Option String → Option String)
    → List Agent
    → List AgentSource
    → String
    → String
    → Option String
    → ℕ
    → Option DormancyRefusal
check_dormant_source dormancy_seconds prefix_of agents sources from sent_by observed now_ms =
    if leb dormancy_seconds 0
    then none
    else if not (sent_by == from)
    then none
    else elim (truthy observed) [
      | none ↦ none
      | some place ↦ elim (last_send_at agents from) [
        | none ↦ none
        | some last ↦
            if is_active dormancy_seconds now_ms last
            then none
            else if seen_before sources from observed prefix_of
            then none
            else some (record {
              idle_seconds = (now_ms - 1000 * last) / 1000;
              dormancy_seconds = dormancy_seconds;
              observed_prefix = prefix_of observed;
            })
      ]
    ]
