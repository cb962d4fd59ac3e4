-- ===== src/Store/Sources.antt =====
-- packages/store/src/sources.ts: where an identity was seen connecting from, and when it last sent. A
-- time is a number of seconds. An address that is missing or empty is none.
pub mod Seen
mod Tests
use agent_mesh_platform.Store.Agents.{Agent, is_identity}
use agent_mesh_platform.Base.{
  if◌then◌else◌, ◌==◌, string_eq, nat_eq, select, first, exists, update, ℕ, ◌+◌, String, Bool, true,
  false, ◌&&◌, Option, none, some, List, [], ◌∷◌, ◌++◌,
}

pub record AgentSource : Type 0 where
  pub identity : String
  pub observed : String
  pub first_seen : ℕ
  pub last_seen : ℕ
  pub requests : ℕ

abbrev pub is_source : String → String → AgentSource → Bool
is_source identity observed r = r.identity == identity && r.observed == observed

-- `!s` of a text or a null.
abbrev pub truthy : Option String → Option String
truthy none = none
truthy (some s) = if s == "" then none else some s

-- `ON CONFLICT(identity, observed) DO UPDATE`.
unfoldable pub record_source : List AgentSource → String → Option String → ℕ → List AgentSource
record_source sources identity observed now = elim (truthy observed) [
  | none ↦ sources
  | some o ↦
      if exists (is_source identity o) sources
      then update (is_source identity o)
          (λ r. record r { last_seen = now; requests = r.requests + 1 }) sources
      else sources
        ++ record {
          identity = identity;
          observed = o;
          first_seen = now;
          last_seen = now;
          requests = 1;
        }
          ∷ []
]

-- `===` of two texts or nulls.
abbrev pub same_place : Option String → Option String → Bool
same_place none none = true
same_place none (some b) = false
same_place (some a) none = false
same_place (some a) (some b) = a == b

abbrev pub observed_by : String → List AgentSource → List AgentSource
observed_by identity sources = select (λ r. r.identity == identity) sources

-- Whether the list is empty, or has the place.
abbrev pub known_at : (Option String → Option String) → String → List AgentSource → Bool
known_at group here [] = true
known_at group here (r ∷ rows) =
    exists (λ s. same_place (group (some s.observed)) (group (some here))) (r ∷ rows)

unfoldable pub seen_before :
    List AgentSource → String → Option String → (Option String → Option String) → Bool
seen_before sources identity observed group = elim (truthy observed) [
  | none ↦ true
  | some here ↦ known_at group here (observed_by identity sources)
]

unfoldable pub last_send_at : List Agent → String → Option ℕ
last_send_at agents identity = elim (first (is_identity identity) agents) [
  | none ↦ none
  | some row ↦ row.last_send_at
]

unfoldable pub mark_send : List Agent → String → ℕ → List Agent
mark_send agents identity now =
    update (is_identity identity) (λ a. record a { last_send_at = some now }) agents
