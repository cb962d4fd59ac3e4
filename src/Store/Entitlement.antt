-- ===== src/Store/Entitlement.antt =====
-- packages/store/src/entitlement.ts: who may speak for whom.
pub mod Rules
mod Tests
use agent_mesh_platform.Store.Agents.{Agent, AgentType, is_identity, null_eq}
use agent_mesh_platform.Base.{
  if◌then◌else◌, ◌==◌, string_eq, nat_eq, first, is_some, ℕ, String, Bool, true, false, not, ◌&&◌,
  Option, none, some, List,
}

pub data Refusal : Type 0 where
  not_a_proxy unknown_identity deleted self_signing : Refusal

-- `{ ok: true }`, or `{ ok: false, reason }`.
pub data Entitlement : Type 0 where
  entitled : Entitlement
  refused : Refusal → Entitlement

abbrev live_row : String → Agent → Bool
live_row identity a = a.identity == identity && not (is_some a.deleted_at)

unfoldable pub can_proxy : List Agent → String → Bool
can_proxy agents identity = elim (first (live_row identity) agents) [
  | none ↦ false
  | some row ↦ row.can_proxy == 1
]

-- `LEFT JOIN agent_types t ON t.type = a.type`: null where the type is null or not registered.
requires_key_of : List AgentType → Agent → Option ℕ
requires_key_of types a = elim (first (λ t. null_eq a.type t.type) types) [
  | none ↦ none
  | some t ↦ some t.requires_key
]

-- `requires_key !== 0`, where a null is not 0.
abbrev needs_key : Option ℕ → Bool
needs_key none = true
needs_key (some n) = not (n == 0)

unfoldable pub may_proxy : List Agent → List AgentType → String → String → Entitlement
unfolding requires_key_of
may_proxy agents types proxy subject =
    if proxy == subject
    then entitled
    else if not (can_proxy agents proxy)
    then refused not_a_proxy
    else elim (first (is_identity subject) agents) [
      | none ↦ refused unknown_identity
      | some row ↦
          if is_some row.deleted_at
          then refused deleted
          else if needs_key (requires_key_of types row)
          then refused self_signing
          else entitled
    ]
