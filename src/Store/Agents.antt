-- ===== src/Store/Agents.antt =====
-- packages/store/src/schema/agents.ts: the registry of identities and of their types, and
-- packages/store/src/tenants.ts's `tenantOf`. A time is a number of seconds, as `datetime('now')`
-- gives it; the clock is the argument `now`.
pub mod Types
mod Tests
use agent_mesh_platform.Base.Order.{text_le, order_by}
use agent_mesh_platform.Base.{
  ltb, if◌then◌else◌, ◌==◌, string_eq, nat_eq, select, first, exists, delete, count, ℕ, String,
  Bool, false, Option, none, some, List, [], ◌∷◌, ◌++◌, map,
}

pub record Agent : Type 0 where
  pub identity : String
  pub type : Option String
  pub description : Option String
  pub last_seen : Option ℕ
  pub created_at : ℕ
  pub deleted_at : Option ℕ
  pub can_proxy : ℕ
  pub tenant : String
  pub last_send_at : Option ℕ

pub record AgentType : Type 0 where
  pub type : String
  pub description : Option String
  pub requires_key : ℕ
  pub created_at : ℕ

abbrev pub is_identity : String → Agent → Bool
is_identity identity a = a.identity == identity

-- `PRIMARY KEY` of `agents`.
abbrev pub same_identity : Agent → Agent → Bool
same_identity a = is_identity a.identity

abbrev pub is_type : String → AgentType → Bool
is_type type r = r.type == type

-- `a.type = ?`, which is not true of a null.
abbrev pub null_eq : Option String → String → Bool
null_eq none s = false
null_eq (some r) s = r == s

abbrev pub default_tenant : String
default_tenant = "default"

unfoldable pub tenant_of : List Agent → String → String
tenant_of agents identity = elim (first (is_identity identity) agents) [
  | none ↦ default_tenant
  | some row ↦ row.tenant
]

unfoldable pub get_type : List AgentType → String → Option AgentType
get_type types type = first (is_type type) types

pub list_types : List AgentType → List AgentType
list_types types = order_by (λ a b. text_le a.type b.type) types

pub add_type : List AgentType → String → Option String → ℕ → ℕ → List AgentType × Option AgentType
unfolding get_type
add_type types type description requires_key now =
    let row : AgentType = record {
      type = type;
      description = description;
      requires_key = requires_key;
      created_at = now;
    } in
    if exists (is_type type) types
    then (types, none)
    else (types ++ row ∷ [], get_type (types ++ row ∷ []) type)

pub identities_of_type : List Agent → String → List String
identities_of_type agents type = map (λ a. a.identity) (select (λ a. null_eq a.type type) agents)

pub record Removal : Type 0 where
  pub removed : Bool
  pub in_use_by : List String

pub remove_type : List Agent → List AgentType → String → List AgentType × Removal
remove_type agents types type = elim (identities_of_type agents type) [
  | [] ↦ (
    delete (is_type type) types,
    record { removed = ltb 0 (count (is_type type) types); in_use_by = [] },
  )
  | x ∷ xs ↦ (types, record { removed = false; in_use_by = x ∷ xs })
]

-- The rows that every boot of the hub inserts if they are absent.
abbrev pub seeded_types : List (String × (String × ℕ))
seeded_types =
    ("ai-claude", ("Claude runtime", 1))
    ∷ ("ai-codex", ("Codex runtime", 1))
    ∷ ("ai-antigravity", ("Antigravity (agy) CLI runtime", 1))
    ∷ ("service", ("Baseline service", 0))
    ∷ ("human", ("Person, authenticated by web session rather than by key", 0))
    ∷ []

pub seed_types : List (String × (String × ℕ)) → List AgentType → ℕ → List AgentType
unfolding add_type
seed_types [] types now = types
seed_types ((type, (description, requires_key)) ∷ rest) types now =
    seed_types rest (add_type types type (some description) requires_key now).0 now
