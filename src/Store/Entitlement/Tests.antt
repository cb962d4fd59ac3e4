-- ===== src/Store/Entitlement/Tests.antt =====
-- A run of the rule on the web proxy and a person.
use agent_mesh_platform.Store.Entitlement.Rules.{may_proxy_iff}
use agent_mesh_platform.Store.Entitlement.{entitled, can_proxy, may_proxy}
use agent_mesh_platform.Store.Agents.{Agent, AgentType, is_identity, null_eq}
use agent_mesh_platform.Base.{
  String-discrete, distinct, first, exists, ℕ, String, ◌≡◌, refl, ◌↔◌, Option, none, some, List, [],
  ◌∷◌,
}

abbrev row : String → Option String → ℕ → Agent
row identity type can_proxy = record {
  identity = identity;
  type = type;
  description = none;
  last_seen = none;
  created_at = 1;
  deleted_at = none;
  can_proxy = can_proxy;
  tenant = "default";
  last_send_at = none;
}

abbrev agents : List Agent
agents = row "http-server" (some "service") 1 ∷ row "kim" (some "human") 0 ∷ []

abbrev types : List AgentType
types = record { type = "human"; description = none; requires_key = 0; created_at = 1 } ∷ []

may_proxy_example : (may_proxy agents types "http-server" "kim" ≡ entitled) ↔ (
    ((p : Agent) × (first (is_identity "http-server") agents ≡ some p)
      × (p.deleted_at ≡ none)
      × (p.can_proxy ≡ 1))
    × ((a : Agent) × (t : AgentType) × (first (is_identity "kim") agents ≡ some a)
        × (a.deleted_at ≡ none)
        × (a.type ≡ some t.type)
        × (first (λ r. null_eq a.type r.type) types ≡ some t)
        × (t.requires_key ≡ 0)))
unfolding String-discrete exists
may_proxy_example =
    may_proxy_iff agents types "http-server" "kim" (refl, (refl, tt))
      (distinct "http-server" "kim" refl)
