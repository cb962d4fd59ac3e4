-- ===== src/Store/Entitlement/Rules.antt =====
-- The two rules of packages/store/src/entitlement.ts.
use agent_mesh_platform.Store.Entitlement.{entitled, can_proxy, may_proxy}
use agent_mesh_platform.Store.Agents.{Agent, AgentType, is_identity, same_identity, null_eq}
use agent_mesh_platform.Base.RowLaws.{first_holds}
use agent_mesh_platform.Base.{
  if◌then◌else◌, Option-cases, ◌==◌, string_eq, nat_eq, first, exists, IsKeyed, is_some, String,
  ◌≡◌, refl, subst, ◌≢◌, ◌↔◌, inl, inr, true, false, not, ◌&&◌, Option, none, some, List, [], ◌∷◌,
  arith,
}

eq_of_null_eq : (o : Option String) (s : String) → null_eq o s ≡ true → o ≡ some s
eq_of_null_eq none s h = cc
eq_of_null_eq (some r) s h = ground arith

live_absent :
    (identity : String) (agents : List Agent)
    → exists (is_identity identity) agents ≡ false
    → first (λ a. a.identity == identity && not (is_some a.deleted_at)) agents ≡ none
unfolding exists first
live_absent identity [] h = refl
live_absent identity (a ∷ agents) h = ground (arith, live_absent identity agents)

-- Where an identity has one row, the first live row is that row, if it is live.
live-first :
    (identity : String) (agents : List Agent)
    → IsKeyed same_identity agents
    → first (λ a. a.identity == identity && not (is_some a.deleted_at)) agents
      ≡ elim (first (is_identity identity) agents) [
        | none ↦ none
        | some a ↦ if is_some a.deleted_at then none else some a
      ]
unfolding exists first
live-first identity [] k = refl
live-first identity (a ∷ agents) k =
    ground (arith, live-first identity agents k.1, live_absent identity agents, alone)
  where
    alone : a.identity ≡ identity → exists (is_identity identity) agents ≡ false
    alone e = subst (λ u. exists (is_identity u) agents ≡ false) e k.0

can_proxy_iff :
    (agents : List Agent) (identity : String)
    → IsKeyed same_identity agents
    → (can_proxy agents identity ≡ true) ↔ (
        (p : Agent) × (first (is_identity identity) agents ≡ some p)
        × (p.deleted_at ≡ none)
        × (p.can_proxy ≡ 1))
unfolding can_proxy
can_proxy_iff agents identity k = (
  λ h. elim (Option-cases (first (is_identity identity) agents)) [
    | inl e ↦ absurd (ground (arith, live-first identity agents k))
    | inr (p, e) ↦ (
      p,
      e,
      ground (arith, live-first identity agents k),
      ground (arith, live-first identity agents k),
    )
  ],
  λ (p, e, d, c). ground (arith, live-first identity agents k, e, d, c),
)

-- The rule, with the test of the first identity as it stands.
may_proxy-rule :
    (agents : List Agent) (types : List AgentType) (proxy subject : String)
    → proxy ≢ subject
    → (may_proxy agents types proxy subject ≡ entitled) ↔ (
        (can_proxy agents proxy ≡ true)
        × ((a : Agent) × (t : AgentType) × (first (is_identity subject) agents ≡ some a)
            × (a.deleted_at ≡ none)
            × (a.type ≡ some t.type)
            × (first (λ r. null_eq a.type r.type) types ≡ some t)
            × (t.requires_key ≡ 0)))
unfolding may_proxy
may_proxy-rule agents types proxy subject n = (
  λ h. elim (Option-cases (first (is_identity subject) agents)) [
    | inl e ↦ absurd (ground arith)
    | inr (a, e) ↦ elim (Option-cases (first (λ t. null_eq a.type t.type) types)) [
      | inl e' ↦ absurd (ground arith)
      | inr (t, e') ↦ (ground arith, (a, t, e, ground arith, typed a t e', e', ground arith))
    ]
  ],
  λ h. ground arith,
)
  where
    typed :
        (a : Agent) (t : AgentType)
        → first (λ r. null_eq a.type r.type) types ≡ some t
        → a.type ≡ some t.type
    typed a t e = eq_of_null_eq a.type t.type (first_holds (λ r. null_eq a.type r.type) types t e)

-- With one row for each identity, one identity may speak for another exactly if the first is
-- registered, live and carries `can_proxy`, and the second is registered, live, and of a registered
-- type that needs no key.
pub may_proxy_iff :
    (agents : List Agent) (types : List AgentType) (proxy subject : String)
    → IsKeyed same_identity agents
    → proxy ≢ subject
    → (may_proxy agents types proxy subject ≡ entitled) ↔ (
        ((p : Agent) × (first (is_identity proxy) agents ≡ some p)
          × (p.deleted_at ≡ none)
          × (p.can_proxy ≡ 1))
        × ((a : Agent) × (t : AgentType) × (first (is_identity subject) agents ≡ some a)
            × (a.deleted_at ≡ none)
            × (a.type ≡ some t.type)
            × (first (λ r. null_eq a.type r.type) types ≡ some t)
            × (t.requires_key ≡ 0)))
may_proxy_iff agents types proxy subject k n = (
  λ h.
      let (c, rest) = (may_proxy-rule agents types proxy subject n).0 h in
      ((can_proxy_iff agents proxy k).0 c, rest),
  λ h. (may_proxy-rule agents types proxy subject n).1 ((can_proxy_iff agents proxy k).1 h.0, h.1),
)
