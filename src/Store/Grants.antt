-- ===== src/Store/Grants.antt =====
-- packages/store/src/grants.ts: who may do what, resolved per request from the table `role_grants`.
-- The capabilities and the scope that stands for a whole tenant come from `@agent-mesh/contracts`,
-- which is not part of the repository: they are arguments.
pub mod Scope
mod Tests
use agent_mesh_platform.Store.Agents.{default_tenant}
use agent_mesh_platform.Base.Order.{text_le, order_by}
use agent_mesh_platform.Base.{
  ltb, if◌then◌else◌, ◌==◌, string_eq, nat_eq, select, exists, delete, count, insert_absent, Result,
  ok, err, get_or, ℕ, String, Bool, ◌&&◌, ◌||◌, Option, List, map,
}

pub record Grant : Type 0 where
  pub tenant : String
  pub subject : String
  pub capability : String
  pub scope : String
  pub granted_by : String
  pub granted_at : ℕ

-- The argument of `grant` and, less `granted_by`, of `revoke`.
pub record Request : Type 0 where
  pub tenant : Option String
  pub subject : String
  pub capability : String
  pub scope : Option String
  pub granted_by : String

pub data Error : Type 0 where
  unknown_capability : String → Error

-- `PRIMARY KEY (tenant, subject, capability, scope)`.
abbrev pub same_key : Grant → Grant → Bool
same_key a b =
    a.tenant == b.tenant
    && a.subject == b.subject
    && a.capability == b.capability
    && a.scope == b.scope

module _ (scope_tenant : String) where
  -- The row that a request names.
  abbrev pub row_of : Request → ℕ → Grant
  row_of g now = record {
    tenant = get_or g.tenant default_tenant;
    subject = g.subject;
    capability = g.capability;
    scope = get_or g.scope scope_tenant;
    granted_by = g.granted_by;
    granted_at = now;
  }

  pub grant : List String → List Grant → Request → ℕ → Result Error (List Grant)
  grant all_capabilities db g now =
      if exists (λ c. c == g.capability) all_capabilities
      then ok (insert_absent (same_key (row_of g now)) (row_of g now) db)
      else err (unknown_capability g.capability)

  pub revoke : List Grant → Request → List Grant × Bool
  revoke db g = (delete (same_key (row_of g 0)) db, ltb 0 (count (same_key (row_of g 0)) db))

  -- The `WHERE` of `has`.
  abbrev pub covers : String → String → String → String → Grant → Bool
  covers subject capability scope tenant r =
      r.tenant == tenant
      && r.subject == subject
      && r.capability == capability
      && (r.scope == scope_tenant || r.scope == scope)

  pub has : List Grant → String → String → String → String → Bool
  has db subject capability scope tenant = exists (covers subject capability scope tenant) db

pub has_any : List Grant → String → String → String → Bool
has_any db subject capability tenant =
    exists (λ r. r.tenant == tenant && r.subject == subject && r.capability == capability) db

pub list_for : List Grant → String → String → List Grant
list_for db subject tenant =
    order_by
      (λ a b.
        if a.capability == b.capability
        then text_le a.scope b.scope
        else text_le a.capability b.capability)
      (select (λ r. r.tenant == tenant && r.subject == subject) db)

pub subjects_with : List Grant → String → String → List (String × String)
subjects_with db capability tenant =
    map (λ r. (r.subject, r.scope))
      (order_by
        (λ a b.
          if a.subject == b.subject then text_le a.scope b.scope else text_le a.subject b.subject)
        (select (λ r. r.tenant == tenant && r.capability == capability) db))
