-- ===== src/Store/Grants/Tests.antt =====
-- Runs of the theorems on two grants.
use agent_mesh_platform.Store.Grants.Scope.{revoke-grant}
use agent_mesh_platform.Store.Grants.{Grant, Request, row_of, grant, revoke}
use agent_mesh_platform.Base.{String-discrete, exists, ok, ◌≡◌, refl, true, none, some, [], ◌∷◌}

abbrev request : Request
request = record {
  tenant = none;
  subject = "kim";
  capability = "tenant_admin";
  scope = some "team";
  granted_by = "root";
}

abbrev wide : Grant
wide = record {
  tenant = "default";
  subject = "kim";
  capability = "tenant_admin";
  scope = "*";
  granted_by = "root";
  granted_at = 1;
}

revoke-grant_example :
    (grant "*" ("tenant_admin" ∷ []) (wide ∷ []) request 5 ≡ ok (wide ∷ row_of "*" request 5 ∷ []))
    × (revoke "*" (wide ∷ row_of "*" request 5 ∷ []) request ≡ (wide ∷ [], true))
unfolding exists String-discrete
revoke-grant_example = revoke-grant "*" ("tenant_admin" ∷ []) (wide ∷ []) request 5 refl
