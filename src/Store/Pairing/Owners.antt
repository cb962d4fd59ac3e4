-- ===== src/Store/Pairing/Owners.antt =====
-- Ownership is assigned and taken away for one tenant, identity and owner.
use agent_mesh_platform.Store.Pairing.{
  Owner, Tables, is_owner_row, add_owner, is_owner, assign, unassign,
}
use agent_mesh_platform.Store.Agents.{default_tenant}
use agent_mesh_platform.Base.RowLaws.{exists-append, exists-delete_self, ltb-count, exists_mono}
use agent_mesh_platform.Base.{
  Bool-cases, ◌==◌, string_eq, nat_eq, exists, insert_absent, get_or, ℕ, String, ◌≡◌, ◌∙◌, inl, inr,
  true, false, ◌&&◌, ◌||◌, Option, List, arith,
}

exists-add_owner :
    (tenant identity owner by i o t : String) (now : ℕ) (os : List Owner)
    → exists (is_owner_row t i o) (add_owner tenant identity owner by now os)
      ≡ (exists (is_owner_row t i o) os || (tenant == t && (identity == i && owner == o)))
unfolding add_owner insert_absent exists
exists-add_owner tenant identity owner by i o t now os =
    elim (Bool-cases (exists (is_owner_row tenant identity owner) os)) [
      | inl there ↦ rw there (ground (arith, same there))
      | inr new ↦ rw new (exists-append (is_owner_row t i o) os _ ∙ ground arith)
    ]
  where
    same :
        exists (is_owner_row tenant identity owner) os ≡ true
        → (tenant == t && (identity == i && owner == o)) ≡ true
        → exists (is_owner_row t i o) os ≡ true
    same there e =
        exists_mono (is_owner_row tenant identity owner) (is_owner_row t i o) (λ r h. ground arith)
          os there

-- An assignment makes its owner one, and no one else; to take it back leaves every other ownership, and
-- says whether there was one.
pub is_owner-assign :
    (db : Tables) (tenant : Option String) (identity owner by i o t : String) (now : ℕ)
    → (is_owner (assign db tenant identity owner by now) o i t ≡ (
        is_owner db o i t || (get_or tenant default_tenant == t && (identity == i && owner == o))))
      × ((unassign db tenant identity owner).1
          ≡ is_owner db owner identity (get_or tenant default_tenant))
      × (is_owner
            (unassign db tenant identity owner).0
            owner
            identity
            (get_or tenant default_tenant)
          ≡ false)
unfolding is_owner assign unassign
is_owner-assign db tenant identity owner by i o t now = (
  exists-add_owner (get_or tenant default_tenant) identity owner by i o t now db.agent_owners,
  ltb-count (is_owner_row (get_or tenant default_tenant) identity owner) db.agent_owners,
  exists-delete_self (is_owner_row (get_or tenant default_tenant) identity owner) db.agent_owners,
)
