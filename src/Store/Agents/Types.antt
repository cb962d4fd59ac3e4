-- ===== src/Store/Agents/Types.antt =====
-- Types of identities: adding never changes one, removing never strands an identity.
use agent_mesh_platform.Store.Agents.{
  Agent, AgentType, is_type, null_eq, get_type, add_type, identities_of_type, remove_type,
}
use agent_mesh_platform.Base.RowLaws.{ltb-count}
use agent_mesh_platform.Base.{
  if◌then◌else◌, Bool-cases, ◌==◌, string_eq, nat_eq, select, first, exists, delete, ℕ, String, ◌≡◌,
  refl, ◌⊎◌, inl, inr, true, false, not, ◌&&◌, Option, none, some, List, [], ◌∷◌, ◌++◌, arith,
}

first-append_other :
    (type : String) (types : List AgentType) (r : AgentType)
    → exists (is_type r.type) types ≡ false
    → first (is_type type) (types ++ r ∷ [])
      ≡ (if r.type == type then some r else first (is_type type) types)
unfolding first exists
first-append_other type [] r h = refl
first-append_other type (x ∷ types) r h = ground (arith, first-append_other type types r)

-- `addType` is create-only: a type that is there answers null and the table stays; a new one is
-- returned as it was written, and is what `getType` then reads. No other type's row changes.
pub get_type-add_type :
    (types : List AgentType) (type other : String) (description : Option String) (rk now : ℕ)
    → let row : AgentType = record {
      type = type;
      description = description;
      requires_key = rk;
      created_at = now;
    } in
      let r = add_type types type description rk now in
      (r.1 ≡ (if exists (is_type type) types then none else some row))
      × (get_type r.0 other ≡ (
          if exists (is_type type) types
          then get_type types other
          else if type == other
          then some row
          else get_type types other))
unfolding add_type get_type
get_type-add_type types type other description rk now =
    let row : AgentType = record {
      type = type;
      description = description;
      requires_key = rk;
      created_at = now;
    } in
    (
      ground (arith, first-append_other type types row),
      ground (arith, first-append_other other types row),
    )

first-delete :
    (type other : String) (types : List AgentType)
    → first (is_type other) (delete (is_type type) types)
      ≡ (if type == other then none else first (is_type other) types)
unfolding first delete
first-delete type other [] = ground arith
first-delete type other (x ∷ types) = ground (arith, first-delete type other types)

carriers :
    (agents : List Agent) (type : String)
    → ((identities_of_type agents type ≡ []) × (exists (λ a. null_eq a.type type) agents ≡ false))
      ⊎ ((x : String) × (xs : List String) × (identities_of_type agents type ≡ x ∷ xs)
          × (exists (λ a. null_eq a.type type) agents ≡ true))
unfolding identities_of_type exists select
carriers [] type = inl (refl, refl)
carriers (a ∷ agents) type = elim (Bool-cases (null_eq a.type type)) [
  | inl hit ↦ inr (a.identity, identities_of_type agents type, rw hit, rw hit)
  | inr miss ↦ rw miss (carriers agents type)
]

-- A type is removed only if no identity carries it, deleted ones included; then exactly its row goes,
-- and otherwise the table stays and the carriers are named.
pub remove_type_lem :
    (agents : List Agent) (types : List AgentType) (type other : String)
    → let r = remove_type agents types type in
      (r.1.in_use_by ≡ identities_of_type agents type)
      × (r.1.removed
          ≡ (not (exists (λ a. null_eq a.type type) agents) && exists (is_type type) types))
      × (get_type r.0 other ≡ (
          if not (exists (λ a. null_eq a.type type) agents) && type == other
          then none
          else get_type types other))
unfolding remove_type get_type
remove_type_lem agents types type other =
    ground
      (arith, carriers agents type, ltb-count (is_type type) types, first-delete type other types)
