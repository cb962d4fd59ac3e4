-- ===== src/Store/Groups.antt =====
-- packages/store/src/groups.ts: groups of identities, and who may send to whom.
pub mod Membership
pub mod Egress
mod Tests
use agent_mesh_platform.Store.Agents.{Agent, default_tenant}
use agent_mesh_platform.Base.Order.{text_le, order_by}
use agent_mesh_platform.Base.{
  ltb, if◌then◌else◌, ◌==◌, string_eq, nat_eq, select, first, exists, update, delete, count,
  insert_absent, get_or, is_some, ℕ, String, Bool, not, ◌&&◌, Option, none, some, List, [], ◌∷◌,
  ◌++◌, map,
}

abbrev pub default_group : String
default_group = "default"

pub record Group : Type 0 where
  pub tenant : String
  pub group_id : String
  pub description : Option String
  pub created_at : ℕ
  pub created_by : String

-- `agent_group_members`.
pub record Member : Type 0 where
  pub tenant : String
  pub identity : String
  pub group_id : String
  pub moved_at : ℕ
  pub moved_by : String

-- `group_egress`.
pub record Rule : Type 0 where
  pub tenant : String
  pub from_group : String
  pub to_group : String
  pub granted_at : ℕ
  pub granted_by : String

-- The three tables of this file.
pub record Tables : Type 0 where
  pub groups : List Group
  pub members : List Member
  pub egress : List Rule

abbrev pub is_group : String → String → Group → Bool
is_group tenant group_id g = g.tenant == tenant && g.group_id == group_id

abbrev pub is_member : String → String → Member → Bool
is_member tenant identity m = m.tenant == tenant && m.identity == identity

abbrev pub is_rule : String → String → String → Rule → Bool
is_rule tenant from_group to_group r =
    r.tenant == tenant && r.from_group == from_group && r.to_group == to_group

pub create_group : Tables → Option String → String → Option String → String → ℕ → Tables × Bool
create_group db tenant group_id description created_by now =
    let t = get_or tenant default_tenant in
    let row : Group = record {
      tenant = t;
      group_id = group_id;
      description = description;
      created_at = now;
      created_by = created_by;
    } in
    (
      record db { groups = insert_absent (is_group t group_id) row db.groups },
      not (exists (is_group t group_id) db.groups),
    )

pub list_groups : Tables → String → List Group
list_groups db tenant =
    order_by (λ a b. text_le a.group_id b.group_id) (select (λ g. g.tenant == tenant) db.groups)

unfoldable pub group_of : Tables → String → String → String
group_of db identity tenant = elim (first (is_member tenant identity) db.members) [
  | none ↦ default_group
  | some row ↦ row.group_id
]

placed_in : Tables → String → String → List String
placed_in db group_id tenant =
    map (λ m. m.identity)
      (order_by (λ a b. text_le a.identity b.identity)
        (select (λ m. m.tenant == tenant && m.group_id == group_id) db.members))

-- The left join of `membersOf`: live agents of the tenant that no row of the tenant places.
unplaced : Tables → List Agent → String → List String
unplaced db agents tenant =
    map (λ a. a.identity)
      (select
        (λ a.
          a.tenant == tenant
          && not (is_some a.deleted_at)
          && not (exists (is_member tenant a.identity) db.members))
        agents)

-- `Array.prototype.sort` is the runtime's: its order of texts is an argument.
pub members_of : (String → String → Bool) → Tables → List Agent → String → String → List String
unfolding placed_in unplaced
members_of js_le db agents group_id tenant =
    let placed = placed_in db group_id tenant in
    if not (group_id == default_group)
    then placed
    else order_by js_le (placed ++ unplaced db agents tenant)

-- `ON CONFLICT(tenant, identity) DO UPDATE`.
upsert_member : Member → List Member → List Member
upsert_member m ms =
    if exists (is_member m.tenant m.identity) ms
    then update (is_member m.tenant m.identity)
        (λ r. record r { group_id = m.group_id; moved_at = m.moved_at; moved_by = m.moved_by }) ms
    else ms ++ m ∷ []

pub move_to : Tables → Option String → String → String → String → ℕ → Tables
unfolding upsert_member
move_to db tenant identity group_id moved_by now =
    let m : Member = record {
      tenant = get_or tenant default_tenant;
      identity = identity;
      group_id = group_id;
      moved_at = now;
      moved_by = moved_by;
    } in
    record db { members = upsert_member m db.members }

pub allow_egress : Tables → Option String → String → String → String → ℕ → Tables
allow_egress db tenant from_group to_group granted_by now =
    let t = get_or tenant default_tenant in
    let row : Rule = record {
      tenant = t;
      from_group = from_group;
      to_group = to_group;
      granted_at = now;
      granted_by = granted_by;
    } in
    record db { egress = insert_absent (is_rule t from_group to_group) row db.egress }

pub revoke_egress : Tables → Option String → String → String → Tables × Bool
revoke_egress db tenant from_group to_group =
    let t = get_or tenant default_tenant in
    (
      record db { egress = delete (is_rule t from_group to_group) db.egress },
      ltb 0 (count (is_rule t from_group to_group) db.egress),
    )

pub list_egress : Tables → String → List Rule
list_egress db tenant =
    order_by
      (λ a b.
        if a.from_group == b.from_group
        then text_le a.to_group b.to_group
        else text_le a.from_group b.from_group)
      (select (λ r. r.tenant == tenant) db.egress)

-- What `migrate` seeds.
pub seed : Tables → ℕ → Tables
unfolding create_group allow_egress
seed db now =
    allow_egress
      (create_group db none default_group (some "Everything that has not been placed anywhere else")
        "seed" now).0
      none default_group default_group "seed" now

pub record SendVerdict : Type 0 where
  pub ok : Bool
  pub from_group : String
  pub to_group : String

unfoldable pub may_send : Tables → String → String → String → SendVerdict
unfolding group_of
may_send db from to tenant =
    let from_group = group_of db from tenant in
    let to_group = group_of db to tenant in
    record {
      ok = exists (is_rule tenant from_group to_group) db.egress;
      from_group = from_group;
      to_group = to_group;
    }
