-- ===== src/Store/Groups/Tests.antt =====
-- Runs of the theorems on a database that has only been seeded.
use agent_mesh_platform.Store.Groups.Egress.{}
use agent_mesh_platform.Store.Groups.Membership.{times, members_of-group_of}
use agent_mesh_platform.Store.Groups.{Member, Tables, group_of, members_of, seed}
use agent_mesh_platform.Store.Agents.{Agent}
use agent_mesh_platform.Base.Order.{text_le}
use agent_mesh_platform.Base.{String-discrete, first, exists, ◌≡◌, refl, none, [], ◌∷◌}

abbrev seeded : Tables
seeded = seed (record { groups = []; members = []; egress = [] }) 1

abbrev placed : Member
placed = record {
  tenant = "default";
  identity = "a";
  group_id = "red";
  moved_at = 1;
  moved_by = "root";
}

abbrev one_placed : Tables
one_placed = record { groups = []; members = placed ∷ []; egress = [] }

abbrev lane : Agent
lane = record {
  identity = "b";
  type = none;
  description = none;
  last_seen = none;
  created_at = 1;
  deleted_at = none;
  can_proxy = 0;
  tenant = "default";
  last_send_at = none;
}

members_of-group_of_example :
    times "b" (members_of text_le one_placed (lane ∷ []) "default" "default") ≡ 1
unfolding exists first group_of String-discrete
members_of-group_of_example =
    members_of-group_of text_le one_placed (lane ∷ []) "default" "default" "b" (refl, tt) (refl, tt)
