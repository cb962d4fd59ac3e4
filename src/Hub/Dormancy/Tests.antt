-- ===== src/Hub/Dormancy/Tests.antt =====
-- An identity that sent at the second 1, is known at home, and sends after three hours from elsewhere.
use agent_mesh_platform.Hub.Dormancy.Refused.{
  check_dormant_source-refused, check_dormant_source-ended,
}
use agent_mesh_platform.Hub.Dormancy.{DormancyRefusal, check_dormant_source}
use agent_mesh_platform.Store.Sources.{
  AgentSource, record_source, seen_before, last_send_at, mark_send,
}
use agent_mesh_platform.Store.Agents.{Agent}
use agent_mesh_platform.Base.{
  if◌then◌else◌, String-discrete, ◌==◌, string_eq, nat_eq, select, first, exists, ℕ, ◌+◌, ◌*◌, ◌≤◌,
  ◌<◌, String, ◌≡◌, refl, false, Option, none, some, List, [], ◌∷◌, arith,
}

abbrev agents : List Agent
agents =
    record {
      identity = "a";
      type = none;
      description = none;
      last_seen = none;
      created_at = 1;
      deleted_at = none;
      can_proxy = 0;
      tenant = "default";
      last_send_at = some 1;
    }
    ∷ []

abbrev sources : List AgentSource
sources =
    record { identity = "a"; observed = "home"; first_seen = 1; last_seen = 1; requests = 1 } ∷ []

abbrev refusal : DormancyRefusal
refusal = record {
  idle_seconds = 10899;
  dormancy_seconds = 10800;
  observed_prefix = some "elsewhere";
}

refused_elsewhere :
    check_dormant_source 10800 (λ o. o) agents sources "a" "a" (some "elsewhere") 10900000
    ≡ some refusal
unfolding check_dormant_source last_send_at seen_before select exists first String-discrete
refused_elsewhere = refl

check_dormant_source-refused_example :
    ◌<◌ 0 10800
    × ◌≡◌ {A = String} "a" "a"
    × (seen_before sources "a" (some "elsewhere") (λ o. o) ≡ false)
    × ((last : ℕ) × (last_send_at agents "a" ≡ some last) × (1000 * (last + 10800) ≤ 10900000))
check_dormant_source-refused_example =
    check_dormant_source-refused 10800 (λ o. o) agents sources "a" "a" (some "elsewhere") 10900000
      refusal refused_elsewhere

-- The two foreign addresses are of one network.
abbrev one_network : Option String → Option String
one_network none = none
one_network (some a) = if a == "home" then some "home" else some "abroad"

check_dormant_source-ended_example :
    (check_dormant_source 10800 one_network
        (mark_send agents "a" 100)
        sources
        "a"
        "a"
        (some "elsewhere")
        10899999
      ≡ none)
    × (check_dormant_source 10800 one_network agents
          (record_source sources "a" (some "elsewhere") 100)
          "a"
          "a"
          (some "nearby")
          99000000
        ≡ none)
unfolding exists String-discrete
check_dormant_source-ended_example =
    check_dormant_source-ended 10800 one_network agents sources "a" "a" (some "elsewhere") 100
      99000000 10899999 "elsewhere" (some "nearby") refl (omega arith) refl refl
