-- ===== src/Store/Pairing/Tests.antt =====
-- Runs of the theorems on one code.
use agent_mesh_platform.Store.Pairing.Codes.{redeem_once}
use agent_mesh_platform.Store.Pairing.Owners.{}
use agent_mesh_platform.Store.Pairing.{
  PairingCode, Tables, already_redeemed, redeemed, failed, redeem, is_owner,
}
use agent_mesh_platform.Store.Agents.{}
use agent_mesh_platform.Base.{String-discrete, first, ◌≡◌, refl, true, none, [], ◌∷◌, arith}

abbrev live : PairingCode
live = record {
  code = "ABCD";
  tenant = "default";
  identity = "lane";
  issued_by = "kim";
  issued_at = 1;
  expires_at = 600;
  redeemed_at = none;
  redeemed_from = none;
}

abbrev db : Tables
db = record { agent_owners = []; pairing_codes = live ∷ [] }

redeem_once_example :
    let (db', outcome) = redeem (λ s. s) db "ABCD" "kim" none 10 in
    (outcome ≡ redeemed "lane" "kim")
    × (is_owner db' "kim" "lane" "default" ≡ true)
    × (redeem (λ s. s) db' "ABCD" "lee" none 20 ≡ (db', failed already_redeemed))
unfolding first String-discrete
redeem_once_example =
    redeem_once (λ s. s) db "ABCD" "kim" "lee" none none 10 20 live refl refl (omega arith)
      (omega arith)
