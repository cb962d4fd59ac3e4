-- ===== src/Store/Teardown/Tests.antt =====
-- Runs of the theorems on one identity with a key.
use agent_mesh_platform.Store.Teardown.Closure.{teardown_identity_lem, teardown_identity-may_proxy}
use agent_mesh_platform.Store.Teardown.{soft_deleted, AgentsDb, teardown_identity}
use agent_mesh_platform.Store.Entitlement.{entitled, may_proxy}
use agent_mesh_platform.Store.Keys.{Status, Key, key_by_status, approved_key, pending_key, Ids}
use agent_mesh_platform.Store.Agents.{Agent}
use agent_mesh_platform.Base.{
  String-discrete, distinct, first, String, ◌≡◌, refl, ◌≢◌, none, some, [], ◌∷◌,
}

abbrev lane : Agent
lane = record {
  identity = "a";
  type = none;
  description = none;
  last_seen = none;
  created_at = 1;
  deleted_at = none;
  can_proxy = 0;
  tenant = "default";
  last_send_at = none;
}

abbrev signer : Key
signer = record {
  fingerprint = "key-1";
  identity = "a";
  public_key = "key-1";
  status = Status.approved;
  proposed_at = 1;
  decided_at = some 2;
  decided_by = some "root";
}

abbrev before : AgentsDb
before = record { agents = lane ∷ []; key_store = record { keys = signer ∷ []; events = [] } }

abbrev ids : Ids
ids _ = "event"

teardown_identity_example :
    let (db', answer) = teardown_identity before "a" "root" 9 ids in
    let gone : String = "a" in
    (answer.action ≡ soft_deleted)
    × (answer.deleted_at ≡ some 9)
    × (approved_key db'.key_store "a" ≡ none)
    × (pending_key db'.key_store "a" ≡ none)
    × (gone ≢ "b"
        → key_by_status db'.key_store "b" Status.approved
          ≡ key_by_status before.key_store "b" Status.approved)
unfolding first String-discrete
teardown_identity_example =
    teardown_identity_lem before "a" "root" "b" 9 ids lane Status.approved refl refl

teardown_identity-may_proxy_example :
    may_proxy (teardown_identity before "a" "root" 9 ids).0.agents [] "web" "a" ≢ entitled
unfolding first String-discrete
teardown_identity-may_proxy_example =
    teardown_identity-may_proxy before [] "a" "root" "web" 9 ids lane refl (distinct "web" "a" refl)
