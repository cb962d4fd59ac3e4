-- ===== src/Store/Verify/Tests.antt =====
-- Runs of the theorems with a check that every signature of the right length passes.
use agent_mesh_platform.Store.Verify.Window.{claims, sweeps, acts, claim_once}
use agent_mesh_platform.Store.Verify.Approved.{verify_for_identity_iff, revoke_key-unverified}
use agent_mesh_platform.Store.Verify.{
  Crypto, verify_signature, verified, verify_for_identity, NonceWindow, claim,
}
use agent_mesh_platform.Store.Keys.{
  Status, Action, Status-discrete, status_eq, Key, KeyStore, key_by_fingerprint, approved_key,
  append_event, set_status, Ids, require_key, revoke_key,
}
use agent_mesh_platform.Base.Map.{get}
use agent_mesh_platform.Base.{
  String-discrete, string_eq, nat_eq, first, exists, ok, String, ◌≡◌, refl, ◌≢◌, ◌↔◌, true, false,
  some, [], ◌∷◌, arith,
}

abbrev lenient : Crypto
lenient = record { from_base64url = λ s. 0 ∷ []; node_verify = λ m k s. some true }

abbrev signer : Key
signer = record {
  fingerprint = "key-1";
  identity = "a";
  public_key = "key-1";
  status = Status.approved;
  proposed_at = 1;
  decided_at = some 2;
  decided_by = some "root";
}

abbrev one_signer : KeyStore
one_signer = record { keys = signer ∷ []; events = [] }

abbrev ids : Ids
ids _ = "event"

abbrev window : NonceWindow
window = record { window_seconds = 120; seen = [] }

claim_once_example :
    (claim
      (acts (claim window "a" "n" 1000).0 (claims "b" "n" 1001 ∷ sweeps 1100 ∷ []))
      "a"
      "n"
      1000).1
    ≡ false
unfolding claim get
claim_once_example =
    claim_once window "a" "n" 1000 1000 (claims "b" "n" 1001 ∷ sweeps 1100 ∷ [])
      (record { outer = tt; inner = tt }) refl (tt, (omega arith, tt))

verify_for_identity_example :
    let f : String = "key-1" in
    (verify_for_identity lenient one_signer "a" f [] "sig" ≡ verified f) ↔ (
      (f ≡ f)
      × ((k : Key) × (approved_key one_signer "a" ≡ some k)
          × (k.fingerprint ≡ "key-1")
          × (verify_signature lenient k.public_key [] "sig" ≡ true)))
verify_for_identity_example =
    verify_for_identity_iff lenient one_signer "a" "key-1" "sig" "key-1" []

abbrev after : KeyStore
after =
    append_event (set_status Status.revoked "root" 9 "key-1" one_signer) "event" "a" "key-1"
      Action.revoked (some "lost") "root" 9

revoked_now :
    revoke_key one_signer "key-1" "root" "lost" 9 ids ≡ ok (after, key_by_fingerprint after "key-1")
unfolding revoke_key require_key key_by_fingerprint exists first String-discrete Status-discrete
revoked_now = refl

revoke_key-unverified_example :
    verify_for_identity lenient after "a" "key-1" [] "sig" ≢ verified "key-1"
revoke_key-unverified_example =
    revoke_key-unverified lenient one_signer after "key-1" "root" "lost" "a" "sig" "key-1" 9 ids
      (key_by_fingerprint after "key-1") [] revoked_now
