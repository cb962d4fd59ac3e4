-- ===== src/Hub/Signature/Tests.antt =====
-- Runs of the theorems on one signed request.
use agent_mesh_platform.Hub.Signature.Replay.{IsAccepted, verify_request-signed}
use agent_mesh_platform.Hub.RawParams.{
  Text, is_space, skip_body, skip_string, ends_literal, skip_literal, skip_value, skip_spaces,
  same_text, params_key, after_key, scan, raw_params,
}
use agent_mesh_platform.Hub.Signature.{
  text, whole, SignatureEnvelope, Outside, AgentsDb, Signed, read_envelope, verdict_of,
  verify_request_inner,
}
use agent_mesh_platform.Store.Verify.{verify_signature, verify_for_identity, NonceWindow, claim}
use agent_mesh_platform.Store.Keys.{Status, Status-discrete, status_eq, Key, approved_key}
use agent_mesh_platform.Store.Agents.{}
use agent_mesh_platform.Base.Map.{get}
use agent_mesh_platform.Base.{
  String-discrete, string_eq, nat_eq, first, ℕ, zero, suc, refl, true, some, List, [], ◌∷◌, ◌++◌,
  ℕ_discrete,
}

abbrev repeat : ℕ → List ℕ
repeat zero = []
repeat (suc n) = 0 ∷ repeat n

-- A check that every signature of 64 bytes passes.
abbrev outside : Outside
outside = record {
  crypto = record { from_base64url = λ s. repeat 64; node_verify = λ m k s. some true };
  preimage = λ method kid nonce iat bytes. bytes;
  encode = λ t. t;
}

abbrev signer : Key
signer = record {
  fingerprint = "key-1";
  identity = "a";
  public_key = "key-1";
  status = Status.approved;
  proposed_at = 1;
  decided_at = some 2;
  decided_by = some "root";
}

abbrev db : AgentsDb
db = record { agents = []; types = []; key_store = record { keys = signer ∷ []; events = [] } }

abbrev window : NonceWindow
window = record { window_seconds = 120; seen = [] }

abbrev envelope : SignatureEnvelope
envelope = record {
  alg = text "ed25519";
  kid = text "key-1";
  nonce = text "n";
  iat = whole 1000;
  value = text "signature";
}

-- `{"params":7}`.
abbrev request : Text
request = b'{' ∷ (params_key ++ b':' ∷ b'7' ∷ b'}' ∷ [])

abbrev members : Signed
members = record { kid = "key-1"; nonce = "n"; iat = 1000; value = "signature" }

verify_request-signed_example :
    IsAccepted outside db window 1010 "a" "mesh.send" request (some envelope) true
unfolding read_envelope verify_request_inner raw_params scan skip_string skip_body same_text
    skip_spaces is_space after_key skip_value skip_literal ends_literal String-discrete claim get
    verify_for_identity verify_signature approved_key first verdict_of Status-discrete ℕ_discrete
verify_request-signed_example =
    verify_request-signed outside db window 1010 "a" "mesh.send" request (some envelope) true refl
