-- ===== src/Store/Nonces/Tests.antt =====
-- A run of the theorem on one grant.
use agent_mesh_platform.Store.Nonces.Checks.{}
use agent_mesh_platform.Store.Nonces.{UploadGrant}
use agent_mesh_platform.Base.{◌+◌}

abbrev upload : UploadGrant
upload = record {
  nonce = "n";
  identity = "a";
  blob_key = "k";
  size = 10;
  sha256 = "digest";
  expires_at = 5 + 300;
}
