-- ===== src/Store/Nonces.antt =====
-- packages/store/src/nonces.ts: the grants for uploads. The nonce is the runtime's `randomUUID`, and the
-- life of a grant is the contracts package's `UPLOAD_NONCE_TTL_SECONDS`: both are arguments.
pub mod Checks
mod Tests
use agent_mesh_platform.Base.{
  ltb, if◌then◌else◌, ◌==◌, string_eq, nat_eq, first, exists, delete, count, ℕ, ◌+◌, String, Bool,
  not, Option, none, some, List, [], ◌∷◌, ◌++◌,
}

pub record UploadGrant : Type 0 where
  pub nonce : String
  pub identity : String
  pub blob_key : String
  pub size : ℕ
  pub sha256 : String
  pub expires_at : ℕ

abbrev pub is_nonce : String → UploadGrant → Bool
is_nonce nonce g = g.nonce == nonce

-- The insert throws where the nonce is taken, which is `none`.
unfoldable pub issue_grant :
    List UploadGrant
    → String
    → String
    → String
    → String
    → ℕ
    → ℕ
    → ℕ
    → Option (List UploadGrant × UploadGrant)
issue_grant db nonce identity blob_key sha256 size ttl now =
    let row : UploadGrant = record {
      nonce = nonce;
      identity = identity;
      blob_key = blob_key;
      size = size;
      sha256 = sha256;
      expires_at = now + ttl;
    } in
    if exists (is_nonce nonce) db then none else some (db ++ row ∷ [], row)

pub data GrantRefusal : Type 0 where
  unknown expired wrong_identity wrong_blob wrong_size : GrantRefusal

pub data GrantCheck : Type 0 where
  holds_for : UploadGrant → GrantCheck
  refused : GrantRefusal → GrantCheck

unfoldable pub check_grant : List UploadGrant → String → String → String → ℕ → ℕ → GrantCheck
check_grant db nonce identity blob_key size now = elim (first (is_nonce nonce) db) [
  | none ↦ refused unknown
  | some row ↦
      if ltb row.expires_at now
      then refused expired
      else if not (row.identity == identity)
      then refused wrong_identity
      else if not (row.blob_key == blob_key)
      then refused wrong_blob
      else if not (row.size == size)
      then refused wrong_size
      else holds_for row
]

-- The rows that are left, and `changes`.
unfoldable pub sweep_expired : List UploadGrant → ℕ → List UploadGrant × ℕ
sweep_expired db now = (delete (λ g. ltb g.expires_at now) db, count (λ g. ltb g.expires_at now) db)
