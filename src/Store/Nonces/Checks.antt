-- ===== src/Store/Nonces/Checks.antt =====
-- What a grant authorises.
use agent_mesh_platform.Store.Nonces.{UploadGrant, is_nonce, issue_grant, holds_for, check_grant}
use agent_mesh_platform.Base.RowLaws.{first-append}
use agent_mesh_platform.Base.{
  Bool-cases, first, exists, ℕ, ◌+◌, ◌≤◌, String, ◌≡◌, ◌↔◌, inl, inr, some, List, [], ◌∷◌, arith,
}

-- What an insert leaves.
issued :
    (db db' : List UploadGrant) (nonce identity blob_key sha256 : String) (size ttl now : ℕ)
    (g : UploadGrant)
    → issue_grant db nonce identity blob_key sha256 size ttl now ≡ some (db', g)
    → (first (is_nonce nonce) db' ≡ some g)
      × (g.expires_at ≡ now + ttl)
      × (g.identity ≡ identity)
      × (g.blob_key ≡ blob_key)
      × (g.size ≡ size)
unfolding issue_grant first
issued db db' nonce identity blob_key sha256 size ttl now g h =
    elim (Bool-cases (exists (is_nonce nonce) db)) [
      | inl taken ↦ absurd (ground arith)
      | inr new ↦ ground (arith, first-append (is_nonce nonce) db (g ∷ []))
    ]

-- A grant that was issued authorises this identity's upload of this many bytes to this key until it
-- expires, as often as it is asked, and nothing else: not after that, not for another identity, another
-- key or another size.
pub check_grant-issue_grant :
    (db db' : List UploadGrant) (nonce identity blob_key sha256 i k : String)
    (size n ttl now later : ℕ) (g : UploadGrant)
    → issue_grant db nonce identity blob_key sha256 size ttl now ≡ some (db', g)
    → (check_grant db' nonce i k n later ≡ holds_for g)
      ↔ ((later ≤ now + ttl) × (i ≡ identity) × (k ≡ blob_key) × (n ≡ size))
unfolding check_grant
check_grant-issue_grant db db' nonce identity blob_key sha256 i k size n ttl now later g h =
    let (found, until, whose, which, bytes) =
      issued db db' nonce identity blob_key sha256 size ttl now g h in
    (λ e. ground arith, λ e. ground arith)
