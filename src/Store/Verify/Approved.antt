-- ===== src/Store/Verify/Approved.antt =====
-- Only the approved key signs, and a revocation takes effect at once.
use agent_mesh_platform.Store.Verify.{Crypto, verify_signature, verified, verify_for_identity}
use agent_mesh_platform.Store.Keys.Approval.{revoke_key-not_approved}
use agent_mesh_platform.Store.Keys.History.{}
use agent_mesh_platform.Store.Keys.{Key, KeyStore, approved_key, Ids, revoke_key}
use agent_mesh_platform.Base.{
  Option-cases, ok, ℕ, String, ◌≡◌, ◌≢◌, ◌↔◌, inl, inr, true, Option, some, List, arith,
}

-- A request verifies exactly if its identity has an approved key, the request names that key, and
-- the signature verifies under it; the fingerprint that is answered is the named one.
pub verify_for_identity_iff :
    (c : Crypto) (db : KeyStore) (identity kid signature f : String) (preimage : List ℕ)
    → (verify_for_identity c db identity kid preimage signature ≡ verified f) ↔ (
        (kid ≡ f)
        × ((k : Key) × (approved_key db identity ≡ some k)
            × (k.fingerprint ≡ kid)
            × (verify_signature c k.public_key preimage signature ≡ true)))
unfolding verify_for_identity
verify_for_identity_iff c db identity kid signature f preimage =
    elim (Option-cases (approved_key db identity)) [
      | inl e ↦ (λ h. ground arith, λ h. ground arith)
      | inr (k, e) ↦ (λ h. (ground arith, (k, e, ground arith, ground arith)), λ h. ground arith)
    ]

-- After a revocation no request that names the revoked key verifies, whichever identity it speaks
-- for, whatever it signs.
pub revoke_key-unverified :
    (c : Crypto) (db db' : KeyStore) (f actor reason identity signature g : String) (now : ℕ)
    (ids : Ids) (row : Option Key) (preimage : List ℕ)
    → revoke_key db f actor reason now ids ≡ ok (db', row)
    → verify_for_identity c db' identity f preimage signature ≢ verified g
revoke_key-unverified c db db' f actor reason identity signature g now ids row preimage r h =
    let (_, (k, e, named, _)) =
      (verify_for_identity_iff c db' identity f signature g preimage).0 h in
    revoke_key-not_approved db db' f actor reason identity now ids row k r e named
