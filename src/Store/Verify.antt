-- ===== src/Store/Verify.antt =====
-- packages/store/src/verify.ts: verification against the approved key, and the window of nonces.
-- The decoding of base64url and the Ed25519 check are the runtime's: they are arguments, and a check
-- that throws is `none`.
pub mod Window
pub mod Approved
mod Tests
use agent_mesh_platform.Store.Keys.{status_eq, KeyStore, NoKeyReason, approved_key, no_key_reason}
use agent_mesh_platform.Base.Map.{get, put, keep}
use agent_mesh_platform.Base.{
  ltb, if◌then◌else◌, ◌==◌, string_eq, nat_eq, length, get_or, is_some, ℕ, ◌+◌, String, Bool, true,
  false, not, Option, none, some, List, [], ◌∷◌,
}

pub record Crypto : Type 0 where
  pub from_base64url : String → List ℕ
  pub node_verify : List ℕ → String → List ℕ → Option Bool

-- A throw is caught and reads as a signature that does not verify.
unfoldable pub verify_signature : Crypto → String → List ℕ → String → Bool
verify_signature c public_key preimage signature =
    let sig = c.from_base64url signature in
    if not (length sig == 64) then false else get_or (c.node_verify preimage public_key sig) false

pub data VerifyOutcome : Type 0 where
  verified : (fingerprint : String) → VerifyOutcome
  no_approved_key : (key_status : Option NoKeyReason) → VerifyOutcome
  wrong_key : VerifyOutcome
  bad_signature : VerifyOutcome

unfoldable pub verify_for_identity :
    Crypto → KeyStore → String → String → List ℕ → String → VerifyOutcome
verify_for_identity c db identity kid preimage signature = elim (approved_key db identity) [
  | none ↦ no_approved_key (no_key_reason db identity)
  | some key ↦
      if not (key.fingerprint == kid)
      then wrong_key
      else if not (verify_signature c key.public_key preimage signature)
      then bad_signature
      else verified key.fingerprint
]

-- `Map<string, Map<string, number>>`: for each identity its nonces, with their `iat`.
pub record NonceWindow : Type 0 where
  pub window_seconds : ℕ
  pub seen : List (String × List (String × ℕ))

claim_in : NonceWindow → String → String → ℕ → Option (List (String × ℕ)) → NonceWindow × Bool
claim_in w identity nonce now none =
    (record w { seen = put identity ((nonce, now) ∷ []) w.seen }, true)
claim_in w identity nonce now (some for_identity) =
    if is_some (get nonce for_identity)
    then (w, false)
    else (record w { seen = put identity (put nonce now for_identity) w.seen }, true)

unfoldable pub claim : NonceWindow → String → String → ℕ → NonceWindow × Bool
unfolding claim_in
claim w identity nonce now = claim_in w identity nonce now (get identity w.seen)

-- `at < cutoff`, with `cutoff = now - windowSeconds` among the integers.
abbrev pub is_fresh : ℕ → ℕ → ℕ → Bool
is_fresh window now at = not (ltb (at + window) now)

sweep_entries : ℕ → ℕ → List (String × List (String × ℕ)) → List (String × List (String × ℕ))
sweep_entries window now [] = []
sweep_entries window now ((identity, nonces) ∷ rest) =
    let left = keep (λ _ at. is_fresh window now at) nonces in
    let swept = sweep_entries window now rest in
    if length left == 0 then swept else (identity, left) ∷ swept

unfoldable pub sweep : NonceWindow → ℕ → NonceWindow
unfolding sweep_entries
sweep w now = record w { seen = sweep_entries w.window_seconds now w.seen }

pub identity_count : NonceWindow → ℕ
identity_count w = length w.seen

total : List (String × List (String × ℕ)) → ℕ
total [] = 0
total ((_, nonces) ∷ rest) = length nonces + total rest

pub size : NonceWindow → ℕ
unfolding total
size w = total w.seen
