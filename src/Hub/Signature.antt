-- ===== src/Hub/Signature.antt =====
-- packages/hub/src/signature.ts: the check of the signature on one request. A time is a number of
-- seconds from an origin that lies before every `iat`. What an envelope's members may be besides a text
-- and a whole number is `other`. The preimage is the contracts package's, and the encoder of texts is
-- the runtime's: arguments. A request's text is the list of its UTF-16 units.
pub mod Replay
mod Tests
use agent_mesh_platform.Store.Verify.{
  Crypto, VerifyOutcome, verified, no_approved_key, bad_signature, verify_for_identity, NonceWindow,
  claim,
}
use agent_mesh_platform.Store.Keys.{status_eq, KeyStore, NoKeyReason}
use agent_mesh_platform.Store.Agents.{Agent, AgentType, is_identity, get_type}
use agent_mesh_platform.Hub.RawParams.{Text, raw_params}
use agent_mesh_platform.Hub.Refusals.{signature, CounterKey, key_eq, record_refusal}
use agent_mesh_platform.Base.{
  ltb, if◌then◌else◌, ◌==◌, string_eq, nat_eq, first, get_or, ℕ, ◌-◌, max, String, Bool, true,
  false, not, Option, none, some, List, [], ◌∷◌,
}

pub data Unknown : Type 0 where
  text : String → Unknown
  whole : ℕ → Unknown
  other : Unknown

pub record SignatureEnvelope : Type 0 where
  pub alg : Unknown
  pub kid : Unknown
  pub nonce : Unknown
  pub iat : Unknown
  pub value : Unknown

pub data SignatureRefusal : Type 0 where
  unsigned malformed stale replayed_nonce key_not_approved wrong_key invalid : SignatureRefusal

pub data SignatureVerdict : Type 0 where
  accepted : (signed : Bool) → SignatureVerdict
  refused : (reason : SignatureRefusal) (key_status : Option NoKeyReason) → SignatureVerdict

-- What the check takes from outside of it: the platform's cryptography, the contracts' preimage over
-- method, kid, nonce, iat and the bytes of the `params`, and the runtime's encoder.
pub record Outside : Type 0 where
  pub crypto : Crypto
  pub preimage : String → String → String → ℕ → List ℕ → List ℕ
  pub encode : Text → List ℕ

-- The tables that it reads.
pub record AgentsDb : Type 0 where
  pub agents : List Agent
  pub types : List AgentType
  pub key_store : KeyStore

-- A null and an empty type ask for no key, and so does one that is not registered.
abbrev type_requires : List AgentType → Option String → Bool
type_requires types none = false
type_requires types (some type) =
    if type == ""
    then false
    else elim (get_type types type) [ none ↦ false | some t ↦ t.requires_key == 1 ]

unfoldable pub requires_key : AgentsDb → String → Bool
requires_key db identity = elim (first (is_identity identity) db.agents) [
  | none ↦ false
  | some agent ↦ type_requires db.types agent.type
]

-- The members of an envelope that is well formed: kid, nonce, iat and value.
pub record Signed : Type 0 where
  pub kid : String
  pub nonce : String
  pub iat : ℕ
  pub value : String

abbrev pub read_iat : String → String → Unknown → Unknown → Option Signed
read_iat kid nonce (whole iat) (text value) =
    some (record { kid = kid; nonce = nonce; iat = iat; value = value })
read_iat kid nonce (whole iat) (whole _) = none
read_iat kid nonce (whole iat) other = none
read_iat kid nonce (text _) value = none
read_iat kid nonce other value = none

abbrev pub read_names : Unknown → Unknown → Unknown → Unknown → Option Signed
read_names (text kid) (text nonce) iat value = read_iat kid nonce iat value
read_names (text kid) (whole _) iat value = none
read_names (text kid) other iat value = none
read_names (whole _) nonce iat value = none
read_names other nonce iat value = none

unfoldable pub read_envelope : SignatureEnvelope → Option Signed
read_envelope sig = elim sig.alg [
  | text alg ↦ if alg == "ed25519" then read_names sig.kid sig.nonce sig.iat sig.value else none
  | whole _ ↦ none
  | other ↦ none
]

-- `Math.abs(now - iat) > SIGNATURE_FRESHNESS_WINDOW_SECONDS`.
abbrev pub is_stale : ℕ → ℕ → ℕ → Bool
is_stale window now iat = ltb window (max (now - iat) (iat - now))

pub verdict_of : VerifyOutcome → SignatureVerdict
verdict_of (verified _) = accepted true
verdict_of (no_approved_key key_status) = refused key_not_approved key_status
verdict_of VerifyOutcome.wrong_key = refused SignatureRefusal.wrong_key none
verdict_of bad_signature = refused invalid none

-- `new TextEncoder().encode(rawParams(raw) ?? "{}")`.
abbrev pub signed_params : Outside → Text → List ℕ
signed_params out raw = out.encode (get_or (raw_params raw) (b'{' ∷ b'}' ∷ []))

abbrev pub check_signature : Outside → AgentsDb → String → String → Signed → Text → SignatureVerdict
check_signature out db identity method s raw = verdict_of (
    verify_for_identity out.crypto db.key_store identity s.kid
      (out.preimage method s.kid s.nonce s.iat (signed_params out raw)) s.value)

unfoldable pub verify_request_inner :
    Outside
    → AgentsDb
    → NonceWindow
    → ℕ
    → String
    → String
    → Option SignatureEnvelope
    → Text
    → NonceWindow × SignatureVerdict
verify_request_inner out db nonces now identity method none raw =
    (nonces, if requires_key db identity then refused unsigned none else accepted false)
verify_request_inner out db nonces now identity method (some sig) raw = elim (read_envelope sig) [
  | none ↦ (nonces, refused malformed none)
  | some s ↦
      if is_stale nonces.window_seconds now s.iat
      then (nonces, refused stale none)
      else let (claimed, fresh) = claim nonces identity s.nonce s.iat in
        (
          claimed,
          if not fresh
              then refused replayed_nonce none
              else check_signature out db identity method s raw,
        )
]

abbrev pub reason_name : SignatureRefusal → String
reason_name unsigned = "unsigned"
reason_name malformed = "malformed"
reason_name stale = "stale"
reason_name replayed_nonce = "replayed-nonce"
reason_name key_not_approved = "key-not-approved"
reason_name SignatureRefusal.wrong_key = "wrong-key"
reason_name invalid = "invalid"

abbrev pub counted : List (CounterKey × ℕ) → SignatureVerdict → List (CounterKey × ℕ)
counted counts (accepted _) = counts
counted counts (refused reason _) = record_refusal counts signature (reason_name reason)

-- The window and the counters after the request, and the verdict.
pub verify_request :
    Outside
    → AgentsDb
    → NonceWindow
    → List (CounterKey × ℕ)
    → ℕ
    → String
    → String
    → Option SignatureEnvelope
    → Text
    → NonceWindow × (List (CounterKey × ℕ) × SignatureVerdict)
verify_request out db nonces counts now identity method sig raw =
    let (nonces', verdict) = verify_request_inner out db nonces now identity method sig raw in
    (nonces', (counted counts verdict, verdict))
