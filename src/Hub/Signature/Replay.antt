-- ===== src/Hub/Signature/Replay.antt =====
-- What an accepted request proves, and that it is accepted once.
use agent_mesh_platform.Hub.RawParams.{Text}
use agent_mesh_platform.Hub.Signature.{
  Unknown, text, whole, other, SignatureEnvelope, stale, replayed_nonce, accepted, refused, Outside,
  AgentsDb, requires_key, Signed, read_names, read_envelope, is_stale, verdict_of, signed_params,
  check_signature, verify_request_inner,
}
use agent_mesh_platform.Store.Verify.Approved.{verify_for_identity_iff}
use agent_mesh_platform.Store.Verify.{
  verify_signature, VerifyOutcome, verified, no_approved_key, bad_signature, NonceWindow, claim,
}
use agent_mesh_platform.Store.Keys.{Key, approved_key}
use agent_mesh_platform.Base.{
  if◌then◌else◌, Bool-cases, Option-cases, ℕ, String, ◌≡◌, refl, sym, ap, ◌∙◌, ◌↔◌, inl, inr, Bool,
  true, false, not, Option, none, some, arith,
}

verdict_signed :
    (o : VerifyOutcome) → verdict_of o ≡ accepted true → (f : String) × (o ≡ verified f)
unfolding verdict_of
verdict_signed (verified f) h = (f, refl)
verdict_signed (no_approved_key s) h = absurd (ground arith)
verdict_signed VerifyOutcome.wrong_key h = absurd (ground arith)
verdict_signed bad_signature h = absurd (ground arith)

verdict_always :
    (o : VerifyOutcome) (signed : Bool) → verdict_of o ≡ accepted signed → signed ≡ true
unfolding verdict_of
verdict_always (verified f) signed h = ground arith
verdict_always (no_approved_key s) signed h = absurd (ground arith)
verdict_always VerifyOutcome.wrong_key signed h = absurd (ground arith)
verdict_always bad_signature signed h = absurd (ground arith)

inner_verdict :
    (out : Outside) (db : AgentsDb) (w : NonceWindow) (now : ℕ) (identity method : String)
    (raw : Text) (sig : SignatureEnvelope) (s : Signed)
    → read_envelope sig ≡ some s
    → (verify_request_inner out db w now identity method (some sig) raw).1 ≡ (
        if is_stale w.window_seconds now s.iat
        then refused stale none
        else if not (claim w identity s.nonce s.iat).1
        then refused replayed_nonce none
        else check_signature out db identity method s raw)
unfolding verify_request_inner
inner_verdict out db w now identity method raw sig s e =
    rw (e, verify_request_inner)
      (elim (Bool-cases (is_stale w.window_seconds now s.iat)) [
        | inl old ↦ rw old refl
        | inr young ↦ rw young refl
      ])

check_signature-signed :
    (out : Outside) (db : AgentsDb) (identity method : String) (raw : Text) (s : Signed)
    → check_signature out db identity method s raw ≡ accepted true
    → (k : Key) × (approved_key db.key_store identity ≡ some k)
      × (k.fingerprint ≡ s.kid)
      × (verify_signature out.crypto k.public_key
            (out.preimage method s.kid s.nonce s.iat (signed_params out raw))
            s.value
          ≡ true)
check_signature-signed out db identity method raw s h =
    let (f, e) = verdict_signed _ h in
    ((verify_for_identity_iff out.crypto db.key_store identity s.kid s.value f
        (out.preimage method s.kid s.nonce s.iat (signed_params out raw))).0
      e).1

read_names_lem :
    (kid nonce iat value : Unknown) (s : Signed)
    → read_names kid nonce iat value ≡ some s
    → (kid ≡ text s.kid) × (nonce ≡ text s.nonce) × (iat ≡ whole s.iat) × (value ≡ text s.value)
read_names_lem (text k) (text n) (whole i) (text v) s h = ground arith
read_names_lem (text k) (text n) (whole i) (whole v) s h = absurd (ground arith)
read_names_lem (text k) (text n) (whole i) other s h = absurd (ground arith)
read_names_lem (text k) (text n) (text i) value s h = absurd (ground arith)
read_names_lem (text k) (text n) other value s h = absurd (ground arith)
read_names_lem (text k) (whole n) iat value s h = absurd (ground arith)
read_names_lem (text k) other iat value s h = absurd (ground arith)
read_names_lem (whole k) nonce iat value s h = absurd (ground arith)
read_names_lem other nonce iat value s h = absurd (ground arith)

-- The envelope's members are what a signature must have.
read_envelope_lem :
    (sig : SignatureEnvelope) (s : Signed)
    → read_envelope sig ≡ some s
    → (sig.alg ≡ text "ed25519")
      × (sig.kid ≡ text s.kid)
      × (sig.nonce ≡ text s.nonce)
      × (sig.iat ≡ whole s.iat)
      × (sig.value ≡ text s.value)
unfolding read_envelope
read_envelope_lem sig s h = ground (arith, read_names_lem sig.kid sig.nonce sig.iat sig.value s)

-- What an accepted signature shows: its envelope is well formed, its time and its nonce are good, and
-- it is the approved key's over the request.
pub record IsSigned (out : Outside) (db : AgentsDb) (w : NonceWindow) (now : ℕ)
    (identity method : String) (raw : Text) (sig : SignatureEnvelope) : Type 0 where
  pub s : Signed
  pub key : Key
  pub alg : sig.alg ≡ text "ed25519"
  pub kid : sig.kid ≡ text s.kid
  pub nonce : sig.nonce ≡ text s.nonce
  pub iat : sig.iat ≡ whole s.iat
  pub value : sig.value ≡ text s.value
  pub in_window : is_stale w.window_seconds now s.iat ≡ false
  pub fresh : (claim w identity s.nonce s.iat).1 ≡ true
  pub approved : approved_key db.key_store identity ≡ some key
  pub named : key.fingerprint ≡ s.kid
  pub verifies :
      verify_signature out.crypto key.public_key
        (out.preimage method s.kid s.nonce s.iat (signed_params out raw))
        s.value
      ≡ true

inner_signed :
    (out : Outside) (db : AgentsDb) (w : NonceWindow) (now : ℕ) (identity method : String)
    (raw : Text) (sig : SignatureEnvelope) (s : Signed) (signed : Bool)
    → read_envelope sig ≡ some s
    → (verify_request_inner out db w now identity method (some sig) raw).1 ≡ accepted signed
    → (signed ≡ true) × IsSigned out db w now identity method raw sig
inner_signed out db w now identity method raw sig s signed e h =
    let shape = sym (inner_verdict out db w now identity method raw sig s e) ∙ h in
    let is : check_signature out db identity method s raw ≡ accepted signed = ground arith in
    let always = verdict_always _ signed is in
    let (k, approved, named, verifies) =
      check_signature-signed out db identity method raw s (is ∙ ap accepted always) in
    let (a, b, c, d, f) = read_envelope_lem sig s e in
    (
      always,
      record {
        s = s;
        key = k;
        alg = a;
        kid = b;
        nonce = c;
        iat = d;
        value = f;
        in_window = ground arith;
        fresh = ground arith;
        approved = approved;
        named = named;
        verifies = verifies;
      },
    )

-- The cases of an accepted request.
abbrev pub IsAccepted :
    Outside
    → AgentsDb
    → NonceWindow
    → ℕ
    → String
    → String
    → Text
    → Option SignatureEnvelope
    → Bool
    → Type 0
IsAccepted out db w now identity method raw none signed =
    (signed ≡ false) × (requires_key db identity ≡ false)
IsAccepted out db w now identity method raw (some sig) signed =
    (signed ≡ true) × IsSigned out db w now identity method raw sig

-- Whatever a request brings, if it is accepted: either it has no signature, is not counted as signed
-- and comes from an identity whose type asks for no key; or it is counted as signed, its envelope has
-- the one algorithm and a text or whole number in each member, its `iat` is inside the window and its
-- nonce new, its `kid` is the fingerprint of the identity's approved key, and the signature verifies
-- under that key over this method, kid, nonce, iat and the `params` as they arrived.
pub verify_request-signed :
    (out : Outside) (db : AgentsDb) (w : NonceWindow) (now : ℕ) (identity method : String)
    (raw : Text) (sig : Option SignatureEnvelope) (signed : Bool)
    → (verify_request_inner out db w now identity method sig raw).1 ≡ accepted signed
    → IsAccepted out db w now identity method raw sig signed
unfolding verify_request_inner
verify_request-signed out db w now identity method raw none signed h = ground arith
verify_request-signed out db w now identity method raw (some sig) signed h =
    elim (Option-cases (read_envelope sig)) [
      | inl e ↦ absurd (ground arith)
      | inr (s, e) ↦ inner_signed out db w now identity method raw sig s signed e h
    ]

-- A request without a signature is accepted exactly from an identity whose type asks for no key.
pub verify_request-unsigned :
    (out : Outside) (db : AgentsDb) (w : NonceWindow) (now : ℕ) (identity method : String)
    (raw : Text)
    → ((verify_request_inner out db w now identity method none raw).1 ≡ accepted false)
      ↔ (requires_key db identity ≡ false)
unfolding verify_request_inner
verify_request-unsigned out db w now identity method raw = (λ h. ground arith, λ h. ground arith)
