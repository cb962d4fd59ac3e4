-- ===== src/Store/Keys.antt =====
-- packages/store/src/keys.ts: the life of a signing key, over the tables `agent_keys` and
-- `agent_key_events`. The fingerprint of a public key is the contracts package's `keyFingerprint`, and
-- the ids of events are the runtime's `randomUUID`: both are arguments.
pub mod Lookup
pub mod Timeline
pub mod Index
pub mod History
pub mod Ruling
pub mod Approval
mod Tests
use agent_mesh_platform.Base.Order.{text_le, order_by}
use agent_mesh_platform.Base.{
  leb, if◌then◌else◌, Eq, ◌==◌, string_eq, nat_eq, select, first, exists, update, delete, Result,
  ok, err, ℕ, suc, String, Bool, true, false, not, ◌&&◌, ◌||◌, Option, none, some, List, [], ◌∷◌,
  ◌++◌,
}

pub data Status : Type 0 where
  pending approved denied revoked : Status

pub data Action : Type 0 where
  proposed approved denied revoked superseded : Action

unfoldable pub Status-discrete : Discrete Status
Status-discrete = hlevel

instance abbrev pub status_eq : Eq Status
status_eq = record { dec = Status-discrete }

pub record Key : Type 0 where
  pub fingerprint : String
  pub identity : String
  pub public_key : String
  pub status : Status
  pub proposed_at : ℕ
  pub decided_at : Option ℕ
  pub decided_by : Option String

pub record Event : Type 0 where
  pub id : String
  pub identity : String
  pub fingerprint : String
  pub action : Action
  pub reason : Option String
  pub actor : String
  pub occurred_at : ℕ

pub record KeyStore : Type 0 where
  pub keys : List Key
  pub events : List Event

pub data NoKeyReason : Type 0 where
  missing pending denied revoked : NoKeyReason

pub data Error : Type 0 where
  key_ownership : String → Error
  not_found : Error
  wrong_state : Status → Error

pub record ProposeResult : Type 0 where
  pub fingerprint : String
  pub status : Status
  pub created : Bool

abbrev pub is_fingerprint : String → Key → Bool
is_fingerprint fingerprint k = k.fingerprint == fingerprint

abbrev pub has_status : String → Status → Key → Bool
has_status identity status k = k.identity == identity && k.status == status

unfoldable pub key_by_fingerprint : KeyStore → String → Option Key
key_by_fingerprint db fingerprint = first (is_fingerprint fingerprint) db.keys

unfoldable pub key_by_status : KeyStore → String → Status → Option Key
key_by_status db identity status = first (has_status identity status) db.keys

unfoldable pub approved_key : KeyStore → String → Option Key
unfolding key_by_status
approved_key db identity = key_by_status db identity Status.approved

unfoldable pub pending_key : KeyStore → String → Option Key
unfolding key_by_status
pending_key db identity = key_by_status db identity Status.pending

pub fingerprint_holder : KeyStore → String → Option String
fingerprint_holder db fingerprint = elim (key_by_fingerprint db fingerprint) [
  | none ↦ none
  | some k ↦ some k.identity
]

unfoldable pub identity_for_fingerprint : KeyStore → String → Option String
identity_for_fingerprint db fingerprint =
    elim (first (λ k. k.fingerprint == fingerprint && k.status == Status.approved) db.keys) [
      | none ↦ none
      | some k ↦ some k.identity
    ]

pub list_keys : KeyStore → String → List Key
list_keys db identity =
    order_by (λ a b. leb b.proposed_at a.proposed_at) (select (λ k. k.identity == identity) db.keys)

pub list_pending_keys : KeyStore → List Key
list_pending_keys db =
    order_by (λ a b. leb a.proposed_at b.proposed_at)
      (select (λ k. k.status == Status.pending) db.keys)

pub list_key_events : KeyStore → String → List Event
list_key_events db identity =
    order_by
      (λ a b.
        if a.occurred_at == b.occurred_at
        then text_le a.id b.id
        else leb a.occurred_at b.occurred_at)
      (select (λ e. e.identity == identity) db.events)

unfoldable pub append_event :
    KeyStore → String → String → String → Action → Option String → String → ℕ → KeyStore
append_event db id identity fingerprint action reason actor now = record db {
  events =
      db.events
      ++ record {
        id = id;
        identity = identity;
        fingerprint = fingerprint;
        action = action;
        reason = reason;
        actor = actor;
        occurred_at = now;
      }
        ∷ [];
}

-- `UPDATE agent_keys SET status = …, decided_at = …, decided_by = … WHERE fingerprint = …`.
unfoldable pub set_status : Status → String → ℕ → String → KeyStore → KeyStore
set_status status actor now fingerprint db = record db {
  keys =
      update (is_fingerprint fingerprint)
        (λ k. record k { status = status; decided_at = some now; decided_by = some actor }) db.keys;
}

-- The ids that one call draws, in order.
abbrev pub Ids : Type 0
Ids = ℕ → String

-- A proposal displaces the one that is pending: its row goes, and the event stays.
unfoldable pub displace : KeyStore → String → String → String → ℕ → Ids → KeyStore
displace db identity fingerprint actor now ids = elim (pending_key db identity) [
  | none ↦ db
  | some old ↦
      append_event (record db { keys = delete (is_fingerprint old.fingerprint) db.keys }) (ids 0)
        identity old.fingerprint Action.superseded (some fingerprint) actor now
]

-- The row of a proposal.
abbrev pub proposal : String → String → String → ℕ → Key
proposal identity public_key fingerprint now = record {
  fingerprint = fingerprint;
  identity = identity;
  public_key = public_key;
  status = Status.pending;
  proposed_at = now;
  decided_at = none;
  decided_by = none;
}

-- The transaction of `proposeKey`, for a key that is not on record.
unfoldable pub insert_proposal : KeyStore → String → String → String → String → ℕ → Ids → KeyStore
insert_proposal db identity public_key fingerprint actor now ids =
    let cleared = displace db identity fingerprint actor now ids in
    append_event
      (record cleared { keys = cleared.keys ++ proposal identity public_key fingerprint now ∷ [] })
      (ids 1) identity fingerprint Action.proposed none actor now

pub propose_key :
    (String → String)
    → KeyStore
    → String
    → String
    → String
    → ℕ
    → Ids
    → Result Error (KeyStore × ProposeResult)
propose_key key_fingerprint db identity public_key actor now ids =
    let fingerprint = key_fingerprint public_key in
    elim (key_by_fingerprint db fingerprint) [
      | some existing ↦
          if not (existing.identity == identity)
          then err (key_ownership fingerprint)
          else ok
              (db, record { fingerprint = fingerprint; status = existing.status; created = false })
      | none ↦ ok (
        insert_proposal db identity public_key fingerprint actor now ids,
        record { fingerprint = fingerprint; status = Status.pending; created = true },
      )
    ]

infixl 5 ◌>>=◌
abbrev ◌>>=◌ {ℓ κ} :
    {A : Type ℓ} {B : Type κ} → Result Error A → (A → Result Error B) → Result Error B
ok a >>= f = f a
err e >>= f = err e

unfoldable pub require_key : KeyStore → String → List Status → Result Error Key
require_key db fingerprint expected = elim (key_by_fingerprint db fingerprint) [
  | none ↦ err not_found
  | some row ↦
      if exists (λ s. s == row.status) expected then ok row else err (wrong_state row.status)
]

-- An approval retires the key that it replaces.
unfoldable pub retire : KeyStore → String → String → ℕ → Ids → KeyStore
retire db identity actor now ids = elim (approved_key db identity) [
  | none ↦ db
  | some incumbent ↦
      append_event (set_status Status.revoked actor now incumbent.fingerprint db) (ids 0) identity
        incumbent.fingerprint Action.revoked (some "rotation") actor now
]

-- The transaction of `approveKey`.
unfoldable pub decide_approval : KeyStore → String → String → String → ℕ → Ids → KeyStore
decide_approval db identity fingerprint actor now ids =
    append_event
      (set_status Status.approved actor now fingerprint (retire db identity actor now ids)) (ids 1)
      identity fingerprint Action.approved none actor now

-- The new state, and the row that a ruling returns.
abbrev pub ruled : KeyStore → String → KeyStore × Option Key
ruled db fingerprint = (db, key_by_fingerprint db fingerprint)

pub approve_key : KeyStore → String → String → ℕ → Ids → Result Error (KeyStore × Option Key)
approve_key db fingerprint actor now ids = do
  row ← require_key db fingerprint (Status.pending ∷ [])
  ok (ruled (decide_approval db row.identity fingerprint actor now ids) fingerprint)

pub deny_key :
    KeyStore → String → String → Option String → ℕ → Ids → Result Error (KeyStore × Option Key)
deny_key db fingerprint actor reason now ids = do
  row ← require_key db fingerprint (Status.pending ∷ [])
  ok (
      ruled
        (append_event (set_status Status.denied actor now fingerprint db) (ids 0) row.identity
          fingerprint Action.denied reason actor now)
        fingerprint)

unfoldable pub revoke_key :
    KeyStore → String → String → String → ℕ → Ids → Result Error (KeyStore × Option Key)
revoke_key db fingerprint actor reason now ids = do
  row ← require_key db fingerprint (Status.approved ∷ Status.pending ∷ [])
  ok (
      ruled
        (append_event (set_status Status.revoked actor now fingerprint db) (ids 0) row.identity
          fingerprint Action.revoked (some reason) actor now)
        fingerprint)

-- `ORDER BY decided_at DESC, rowid DESC LIMIT 1`, where a null time comes last.
abbrev stamp : Option ℕ → ℕ
stamp none = 0
stamp (some t) = suc t

latest : Option Key → List Key → Option Key
latest best [] = best
latest none (k ∷ ks) = latest (some k) ks
latest (some b) (k ∷ ks) =
    latest (some (if leb (stamp b.decided_at) (stamp k.decided_at) then k else b)) ks

ruled_out : Option Key → NoKeyReason
ruled_out none = missing
ruled_out (some k) = if k.status == Status.denied then NoKeyReason.denied else NoKeyReason.revoked

unfoldable pub no_key_reason : KeyStore → String → Option NoKeyReason
unfolding latest ruled_out
no_key_reason db identity = elim (approved_key db identity) [
  | some _ ↦ none
  | none ↦ elim (pending_key db identity) [
    | some _ ↦ some NoKeyReason.pending
    | none ↦ some (
        ruled_out (
          latest none (
            select
              (λ k.
                k.identity == identity && (k.status == Status.denied || k.status == Status.revoked))
              db.keys)))
  ]
]

reason_of_status : Status → NoKeyReason
reason_of_status Status.pending = NoKeyReason.pending
reason_of_status Status.denied = NoKeyReason.denied
reason_of_status Status.revoked = NoKeyReason.revoked
reason_of_status Status.approved = missing

pub status_of_fingerprint : KeyStore → String → NoKeyReason
unfolding reason_of_status
status_of_fingerprint db fingerprint = elim (key_by_fingerprint db fingerprint) [
  | none ↦ missing
  | some row ↦ reason_of_status row.status
]
