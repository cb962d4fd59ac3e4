-- ===== src/Store/Teardown/Closure.antt =====
-- A torn-down identity has no key left to sign with, and nobody may speak for it.
use agent_mesh_platform.Store.Teardown.{
  soft_deleted, already_deleted, AgentsDb, is_open, closed, append_teardown, close,
  teardown_identity,
}
use agent_mesh_platform.Store.Entitlement.{entitled, may_proxy}
use agent_mesh_platform.Store.Keys.{
  Status, Action, status_eq, Key, KeyStore, has_status, key_by_status, approved_key, pending_key,
  append_event, Ids,
}
use agent_mesh_platform.Store.Agents.{Agent, AgentType, is_identity}
use agent_mesh_platform.Base.{
  ◌==◌, string_eq, nat_eq, select, first, update, is_some, ℕ, suc, String, ◌≡◌, refl, ◌≢◌, ◌⊎◌, not,
  ◌&&◌, none, some, List, [], ◌∷◌, map, arith,
}

keys-append_teardown :
    (db : KeyStore) (identity actor : String) (now : ℕ) (ids : Ids) (drawn : ℕ) (fs : List String)
    → (append_teardown db identity actor now ids drawn fs).keys ≡ db.keys
unfolding append_teardown append_event
keys-append_teardown db identity actor now ids drawn [] = refl
keys-append_teardown db identity actor now ids drawn (f ∷ fs) =
    keys-append_teardown
      (append_event db (ids drawn) identity f Action.revoked (some "teardown") actor now) identity
      actor now ids (suc drawn) fs

none_open :
    (identity : String) (now : ℕ) (s : Status) (ks : List Key)
    → (s ≡ Status.approved) ⊎ (s ≡ Status.pending)
    → first (has_status identity s) (update (is_open identity) (closed now) ks) ≡ none
unfolding first update
none_open identity now s [] h = refl
none_open identity now s (k ∷ ks) h = ground (arith, none_open identity now s ks)

others_open :
    (identity i : String) (now : ℕ) (s : Status) (ks : List Key)
    → identity ≢ i
    → first (has_status i s) (update (is_open identity) (closed now) ks) ≡ first (has_status i s) ks
unfolding first update
others_open identity i now s [] n = refl
others_open identity i now s (k ∷ ks) n = ground (arith, others_open identity i now s ks)

-- The row of the identity carries the time.
deleted_row :
    (identity : String) (now : ℕ) (as' : List Agent) (a : Agent)
    → first (is_identity identity) as' ≡ some a
    → a.deleted_at ≡ none
    → first (is_identity identity) (
        update
          (λ r. r.identity == identity && not (is_some r.deleted_at))
          (λ r. record r { deleted_at = some now })
          as')
      ≡ some (record a { deleted_at = some now })
unfolding first update
deleted_row identity now [] a e h = ground arith
deleted_row identity now (x ∷ as') a e h = ground (arith, deleted_row identity now as' a)

-- A teardown of an identity that is registered and live answers `soft_deleted` with the time; it
-- leaves the identity no approved and no pending key, and every other identity the keys it had.
pub teardown_identity_lem :
    (db : AgentsDb) (identity actor i : String) (now : ℕ) (ids : Ids) (a : Agent) (s : Status)
    → first (is_identity identity) db.agents ≡ some a
    → a.deleted_at ≡ none
    → let (db', answer) = teardown_identity db identity actor now ids in
      (answer.action ≡ soft_deleted)
      × (answer.deleted_at ≡ some now)
      × (approved_key db'.key_store identity ≡ none)
      × (pending_key db'.key_store identity ≡ none)
      × (identity ≢ i → key_by_status db'.key_store i s ≡ key_by_status db.key_store i s)
unfolding teardown_identity close approved_key pending_key
teardown_identity_lem db identity actor i now ids a s e live = ground (
  arith,
  deleted_row identity now db.agents a,
  none_open identity now Status.approved db.key_store.keys,
  none_open identity now Status.pending db.key_store.keys,
  others_open identity i now s db.key_store.keys,
  keys-append_teardown
      (record db.key_store { keys = update (is_open identity) (closed now) db.key_store.keys })
      identity actor now ids 0
      (map (λ k. k.fingerprint) (select (is_open identity) db.key_store.keys)),
)

-- A second teardown changes nothing, and says when the first one was.
pub teardown_identity_twice :
    (db : AgentsDb) (identity actor actor' : String) (now now' : ℕ) (ids ids' : Ids) (a : Agent)
    → first (is_identity identity) db.agents ≡ some a
    → a.deleted_at ≡ none
    → let db' = (teardown_identity db identity actor now ids).0 in
      teardown_identity db' identity actor' now' ids' ≡ (
        db',
        record {
          identity = identity;
          action = already_deleted;
          deleted_at = some now;
          revoked = [];
        },
      )
unfolding teardown_identity close
teardown_identity_twice db identity actor actor' now now' ids ids' a e live =
    ground (arith, deleted_row identity now db.agents a)

-- Nobody but itself may speak for an identity that was torn down.
pub teardown_identity-may_proxy :
    (db : AgentsDb) (types : List AgentType) (identity actor proxy : String) (now : ℕ) (ids : Ids)
    (a : Agent)
    → first (is_identity identity) db.agents ≡ some a
    → proxy ≢ identity
    → may_proxy (teardown_identity db identity actor now ids).0.agents types proxy identity
      ≢ entitled
unfolding teardown_identity close may_proxy
teardown_identity-may_proxy db types identity actor proxy now ids a e n =
    ground (arith, deleted_row identity now db.agents a)
