-- ===== src/Store/Teardown.antt =====
-- packages/store/src/teardown.ts: the soft deletion of an identity, which revokes its keys.
pub mod Closure
mod Tests
use agent_mesh_platform.Store.Keys.{Status, Action, status_eq, Key, KeyStore, append_event, Ids}
use agent_mesh_platform.Store.Agents.{Agent, is_identity}
use agent_mesh_platform.Base.{
  if◌then◌else◌, ◌==◌, string_eq, nat_eq, select, first, update, is_some, ℕ, suc, String, Bool, not,
  ◌&&◌, ◌||◌, Option, none, some, List, [], ◌∷◌, map,
}

pub data TeardownAction : Type 0 where
  soft_deleted already_deleted not_found : TeardownAction

pub record TeardownResult : Type 0 where
  pub identity : String
  pub action : TeardownAction
  pub deleted_at : Option ℕ
  pub revoked : List String

-- `agents.db`, as far as a teardown reads and writes it.
pub record AgentsDb : Type 0 where
  pub agents : List Agent
  pub key_store : KeyStore

-- `status IN ('pending','approved')`.
abbrev pub is_open : String → Key → Bool
is_open identity k =
    k.identity == identity && (k.status == Status.pending || k.status == Status.approved)

-- `SET status = 'revoked', decided_at = datetime('now')`, which leaves `decided_by`.
abbrev pub closed : ℕ → Key → Key
closed now k = record k { status = Status.revoked; decided_at = some now }

-- One row of history for every key, with the ids drawn in order.
unfoldable pub append_teardown : KeyStore → String → String → ℕ → Ids → ℕ → List String → KeyStore
append_teardown db identity actor now ids drawn [] = db
append_teardown db identity actor now ids drawn (f ∷ fs) =
    append_teardown
      (append_event db (ids drawn) identity f Action.revoked (some "teardown") actor now) identity
      actor now ids (suc drawn) fs

-- The transaction.
unfoldable pub close : AgentsDb → String → String → ℕ → Ids → List String → AgentsDb
close db identity actor now ids fingerprints = record {
  agents =
      update (λ a. a.identity == identity && not (is_some a.deleted_at))
        (λ a. record a { deleted_at = some now }) db.agents;
  key_store =
      append_teardown
        (record db.key_store { keys = update (is_open identity) (closed now) db.key_store.keys })
        identity actor now ids 0 fingerprints;
}

deleted_at_of : List Agent → String → Option ℕ
deleted_at_of agents identity = elim (first (is_identity identity) agents) [
  | none ↦ none
  | some row ↦ row.deleted_at
]

pub teardown_identity : AgentsDb → String → String → ℕ → Ids → AgentsDb × TeardownResult
unfolding deleted_at_of
teardown_identity db identity actor now ids = elim (first (is_identity identity) db.agents) [
  | none ↦ (db, record { identity = identity; action = not_found; deleted_at = none; revoked = [] })
  | some existing ↦
      if is_some existing.deleted_at
      then (
        db,
        record {
          identity = identity;
          action = already_deleted;
          deleted_at = existing.deleted_at;
          revoked = [];
        },
      )
      else let fingerprints =
          map (λ k. k.fingerprint) (select (is_open identity) db.key_store.keys) in
        let db' = close db identity actor now ids fingerprints in
        (
          db',
          record {
            identity = identity;
            action = soft_deleted;
            deleted_at = deleted_at_of db'.agents identity;
            revoked = fingerprints;
          },
        )
]
