-- ===== src/Store/Keys/Ruling.antt =====
-- What a proposal and a ruling change for the keys that may sign.
use agent_mesh_platform.Store.Keys.History.{kept}
use agent_mesh_platform.Store.Keys.Index.{IsIndexed}
use agent_mesh_platform.Store.Keys.Timeline.{exists-displace}
use agent_mesh_platform.Store.Keys.Timeline.{}
use agent_mesh_platform.Store.Keys.Lookup.{listed, absent_of_none}
use agent_mesh_platform.Store.Keys.{
  Status, status_eq, Key, KeyStore, key_ownership, is_fingerprint, has_status, key_by_fingerprint,
  approved_key, pending_key, append_event, Ids, displace, proposal, insert_proposal, propose_key,
}
use agent_mesh_platform.Base.RowLaws.{delete_absent, first-append, count_pos, absent_of_count}
use agent_mesh_platform.Base.{
  Option-cases, string_eq, nat_eq, first, delete, count, ok, err, ℕ, ◌≤◌, String, ◌≡◌, refl, ◌≢◌,
  inl, inr, true, false, none, some, List, [], ◌∷◌, ◌++◌, arith,
}

-- Deleting the one row of a pending key leaves every approved key in place.
approved-delete :
    (identity i : String) (ks : List Key) (k : Key)
    → first (has_status identity Status.pending) ks ≡ some k
    → count (is_fingerprint k.fingerprint) ks ≤ 1
    → first (has_status i Status.approved) (delete (is_fingerprint k.fingerprint) ks)
      ≡ first (has_status i Status.approved) ks
unfolding first delete count
approved-delete identity i [] k e h = refl
approved-delete identity i (x ∷ ks) k e h = ground (
  arith,
  approved-delete identity i ks k,
  listed identity Status.pending ks k,
  count_pos (is_fingerprint k.fingerprint) ks,
  delete_absent (is_fingerprint k.fingerprint) ks,
  absent_of_count (is_fingerprint k.fingerprint) ks,
)

approved-append :
    (i : String) (ks : List Key) (r : Key)
    → r.status ≡ Status.pending
    → first (has_status i Status.approved) (ks ++ r ∷ []) ≡ first (has_status i Status.approved) ks
unfolding first
approved-append i [] r h = ground arith
approved-append i (x ∷ ks) r h = ground (arith, approved-append i ks r)

displace-approved :
    (db : KeyStore) (identity f actor : String) (now : ℕ) (ids : Ids) (i : String)
    → IsIndexed db.keys
    → approved_key (displace db identity f actor now ids) i ≡ approved_key db i
unfolding displace append_event pending_key approved_key
displace-approved db identity f actor now ids i v =
    elim (Option-cases (first (has_status identity Status.pending) db.keys)) [
      | inl e ↦ rw (e, displace) refl
      | inr (k, e) ↦
          rw (e, displace) (approved-delete identity i db.keys k e (v.one_row k.fingerprint))
    ]

-- A proposal takes no approved key away and gives none, from anybody, whatever its outcome: every
-- identity signs with the key it signed with before.
pub propose_key-approved :
    (fp : String → String) (db : KeyStore) (identity public_key actor i : String) (now : ℕ)
    (ids : Ids)
    → IsIndexed db.keys
    → approved_key (kept db (propose_key fp db identity public_key actor now ids)) i
      ≡ approved_key db i
unfolding propose_key insert_proposal append_event first approved_key
propose_key-approved fp db identity public_key actor i now ids v = ground (
  arith,
  shown,
  approved-append i cleared.keys (proposal identity public_key (fp public_key) now) refl,
)
  where
    cleared : KeyStore
    cleared = displace db identity (fp public_key) actor now ids

    shown :
        first (has_status i Status.approved) cleared.keys
        ≡ first (has_status i Status.approved) db.keys
    shown = displace-approved db identity (fp public_key) actor now ids i v

-- A client that restarts proposes its key again: the first proposal of a key that is not on record
-- creates it as pending, the second by the same identity reports it and changes nothing, and one by
-- another identity is refused without saying whose key it is.
pub propose_key_twice :
    (fp : String → String) (db : KeyStore) (identity other public_key actor actor' : String)
    (now now' : ℕ) (ids ids' : Ids)
    → key_by_fingerprint db (fp public_key) ≡ none
    → other ≢ identity
    → let f = fp public_key in
      let db' = kept db (propose_key fp db identity public_key actor now ids) in
      (propose_key fp db identity public_key actor now ids
        ≡ ok (db', record { fingerprint = f; status = Status.pending; created = true }))
      × (propose_key fp db' identity public_key actor' now' ids'
          ≡ ok (db', record { fingerprint = f; status = Status.pending; created = false }))
      × (propose_key fp db' other public_key actor' now' ids' ≡ err (key_ownership f))
unfolding propose_key insert_proposal append_event key_by_fingerprint first
propose_key_twice fp db identity other public_key actor actor' now now' ids ids' e n = ground (
  arith,
  first-append (is_fingerprint f) cleared.keys (proposal identity public_key f now ∷ []),
  new,
  exists-displace db identity f actor now ids f (absent_of_none f db.keys e),
)
  where
    f : String
    f = fp public_key

    cleared : KeyStore
    cleared = displace db identity f actor now ids

    new :
        first (is_fingerprint f) (proposal identity public_key f now ∷ [])
        ≡ some (proposal identity public_key f now)
    new = ground arith
