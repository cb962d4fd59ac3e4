-- ===== src/Store/Keys/Tests.antt =====
-- Runs of the theorems on the first key of one identity.
use agent_mesh_platform.Store.Keys.Approval.{approve_key_lem}
use agent_mesh_platform.Store.Keys.History.{IsSound, Call, propose, approve, kept, run, run-IsSound}
use agent_mesh_platform.Store.Keys.Index.{IsIndexed}
use agent_mesh_platform.Store.Keys.Lookup.{ruled_as}
use agent_mesh_platform.Store.Keys.{
  Status, status_eq, Key, KeyStore, key_by_fingerprint, approved_key, Ids, proposal, approve_key,
}
use agent_mesh_platform.Base.{
  String-discrete, string_eq, nat_eq, first, count, ok, ℕ, String, ◌≡◌, refl, some, List, [], ◌∷◌,
  arith,
}

abbrev ids : Ids
ids _ = "event"

abbrev fingerprint_of : String → String
fingerprint_of public_key = public_key

abbrev calls : List (ℕ × (Ids × Call))
calls =
    (1, (ids, propose "a" "key-1" "a"))
    ∷ (2, (ids, approve "key-1" "root"))
    ∷ (3, (ids, propose "a" "key-2" "a"))
    ∷ (4, (ids, approve "key-2" "root"))
    ∷ []

run-IsSound_example : IsSound (run fingerprint_of (record { keys = []; events = [] }) calls)
run-IsSound_example = run-IsSound fingerprint_of calls

abbrev fresh : Key
fresh = proposal "a" "key-1" "key-1" 1

abbrev one_pending_key : KeyStore
one_pending_key = record { keys = fresh ∷ []; events = [] }

one_pending_key-IsIndexed : IsIndexed (fresh ∷ [])
unfolding count
one_pending_key-IsIndexed = record {
  one_row = λ f. ground arith;
  one_pending = λ i. ground arith;
  one_approved = λ i. ground arith;
}

approve_key_example :
    let row = ruled_as Status.approved "root" 5 fresh in
    let db' = kept one_pending_key (approve_key one_pending_key "key-1" "root" 5 ids) in
    (approve_key one_pending_key "key-1" "root" 5 ids ≡ ok (db', some row))
    × (approved_key db' "a" ≡ some row)
unfolding key_by_fingerprint first String-discrete
approve_key_example =
    approve_key_lem one_pending_key "key-1" "root" "a" 5 ids fresh one_pending_key-IsIndexed refl
      refl
