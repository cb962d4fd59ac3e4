-- ===== src/Store/Keys/Approval.antt =====
-- What an approval and a revocation change for the keys that may sign.
use agent_mesh_platform.Store.Keys.History.{kept}
use agent_mesh_platform.Store.Keys.Index.{IsIndexed, mine_le, mine_none, retire-IsIndexed}
use agent_mesh_platform.Store.Keys.Lookup.{ruled_as, listed}
use agent_mesh_platform.Store.Keys.{
  Status, status_eq, Key, KeyStore, is_fingerprint, has_status, key_by_fingerprint, approved_key,
  append_event, set_status, Ids, require_key, retire, decide_approval, approve_key, revoke_key,
}
use agent_mesh_platform.Base.RowLaws.{first_holds, count_pos}
use agent_mesh_platform.Base.{
  if◌then◌else◌, Option-cases, ◌==◌, string_eq, nat_eq, first, exists, update, count, ok, ℕ, ◌≤◌,
  String, ◌≡◌, refl, ◌∙◌, subst, ◌≢◌, inl, inr, false, ◌&&◌, Option, some, List, [], ◌∷◌, arith,
}

-- A ruling on a key that is not an identity's leaves the identity's keys alone.
pub untouched :
    (s s' : Status) (actor : String) (now : ℕ) (f i : String) (ks : List Key)
    → count (λ k. is_fingerprint f k && k.identity == i) ks ≡ 0
    → first (has_status i s') (update (is_fingerprint f) (ruled_as s actor now) ks)
      ≡ first (has_status i s') ks
unfolding first update count
untouched s s' actor now f i [] h = refl
untouched s s' actor now f i (k ∷ ks) h = ground (arith, untouched s s' actor now f i ks)

-- The key that an identity has in a state is not another identity's.
foreign :
    (s : Status) (identity i : String) (ks : List Key) (k : Key)
    → first (has_status identity s) ks ≡ some k
    → count (is_fingerprint k.fingerprint) ks ≤ 1
    → identity ≢ i
    → count (λ x. is_fingerprint k.fingerprint x && x.identity == i) ks ≡ 0
unfolding first count
foreign s identity i [] k e h n = ground arith
foreign s identity i (x ∷ ks) k e h n = ground (
  arith,
  foreign s identity i ks k,
  listed identity s ks k,
  count_pos (is_fingerprint k.fingerprint) ks,
  mine_le k.fingerprint i ks,
)

-- Where an identity has no approved key, the one that is approved becomes it.
approved-update :
    (actor : String) (now : ℕ) (f : String) (ks : List Key) (k : Key)
    → first (is_fingerprint f) ks ≡ some k
    → count (has_status k.identity Status.approved) ks ≡ 0
    → first
        (has_status k.identity Status.approved)
        (update (is_fingerprint f) (ruled_as Status.approved actor now) ks)
      ≡ some (ruled_as Status.approved actor now k)
unfolding first update count
approved-update actor now f [] k e h = ground arith
approved-update actor now f (x ∷ ks) k e h = ground (arith, approved-update actor now f ks k)

retire-other :
    (db : KeyStore) (identity actor : String) (now : ℕ) (ids : Ids) (i : String)
    → IsIndexed db.keys
    → identity ≢ i
    → approved_key (retire db identity actor now ids) i ≡ approved_key db i
unfolding retire append_event set_status approved_key
retire-other db identity actor now ids i v n =
    elim (Option-cases (first (has_status identity Status.approved) db.keys)) [
      | inl e ↦ rw (e, retire) refl
      | inr (k, e) ↦
          rw (e, retire)
            (untouched Status.revoked Status.approved actor now k.fingerprint i db.keys
              (foreign Status.approved identity i db.keys k e (v.one_row k.fingerprint) n))
    ]

-- The row of a key that was found by its state is the row of its fingerprint.
pub row_of_status :
    (s : Status) (identity : String) (ks : List Key) (k : Key)
    → first (has_status identity s) ks ≡ some k
    → count (is_fingerprint k.fingerprint) ks ≤ 1
    → first (is_fingerprint k.fingerprint) ks ≡ some k
unfolding first count
row_of_status s identity [] k e h = ground arith
row_of_status s identity (x ∷ ks) k e h = ground (
  arith,
  row_of_status s identity ks k,
  listed identity s ks k,
  count_pos (is_fingerprint k.fingerprint) ks,
)

pub first-update_other :
    (s : Status) (actor : String) (now : ℕ) (f g : String) (ks : List Key)
    → f ≢ g
    → first (is_fingerprint g) (update (is_fingerprint f) (ruled_as s actor now) ks)
      ≡ first (is_fingerprint g) ks
unfolding first update
first-update_other s actor now f g [] n = refl
first-update_other s actor now f g (x ∷ ks) n =
    ground (arith, first-update_other s actor now f g ks n)

pub first-update_self :
    (s : Status) (actor : String) (now : ℕ) (f : String) (ks : List Key) (k : Key)
    → first (is_fingerprint f) ks ≡ some k
    → first (is_fingerprint f) (update (is_fingerprint f) (ruled_as s actor now) ks)
      ≡ some (ruled_as s actor now k)
unfolding first update
first-update_self s actor now f [] k e = ground arith
first-update_self s actor now f (x ∷ ks) k e = ground (arith, first-update_self s actor now f ks k)

-- A retirement leaves a row that is not approved as it is.
retire-pending :
    (db : KeyStore) (identity actor f : String) (now : ℕ) (ids : Ids) (k : Key)
    → IsIndexed db.keys
    → first (is_fingerprint f) db.keys ≡ some k
    → k.status ≡ Status.pending
    → first (is_fingerprint f) (retire db identity actor now ids).keys ≡ some k
unfolding retire append_event set_status approved_key
retire-pending db identity actor f now ids k v e p =
    elim (Option-cases (first (has_status identity Status.approved) db.keys)) [
      | inl e' ↦ rw (e', retire) e
      | inr (inc, e') ↦
          rw (e', retire)
            (first-update_other Status.revoked actor now inc.fingerprint f db.keys (other inc e')
              ∙ e)
    ]
  where
    other :
        (inc : Key)
        → first (has_status identity Status.approved) db.keys ≡ some inc
        → inc.fingerprint ≢ f
    other inc e' same =
        let row =
          row_of_status Status.approved identity db.keys inc e' (v.one_row inc.fingerprint) in
        let row' = subst (λ u. first (is_fingerprint u) db.keys ≡ some inc) same row in
        let approved = first_holds (has_status identity Status.approved) db.keys inc e' in
        ground arith

module _ (db : KeyStore) (f actor : String) (now : ℕ) (ids : Ids) (k : Key) (v : IsIndexed db.keys)
    (e : first (is_fingerprint f) db.keys ≡ some k) (p : k.status ≡ Status.pending) where
  abbrev after : KeyStore
  after = decide_approval db k.identity f actor now ids

  after_row : first (is_fingerprint f) after.keys ≡ some (ruled_as Status.approved actor now k)
  unfolding decide_approval append_event set_status
  after_row =
      first-update_self Status.approved actor now f (retire db k.identity actor now ids).keys k
        (retire-pending db k.identity actor f now ids k v e p)

  after_own :
      first (has_status k.identity Status.approved) after.keys
      ≡ some (ruled_as Status.approved actor now k)
  unfolding decide_approval append_event set_status
  after_own =
      approved-update actor now f (retire db k.identity actor now ids).keys k
        (retire-pending db k.identity actor f now ids k v e p)
        (retire-IsIndexed db k.identity actor now ids v).1

  after_other :
      (i : String)
      → k.identity ≢ i
      → first (has_status i Status.approved) after.keys
        ≡ first (has_status i Status.approved) db.keys
  unfolding decide_approval append_event set_status approved_key
  after_other i n =
      untouched Status.approved Status.approved actor now f i
        (retire db k.identity actor now ids).keys
        ((retire-IsIndexed db k.identity actor now ids v).2 f i
          ∙ mine_none f i db.keys k e (v.one_row f) n)
      ∙ retire-other db k.identity actor now ids i v n

-- Approving a pending key returns its row and makes it its identity's approved key, in the place of
-- the one approved before; the approved keys of every other identity stay.
pub approve_key_lem :
    (db : KeyStore) (f actor i : String) (now : ℕ) (ids : Ids) (k : Key)
    → IsIndexed db.keys
    → key_by_fingerprint db f ≡ some k
    → k.status ≡ Status.pending
    → let row = ruled_as Status.approved actor now k in
      let db' = kept db (approve_key db f actor now ids) in
      (approve_key db f actor now ids ≡ ok (db', some row))
      × (approved_key db' i ≡ (if k.identity == i then some row else approved_key db i))
unfolding approve_key require_key key_by_fingerprint approved_key exists
approve_key_lem db f actor i now ids k v e p = ground (
  arith,
  after_row db f actor now ids k v e p,
  after_own db f actor now ids k v e p,
  after_other db f actor now ids k v e p i,
  own,
)
  where
    own :
        k.identity ≡ i
        → first (has_status i Status.approved) (after db f actor now ids k v e p).keys
          ≡ some (ruled_as Status.approved actor now k)
    own q =
        subst
          (λ u.
            first (has_status u Status.approved) (after db f actor now ids k v e p).keys
            ≡ some (ruled_as Status.approved actor now k))
          q (after_own db f actor now ids k v e p)

approved-gone :
    (s : Status) (actor : String) (now : ℕ) (f i : String) (ks : List Key)
    → s ≢ Status.approved
    → exists
        (λ k. has_status i Status.approved k && is_fingerprint f k)
        (update (is_fingerprint f) (ruled_as s actor now) ks)
      ≡ false
unfolding exists update
approved-gone s actor now f i [] n = refl
approved-gone s actor now f i (x ∷ ks) n = ground (arith, approved-gone s actor now f i ks n)

first-not_gone :
    (f i : String) (ks : List Key) (k : Key)
    → exists (λ x. has_status i Status.approved x && is_fingerprint f x) ks ≡ false
    → first (has_status i Status.approved) ks ≡ some k
    → k.fingerprint ≢ f
unfolding exists first
first-not_gone f i [] k h e = ground arith
first-not_gone f i (x ∷ ks) k h e = ground (arith, first-not_gone f i ks k)

-- A revoked key is nobody's approved key from that moment, whoever asks.
pub revoke_key-not_approved :
    (db db' : KeyStore) (f actor reason i : String) (now : ℕ) (ids : Ids) (row : Option Key)
    (k : Key)
    → revoke_key db f actor reason now ids ≡ ok (db', row)
    → approved_key db' i ≡ some k
    → k.fingerprint ≢ f
unfolding revoke_key require_key append_event set_status approved_key
revoke_key-not_approved db db' f actor reason i now ids row k r e = ground (
  arith,
  approved-gone Status.revoked actor now f i db.keys (λ q. cc),
  first-not_gone f i db'.keys k,
)
