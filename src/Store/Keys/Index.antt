-- ===== src/Store/Keys/Index.antt =====
-- The unique indexes of `agent_keys`: a fingerprint has one row, and an identity has at most one
-- pending and one approved key. SQLite refuses a write that breaks them; no operation tries one.
use agent_mesh_platform.Store.Keys.Timeline.{exists-displace}
use agent_mesh_platform.Store.Keys.Lookup.{ruled_as}
use agent_mesh_platform.Store.Keys.{
  Status, status_eq, Key, KeyStore, is_fingerprint, has_status, key_by_fingerprint, approved_key,
  pending_key, append_event, set_status, Ids, displace, insert_proposal, retire, decide_approval,
}
use agent_mesh_platform.Base.RowLaws.{
  count-append, count_absent, count-delete, absent_of_first, count-and-le, count_single,
}
use agent_mesh_platform.Base.{
  if◌then◌else◌, Option-cases, String-discrete, ◌==◌, string_eq, nat_eq, first, exists, update,
  delete, count, ℕ, ◌+◌, ◌≤◌, String, ◌≡◌, refl, ◌∙◌, subst, ◌≢◌, inl, inr, Bool, false, not, ◌&&◌,
  some, List, [], ◌∷◌, arith,
}

pub record IsIndexed (ks : List Key) : Type 0 where
  pub one_row : (f : String) → count (is_fingerprint f) ks ≤ 1
  pub one_pending : (i : String) → count (has_status i Status.pending) ks ≤ 1
  pub one_approved : (i : String) → count (has_status i Status.approved) ks ≤ 1

-- How many keys of an identity have a status, other than the key of a fingerprint.
abbrev others : String → String → Status → List Key → ℕ
others f i s ks = count (λ k. has_status i s k && not (is_fingerprint f k)) ks

count-update :
    (s s' : Status) (actor : String) (now : ℕ) (f i : String) (ks : List Key)
    → count (has_status i s') (update (is_fingerprint f) (ruled_as s actor now) ks)
      ≤ others f i s' ks
        + (if s == s' then count (λ k. is_fingerprint f k && k.identity == i) ks else 0)
unfolding count update
count-update s s' actor now f i [] = ground arith
count-update s s' actor now f i (k ∷ ks) = ground (arith, count-update s s' actor now f i ks)

count_fp-update :
    (s : Status) (actor : String) (now : ℕ) (f g : String) (ks : List Key)
    → count (is_fingerprint g) (update (is_fingerprint f) (ruled_as s actor now) ks)
      ≡ count (is_fingerprint g) ks
unfolding count update
count_fp-update s actor now f g [] = refl
count_fp-update s actor now f g (k ∷ ks) = ground (arith, count_fp-update s actor now f g ks)

others_le :
    (f i : String) (s : Status) (ks : List Key) → others f i s ks ≤ count (has_status i s) ks
unfolding count
others_le f i s [] = ground arith
others_le f i s (k ∷ ks) = ground (arith, others_le f i s ks)

pub mine_le :
    (f i : String) (ks : List Key)
    → count (λ k. is_fingerprint f k && k.identity == i) ks ≤ count (is_fingerprint f) ks
unfolding count
mine_le f i [] = ground arith
mine_le f i (k ∷ ks) = ground (arith, mine_le f i ks)

-- Where one key of the status is known and there is at most one, there is no other.
others_none :
    (i : String) (s : Status) (ks : List Key) (k : Key)
    → first (has_status i s) ks ≡ some k
    → count (has_status i s) ks ≤ 1
    → others k.fingerprint i s ks ≡ 0
unfolding first count
others_none i s [] k e h = ground arith
others_none i s (x ∷ ks) k e h =
    ground (arith, others_none i s ks k, others_le k.fingerprint i s ks)

-- A status other than those under the index may be written at any time.
pub ruled-IsIndexed :
    (s : Status) (actor : String) (now : ℕ) (f : String) (ks : List Key)
    → s ≢ Status.pending
    → s ≢ Status.approved
    → IsIndexed ks
    → IsIndexed (update (is_fingerprint f) (ruled_as s actor now) ks)
ruled-IsIndexed s actor now f ks np na x = record {
  one_row = λ g. rw count_fp-update (x.one_row g);
  one_pending = λ i. ground (
    arith,
    count-update s Status.pending actor now f i ks,
    others_le f i Status.pending ks,
    x.one_pending i,
  );
  one_approved = λ i. ground (
    arith,
    count-update s Status.approved actor now f i ks,
    others_le f i Status.approved ks,
    x.one_approved i,
  );
}

mine-update :
    (s : Status) (actor : String) (now : ℕ) (f g i : String) (ks : List Key)
    → count
        (λ k. is_fingerprint g k && k.identity == i)
        (update (is_fingerprint f) (ruled_as s actor now) ks)
      ≡ count (λ k. is_fingerprint g k && k.identity == i) ks
unfolding count update
mine-update s actor now f g i [] = refl
mine-update s actor now f g i (k ∷ ks) = ground (arith, mine-update s actor now f g i ks)

-- The key of a fingerprint is nobody's but its holder's.
pub mine_none :
    (f i : String) (ks : List Key) (k : Key)
    → first (is_fingerprint f) ks ≡ some k
    → count (is_fingerprint f) ks ≤ 1
    → k.identity ≢ i
    → count (λ x. is_fingerprint f x && x.identity == i) ks ≡ 0
unfolding first count
mine_none f i [] k e h n = ground arith
mine_none f i (x ∷ ks) k e h n = ground (arith, mine_none f i ks k, mine_le f i ks)

pub retire-IsIndexed :
    (db : KeyStore) (identity actor : String) (now : ℕ) (ids : Ids)
    → IsIndexed db.keys
    → IsIndexed (retire db identity actor now ids).keys
      × (count (has_status identity Status.approved) (retire db identity actor now ids).keys ≡ 0)
      × ((f i : String)
          → count
              (λ k. is_fingerprint f k && k.identity == i)
              (retire db identity actor now ids).keys
            ≡ count (λ k. is_fingerprint f k && k.identity == i) db.keys)
unfolding retire append_event set_status approved_key
retire-IsIndexed db identity actor now ids x =
    elim (Option-cases (first (has_status identity Status.approved) db.keys)) [
      | inl e ↦
          rw (e, retire)
            (
              x,
              count_absent (has_status identity Status.approved) db.keys
                  (absent_of_first (has_status identity Status.approved) db.keys e),
              λ f i. refl,
            )
      | inr (k, e) ↦
          rw (e, retire)
            (
              ruled-IsIndexed Status.revoked actor now k.fingerprint db.keys (λ p. cc) (λ p. cc) x,
              ground (
                arith,
                count-update Status.revoked Status.approved actor now k.fingerprint identity
                    db.keys,
                others_none identity Status.approved db.keys k e (x.one_approved identity),
              ),
              λ f i. mine-update Status.revoked actor now k.fingerprint f i db.keys,
            )
    ]

-- An approval of a pending key keeps the indexes.
pub decide_approval-IsIndexed :
    (db : KeyStore) (f actor : String) (now : ℕ) (ids : Ids) (k : Key)
    → key_by_fingerprint db f ≡ some k
    → IsIndexed db.keys
    → IsIndexed (decide_approval db k.identity f actor now ids).keys
unfolding decide_approval append_event set_status key_by_fingerprint
decide_approval-IsIndexed db f actor now ids k e x =
    let (y, none_left, mine) = retire-IsIndexed db k.identity actor now ids x in
    let ks : List Key = (retire db k.identity actor now ids).keys in
    record {
      one_row = λ g. rw (count_fp-update Status.approved actor now f g ks) (y.one_row g);
      one_pending = λ i. ground (
        arith,
        count-update Status.approved Status.pending actor now f i ks,
        others_le f i Status.pending ks,
        y.one_pending i,
      );
      one_approved = λ i. elim (String-discrete k.identity i) [
        | yes p ↦ ground (
          arith,
          count-update Status.approved Status.approved actor now f i ks,
          others_le f i Status.approved ks,
          mine_le f i ks,
          y.one_row f,
          subst (λ u. count (has_status u Status.approved) ks ≡ 0) p none_left,
        )
        | no n ↦ ground (
          arith,
          count-update Status.approved Status.approved actor now f i ks,
          others_le f i Status.approved ks,
          y.one_approved i,
          mine f i,
          mine_none f i db.keys k e (x.one_row f) n,
        )
      ];
    }

delete-IsIndexed :
    (f : String) (ks : List Key) → IsIndexed ks → IsIndexed (delete (is_fingerprint f) ks)
delete-IsIndexed f ks x = record {
  one_row = λ g. rw count-delete (ground (arith, fewer (is_fingerprint g), x.one_row g));
  one_pending =
      λ i. rw count-delete (ground (arith, others_le f i Status.pending ks, x.one_pending i));
  one_approved =
      λ i. rw count-delete (ground (arith, others_le f i Status.approved ks, x.one_approved i));
}
  where
    fewer : (p : Key → Bool) → count (λ k. p k && not (is_fingerprint f k)) ks ≤ count p ks
    fewer p = count-and-le p (λ k. not (is_fingerprint f k)) ks

-- After the proposal that was pending has been displaced, the identity has none.
displace-IsIndexed :
    (db : KeyStore) (identity f actor : String) (now : ℕ) (ids : Ids)
    → IsIndexed db.keys
    → IsIndexed (displace db identity f actor now ids).keys
      × (count (has_status identity Status.pending) (displace db identity f actor now ids).keys ≡ 0)
unfolding displace append_event pending_key
displace-IsIndexed db identity f actor now ids x =
    elim (Option-cases (first (has_status identity Status.pending) db.keys)) [
      | inl e ↦
          rw (e, displace)
            (
              x,
              count_absent (has_status identity Status.pending) db.keys
                  (absent_of_first (has_status identity Status.pending) db.keys e),
            )
      | inr (k, e) ↦
          rw (e, displace)
            (
              delete-IsIndexed k.fingerprint db.keys x,
              count-delete (has_status identity Status.pending) (is_fingerprint k.fingerprint)
                    db.keys
                  ∙ others_none identity Status.pending db.keys k e (x.one_pending identity),
            )
    ]

-- A proposal of a key that is not on record keeps the indexes.
pub insert_proposal-IsIndexed :
    (db : KeyStore) (identity public_key f actor : String) (now : ℕ) (ids : Ids)
    → exists (is_fingerprint f) db.keys ≡ false
    → IsIndexed db.keys
    → IsIndexed (insert_proposal db identity public_key f actor now ids).keys
unfolding insert_proposal append_event
insert_proposal-IsIndexed db identity public_key f actor now ids h x =
    let (y, none_left) = displace-IsIndexed db identity f actor now ids x in
    let ks : List Key = (displace db identity f actor now ids).keys in
    let absent =
      count_absent (is_fingerprint f) ks (exists-displace db identity f actor now ids f h) in
    record {
      one_row = λ g. elim (String-discrete f g) [
        | yes p ↦
            rw (count-append, count_single)
              (ground (arith, subst (λ u. count (is_fingerprint u) ks ≡ 0) p absent))
        | no n ↦ rw (count-append, count_single) (ground (arith, y.one_row g))
      ];
      one_pending = λ i. elim (String-discrete identity i) [
        | yes p ↦
            rw (count-append, count_single)
              (ground (arith, subst (λ u. count (has_status u Status.pending) ks ≡ 0) p none_left))
        | no n ↦ rw (count-append, count_single) (ground (arith, y.one_pending i))
      ];
      one_approved = λ i. rw (count-append, count_single) (ground (arith, y.one_approved i));
    }
