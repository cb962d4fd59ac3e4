-- ===== src/Store/Keys/History.antt =====
-- Every history of proposals and rulings keeps the key store sound.
use agent_mesh_platform.Store.Keys.Index.{
  IsIndexed, ruled-IsIndexed, decide_approval-IsIndexed, insert_proposal-IsIndexed,
}
use agent_mesh_platform.Store.Keys.Timeline.{
  outcome, replay, IsReplayed, set_status-IsReplayed, decide_approval-IsReplayed,
  insert_proposal-IsReplayed,
}
use agent_mesh_platform.Store.Keys.Lookup.{found, absent_of_none}
use agent_mesh_platform.Store.Keys.{
  Status, Action, status_eq, Key, KeyStore, Error, key_ownership, ProposeResult, is_fingerprint,
  key_by_fingerprint, append_event, set_status, Ids, propose_key, ◌>>=◌, require_key,
  decide_approval, ruled, approve_key, deny_key, revoke_key,
}
use agent_mesh_platform.Base.RowLaws.{}
use agent_mesh_platform.Base.{
  if◌then◌else◌, Bool-cases, Option-cases, ◌==◌, string_eq, nat_eq, first, exists, count, Result,
  ok, err, ℕ, String, ◌≡◌, refl, ◌≢◌, inl, inr, Bool, true, false, not, Option, some, List, [], ◌∷◌,
  arith,
}

pub record IsSound (db : KeyStore) : Type 0 where
  pub indexed : IsIndexed db.keys
  pub replayed : IsReplayed db

-- A call of one of the four operations, at a time and with the ids that it draws.
pub data Call : Type 0 where
  propose : (identity public_key actor : String) → Call
  approve : (fingerprint actor : String) → Call
  deny : (fingerprint actor : String) (reason : Option String) → Call
  revoke : (fingerprint actor reason : String) → Call

-- What a call leaves behind: nothing new, if it throws.
abbrev pub kept {ℓ} : {A : Type ℓ} → KeyStore → Result Error (KeyStore × A) → KeyStore
kept db (ok (db', _)) = db'
kept db (err _) = db

pub step : (String → String) → KeyStore → ℕ → Ids → Call → KeyStore
step fp db now ids (propose i pk actor) = kept db (propose_key fp db i pk actor now ids)
step fp db now ids (approve f actor) = kept db (approve_key db f actor now ids)
step fp db now ids (deny f actor reason) = kept db (deny_key db f actor reason now ids)
step fp db now ids (revoke f actor reason) = kept db (revoke_key db f actor reason now ids)

pub run : (String → String) → KeyStore → List (ℕ × (Ids × Call)) → KeyStore
run fp db [] = db
run fp db ((now, (ids, c)) ∷ cs) = run fp (step fp db now ids c) cs

-- A key that is on record changes nothing, whoever proposes it.
settled :
    (db : KeyStore) (b : Bool) (e : Error) (r : ProposeResult)
    → IsSound db
    → IsSound (kept db (if b then err e else ok (db, r)))
settled db true e r v = v
settled db false e r v = v

propose-IsSound :
    (fp : String → String) (db : KeyStore) (i pk actor : String) (now : ℕ) (ids : Ids)
    → IsSound db
    → IsSound (kept db (propose_key fp db i pk actor now ids))
unfolding propose_key key_by_fingerprint
propose-IsSound fp db i pk actor now ids v =
    elim (Option-cases (first (is_fingerprint (fp pk)) db.keys)) [
      | inl e ↦
          let h = absent_of_none (fp pk) db.keys e in
          rw (e, propose_key)
            (record {
              indexed = insert_proposal-IsIndexed db i pk (fp pk) actor now ids h v.indexed;
              replayed = insert_proposal-IsReplayed db i pk (fp pk) actor now ids h v.replayed;
            })
      | inr (k, e) ↦
          rw (e, propose_key) (settled db (not (k.identity == i)) (key_ownership (fp pk)) _ v)
    ]

-- A ruling happens only on a key that is on record in an expected state.
require_key-cases {ℓ} :
    (P : KeyStore → Type ℓ) (db : KeyStore) (f : String) (expected : List Status)
    (next : Key → KeyStore)
    → P db
    → ((k : Key) → key_by_fingerprint db f ≡ some k → P (next k))
    → P (kept db (require_key db f expected >>= λ row. ok (ruled (next row) f)))
unfolding require_key
require_key-cases P db f expected next same found = elim (Option-cases (key_by_fingerprint db f)) [
  | inl e ↦ rw (e, require_key) same
  | inr (k, e) ↦
      rw (e, require_key)
        (elim (Bool-cases (exists (λ s. s == k.status) expected)) [
          | inl yes_expected ↦ rw yes_expected (found k e)
          | inr not_expected ↦ rw not_expected same
        ])
]

ruling-IsSound :
    (db : KeyStore) (s : Status) (a : Action) (id f actor : String) (reason : Option String)
    (now : ℕ) (k : Key)
    → s ≢ Status.pending
    → s ≢ Status.approved
    → outcome a ≡ some s
    → key_by_fingerprint db f ≡ some k
    → IsSound db
    → IsSound (append_event (set_status s actor now f db) id k.identity f a reason actor now)
unfolding append_event set_status key_by_fingerprint
ruling-IsSound db s a id f actor reason now k np na o e v = record {
  indexed = ruled-IsIndexed s actor now f db.keys np na v.indexed;
  replayed =
      set_status-IsReplayed db s a id k.identity f reason actor now o (found f db.keys k e).2
        v.replayed;
}

step-IsSound :
    (fp : String → String) (db : KeyStore) (now : ℕ) (ids : Ids) (c : Call)
    → IsSound db
    → IsSound (step fp db now ids c)
unfolding step approve_key deny_key revoke_key key_by_fingerprint
step-IsSound fp db now ids (propose i pk actor) v = propose-IsSound fp db i pk actor now ids v
step-IsSound fp db now ids (approve f actor) v =
    require_key-cases IsSound db f (Status.pending ∷ [])
      (λ row. decide_approval db row.identity f actor now ids) v
      λ k e. record {
        indexed = decide_approval-IsIndexed db f actor now ids k e v.indexed;
        replayed =
            decide_approval-IsReplayed db k.identity f actor now ids (found f db.keys k e).2
              v.replayed;
      }
step-IsSound fp db now ids (deny f actor reason) v =
    require_key-cases IsSound db f (Status.pending ∷ []) _ v λ k e.
      ruling-IsSound db Status.denied Action.denied (ids 0) f actor reason now k (λ p. cc) (λ p. cc)
        refl e v
step-IsSound fp db now ids (revoke f actor reason) v =
    require_key-cases IsSound db f (Status.approved ∷ Status.pending ∷ []) _ v λ k e.
      ruling-IsSound db Status.revoked Action.revoked (ids 0) f actor (some reason) now k (λ p. cc)
        (λ p. cc) refl e v

empty-IsSound : IsSound (record { keys = []; events = [] })
unfolding count first replay
empty-IsSound = record {
  indexed = record {
    one_row = λ f. omega arith;
    one_pending = λ i. omega arith;
    one_approved = λ i. omega arith;
  };
  replayed = λ g. refl;
}

run_from-IsSound :
    (fp : String → String) (db : KeyStore) (cs : List (ℕ × (Ids × Call)))
    → IsSound db
    → IsSound (run fp db cs)
unfolding run
run_from-IsSound fp db [] v = v
run_from-IsSound fp db ((now, (ids, c)) ∷ cs) v =
    run_from-IsSound fp (step fp db now ids c) cs (step-IsSound fp db now ids c v)

-- After any history of proposals, approvals, denials and revocations of an empty store, calls that
-- throw included: a fingerprint has at most one row, an identity has at most one pending and at most
-- one approved key, and replaying the events of the history gives every fingerprint exactly the
-- status that the table holds.
pub run-IsSound :
    (fp : String → String) (cs : List (ℕ × (Ids × Call)))
    → IsSound (run fp (record { keys = []; events = [] }) cs)
run-IsSound fp cs = run_from-IsSound fp _ cs empty-IsSound
