-- ===== src/Store/Keys/Timeline.antt =====
-- The events alone tell the state: replaying `agent_key_events` gives every key's status.
use agent_mesh_platform.Store.Keys.Lookup.{
  status_in, status_in-update, status_in-delete, status_in-append, status_in_absent, listed,
  exists-update,
}
use agent_mesh_platform.Store.Keys.{
  Status, Action, Key, Event, KeyStore, is_fingerprint, has_status, approved_key, pending_key,
  append_event, set_status, Ids, displace, proposal, insert_proposal, retire, decide_approval,
}
use agent_mesh_platform.Base.RowLaws.{exists-delete-false}
use agent_mesh_platform.Base.{
  if◌then◌else◌, Option-cases, ◌==◌, string_eq, nat_eq, first, exists, delete, ℕ, String, ◌≡◌, refl,
  subst, inl, inr, true, false, Option, none, some, List, [], ◌∷◌, ◌++◌, arith,
}

-- What an event says of its key afterwards; a superseded proposal is off the record.
abbrev pub outcome : Action → Option Status
outcome Action.proposed = some Status.pending
outcome Action.approved = some Status.approved
outcome Action.denied = some Status.denied
outcome Action.revoked = some Status.revoked
outcome Action.superseded = none

-- The status of a key by its events, from the oldest on.
unfoldable pub replay : String → Option Status → List Event → Option Status
replay fingerprint s [] = s
replay fingerprint s (e ∷ es) =
    replay fingerprint (if e.fingerprint == fingerprint then outcome e.action else s) es

-- The table and the history give every fingerprint the same status.
abbrev pub IsReplayed : KeyStore → Type 0
IsReplayed db = (g : String) → status_in g db.keys ≡ replay g none db.events

replay-append :
    (g : String) (s : Option Status) (es : List Event) (e : Event)
    → replay g s (es ++ e ∷ []) ≡ (if e.fingerprint == g then outcome e.action else replay g s es)
unfolding replay
replay-append g s [] e = refl
replay-append g s (x ∷ es) e =
    replay-append g (if x.fingerprint == g then outcome x.action else s) es e

-- An event that is appended where the table changes to match it.
pub append_event-IsReplayed :
    (db : KeyStore) (ks : List Key) (id identity f : String) (a : Action) (reason : Option String)
    (actor : String) (now : ℕ)
    → IsReplayed db
    → ((g : String) → status_in g ks ≡ (if f == g then outcome a else status_in g db.keys))
    → IsReplayed (append_event (record db { keys = ks }) id identity f a reason actor now)
unfolding append_event
append_event-IsReplayed db ks id identity f a reason actor now r h g =
    rw replay-append (ground (arith, r g, h g))

-- A ruling on a key that is on record, with its event.
pub set_status-IsReplayed :
    (db : KeyStore) (s : Status) (a : Action) (id identity f : String) (reason : Option String)
    (actor : String) (now : ℕ)
    → outcome a ≡ some s
    → exists (is_fingerprint f) db.keys ≡ true
    → IsReplayed db
    → IsReplayed (append_event (set_status s actor now f db) id identity f a reason actor now)
unfolding set_status
set_status-IsReplayed db s a id identity f reason actor now e x r =
    append_event-IsReplayed db (set_status s actor now f db).keys id identity f a reason actor now r
      λ g. ground (arith, status_in-update s actor now f g db.keys, same g)
  where
    same : (g : String) → f ≡ g → exists (is_fingerprint g) db.keys ≡ true
    same g p = subst (λ u. exists (is_fingerprint u) db.keys ≡ true) p x

retire-IsReplayed :
    (db : KeyStore) (identity actor : String) (now : ℕ) (ids : Ids)
    → IsReplayed db
    → IsReplayed (retire db identity actor now ids)
unfolding retire approved_key
retire-IsReplayed db identity actor now ids r =
    elim (Option-cases (first (has_status identity Status.approved) db.keys)) [
      | inl e ↦ rw (e, retire) r
      | inr (k, e) ↦
          rw (e, retire)
            (set_status-IsReplayed db Status.revoked Action.revoked (ids 0) identity k.fingerprint
              (some "rotation") actor now refl (listed identity Status.approved db.keys k e) r)
    ]

pub exists-retire :
    (db : KeyStore) (identity actor : String) (now : ℕ) (ids : Ids) (f : String)
    → exists (is_fingerprint f) (retire db identity actor now ids).keys
      ≡ exists (is_fingerprint f) db.keys
unfolding retire append_event set_status
exists-retire db identity actor now ids f = elim (Option-cases (approved_key db identity)) [
  | inl e ↦ rw (e, retire)
  | inr (k, e) ↦ rw (e, retire) (exists-update Status.revoked actor now k.fingerprint f db.keys)
]

pub decide_approval-IsReplayed :
    (db : KeyStore) (identity f actor : String) (now : ℕ) (ids : Ids)
    → exists (is_fingerprint f) db.keys ≡ true
    → IsReplayed db
    → IsReplayed (decide_approval db identity f actor now ids)
unfolding decide_approval
decide_approval-IsReplayed db identity f actor now ids x r =
    set_status-IsReplayed (retire db identity actor now ids) Status.approved Action.approved (ids 1)
      identity f none actor now refl (rw exists-retire x)
      (retire-IsReplayed db identity actor now ids r)

displace-IsReplayed :
    (db : KeyStore) (identity f actor : String) (now : ℕ) (ids : Ids)
    → IsReplayed db
    → IsReplayed (displace db identity f actor now ids)
unfolding displace
displace-IsReplayed db identity f actor now ids r = elim (Option-cases (pending_key db identity)) [
  | inl e ↦ rw (e, displace) r
  | inr (k, e) ↦
      rw (e, displace)
        (append_event-IsReplayed db (delete (is_fingerprint k.fingerprint) db.keys) (ids 0) identity
          k.fingerprint Action.superseded (some f) actor now r
          λ g. status_in-delete k.fingerprint g db.keys)
]

pub exists-displace :
    (db : KeyStore) (identity f actor : String) (now : ℕ) (ids : Ids) (g : String)
    → exists (is_fingerprint g) db.keys ≡ false
    → exists (is_fingerprint g) (displace db identity f actor now ids).keys ≡ false
unfolding displace append_event
exists-displace db identity f actor now ids g h = elim (Option-cases (pending_key db identity)) [
  | inl e ↦ rw (e, displace) h
  | inr (k, e) ↦
      rw (e, displace)
        (exists-delete-false (is_fingerprint g) (is_fingerprint k.fingerprint) db.keys h)
]

pub insert_proposal-IsReplayed :
    (db : KeyStore) (identity public_key f actor : String) (now : ℕ) (ids : Ids)
    → exists (is_fingerprint f) db.keys ≡ false
    → IsReplayed db
    → IsReplayed (insert_proposal db identity public_key f actor now ids)
unfolding insert_proposal
insert_proposal-IsReplayed db identity public_key f actor now ids x r =
    append_event-IsReplayed cleared (cleared.keys ++ proposal identity public_key f now ∷ [])
      (ids 1) identity f Action.proposed none actor now
      (displace-IsReplayed db identity f actor now ids r)
      λ g. ground (
        arith,
        status_in-append g cleared.keys (proposal identity public_key f now),
        status_in_absent g cleared.keys,
        gone g,
      )
  where
    cleared : KeyStore
    cleared = displace db identity f actor now ids

    gone : (g : String) → f ≡ g → exists (is_fingerprint g) cleared.keys ≡ false
    gone g p =
        subst (λ u. exists (is_fingerprint u) cleared.keys ≡ false) p
          (exists-displace db identity f actor now ids f x)
