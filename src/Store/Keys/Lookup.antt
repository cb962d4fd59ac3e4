-- ===== src/Store/Keys/Lookup.antt =====
-- What a lookup of a key sees after an update, a deletion and an insertion.
use agent_mesh_platform.Store.Keys.{Status, Key, is_fingerprint, has_status}
use agent_mesh_platform.Base.{
  if◌then◌else◌, ◌==◌, string_eq, nat_eq, first, exists, update, delete, ℕ, String, ◌≡◌, refl, true,
  false, ◌&&◌, Option, none, some, List, [], ◌∷◌, ◌++◌, arith,
}

-- The status on record for a fingerprint.
abbrev pub status_in : String → List Key → Option Status
status_in fingerprint ks = elim (first (is_fingerprint fingerprint) ks) [
  | none ↦ none
  | some k ↦ some k.status
]

-- The row that `UPDATE … WHERE fingerprint = ?` writes.
abbrev pub ruled_as : Status → String → ℕ → Key → Key
ruled_as status actor now k = record k {
  status = status;
  decided_at = some now;
  decided_by = some actor;
}

pub status_in-update :
    (s : Status) (actor : String) (now : ℕ) (f g : String) (ks : List Key)
    → status_in g (update (is_fingerprint f) (ruled_as s actor now) ks)
      ≡ (if exists (is_fingerprint g) ks && f == g then some s else status_in g ks)
unfolding first exists update
status_in-update s actor now f g [] = refl
status_in-update s actor now f g (k ∷ ks) = ground (arith, status_in-update s actor now f g ks)

pub status_in-delete :
    (f g : String) (ks : List Key)
    → status_in g (delete (is_fingerprint f) ks) ≡ (if f == g then none else status_in g ks)
unfolding first delete
status_in-delete f g [] = ground arith
status_in-delete f g (k ∷ ks) = ground (arith, status_in-delete f g ks)

pub status_in-append :
    (g : String) (ks : List Key) (r : Key)
    → status_in g (ks ++ r ∷ []) ≡ (
        if exists (is_fingerprint g) ks
        then status_in g ks
        else if r.fingerprint == g
        then some r.status
        else none)
unfolding first exists
status_in-append g [] r = ground arith
status_in-append g (k ∷ ks) r = ground (arith, status_in-append g ks r)

pub status_in_absent :
    (g : String) (ks : List Key) → exists (is_fingerprint g) ks ≡ false → status_in g ks ≡ none
unfolding first exists
status_in_absent g [] h = refl
status_in_absent g (k ∷ ks) h = ground (arith, status_in_absent g ks)

pub exists_of_status_in :
    (g : String) (ks : List Key) (s : Status)
    → status_in g ks ≡ some s
    → exists (is_fingerprint g) ks ≡ true
unfolding first exists
exists_of_status_in g [] s h = ground arith
exists_of_status_in g (k ∷ ks) s h = ground (arith, exists_of_status_in g ks s)

-- A row found by its fingerprint carries it, and its status is the one on record.
pub found :
    (g : String) (ks : List Key) (k : Key)
    → first (is_fingerprint g) ks ≡ some k
    → (k.fingerprint ≡ g) × (status_in g ks ≡ some k.status) × (exists (is_fingerprint g) ks ≡ true)
unfolding first exists
found g [] k h = ground arith
found g (x ∷ ks) k h = ground (arith, found g ks k)

-- A row found by identity and status is on record under its fingerprint.
pub listed :
    (identity : String) (s : Status) (ks : List Key) (k : Key)
    → first (has_status identity s) ks ≡ some k
    → exists (is_fingerprint k.fingerprint) ks ≡ true
unfolding first exists
listed identity s [] k h = ground arith
listed identity s (x ∷ ks) k h = ground (arith, listed identity s ks k)

pub exists-update :
    (s : Status) (actor : String) (now : ℕ) (f g : String) (ks : List Key)
    → exists (is_fingerprint g) (update (is_fingerprint f) (ruled_as s actor now) ks)
      ≡ exists (is_fingerprint g) ks
unfolding exists update
exists-update s actor now f g [] = refl
exists-update s actor now f g (k ∷ ks) = ground (arith, exists-update s actor now f g ks)

pub absent_of_none :
    (g : String) (ks : List Key)
    → first (is_fingerprint g) ks ≡ none
    → exists (is_fingerprint g) ks ≡ false
unfolding first exists
absent_of_none g [] h = refl
absent_of_none g (k ∷ ks) h = ground (arith, absent_of_none g ks)
