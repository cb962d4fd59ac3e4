-- ===== src/Store/Grants/Scope.antt =====
-- What a grant and its revocation change for `has`, over packages/store/src/grants.ts.
use agent_mesh_platform.Base.{
  if◌then◌else◌, Bool-cases, ◌==◌, string_eq, nat_eq, exists, delete, insert_absent, IsKeyed, ok,
  err, ℕ, String, ◌≡◌, refl, subst, inl, inr, Bool, true, false, ◌||◌, List, [], ◌∷◌, ◌++◌, arith,
}
use agent_mesh_platform.Base.RowLaws.{
  exists-append, exists-delete_self, ltb-count, delete-append_last, exists-delete-false,
}
use agent_mesh_platform.Store.Grants.{
  Grant, Request, unknown_capability, same_key, row_of, grant, revoke, covers, has,
}
use agent_mesh_platform.Store.Agents.{}

module _ (star : String) where
  -- A row with the key of a covering row covers too.
  covers_of_same :
      (s c scope t : String) (r : Grant) (db : List Grant)
      → covers star s c scope t r ≡ true
      → exists (same_key r) db ≡ true
      → exists (covers star s c scope t) db ≡ true
  unfolding exists
  covers_of_same s c scope t r [] h e = ground arith
  covers_of_same s c scope t r (x ∷ db) h e = ground (arith, covers_of_same s c scope t r db h)

  -- A recorded grant adds exactly the answers that it covers: at every subject, capability, scope
  -- and tenant `has` answers as before, or yes where the grant is the caller's and is tenant-wide or
  -- on that very scope.
  pub has-grant :
      (caps : List String) (db db' : List Grant) (g : Request) (now : ℕ) (s c scope t : String)
      → grant star caps db g now ≡ ok db'
      → has star db' s c scope t
        ≡ (has star db s c scope t || covers star s c scope t (row_of star g now))
  unfolding has grant insert_absent
  has-grant caps db db' g now s c scope t h =
      elim (Bool-cases (exists (same_key (row_of star g now)) db)) [
        | inl old ↦ ground (arith, covers_of_same s c scope t (row_of star g now) db)
        | inr new ↦
            ground (
              arith,
              exists-append (covers star s c scope t) db (row_of star g now ∷ []),
              exists_one,
            )
      ]
    where
      exists_one :
          exists (covers star s c scope t) (row_of star g now ∷ [])
          ≡ covers star s c scope t (row_of star g now)
      exists_one = ground arith

  has-delete :
      (s c a t : String) (r : Grant) (db : List Grant)
      → r.tenant ≡ t
      → r.subject ≡ s
      → r.capability ≡ c
      → r.scope ≡ a
      → exists (covers star s c a t) (delete (same_key r) db)
        ≡ (if a == star then false else exists (covers star s c star t) db)
  unfolding exists delete
  has-delete s c a t r [] _ _ _ _ = ground arith
  has-delete s c a t r (x ∷ db) et es ec ea = ground (arith, has-delete s c a t r db)

  -- After a revocation the very permission that was revoked is held only through a tenant-wide
  -- grant: never, if the revoked grant was tenant-wide itself, and otherwise exactly if `has` at the
  -- tenant-wide scope was true before. The answer of `revoke` is whether a row with that key stood in
  -- the table, and the row is gone.
  pub has-revoke :
      (db : List Grant) (g : Request)
      → let r = row_of star g 0 in
        (has star (revoke star db g).0 r.subject r.capability r.scope r.tenant
          ≡ (if r.scope == star then false else has star db r.subject r.capability star r.tenant))
        × ((revoke star db g).1 ≡ exists (same_key r) db)
        × (exists (same_key r) (revoke star db g).0 ≡ false)
  unfolding has revoke
  has-revoke db g =
      let r = row_of star g 0 in
      (
        has-delete r.subject r.capability r.scope r.tenant r db refl refl refl refl,
        ltb-count (same_key r) db,
        exists-delete_self (same_key r) db,
      )

  -- A grant that no row records yet is appended, if its capability is on the contract's list, and is
  -- refused by name otherwise; revoking an appended one gives back the table and answers true.
  pub revoke-grant :
      (caps : List String) (db : List Grant) (g : Request) (now : ℕ)
      → exists (same_key (row_of star g now)) db ≡ false
      → (grant star caps db g now ≡ (
          if exists (λ c. c == g.capability) caps
          then ok (db ++ row_of star g now ∷ [])
          else err (unknown_capability g.capability)))
        × (revoke star (db ++ row_of star g now ∷ []) g ≡ (db, true))
  unfolding grant revoke insert_absent
  revoke-grant caps db g now h = (
    ground arith,
    ground (
      arith,
      delete-append_last (same_key (row_of star g 0)) db (row_of star g now) h,
      ltb-count (same_key (row_of star g 0)) (db ++ row_of star g now ∷ []),
      exists-append (same_key (row_of star g 0)) db (row_of star g now ∷ []),
    ),
  )

  IsKeyed-append :
      (db : List Grant) (r : Grant)
      → IsKeyed same_key db
      → exists (same_key r) db ≡ false
      → IsKeyed same_key (db ++ r ∷ [])
  unfolding exists
  IsKeyed-append [] r k h = (refl, tt)
  IsKeyed-append (x ∷ db) r k h = (
    ground (arith, exists-append (same_key x) db (r ∷ [])),
    IsKeyed-append db r k.1 (ground arith),
  )

  IsKeyed-delete :
      (p : Grant → Bool) (db : List Grant) → IsKeyed same_key db → IsKeyed same_key (delete p db)
  unfolding delete
  IsKeyed-delete p [] k = tt
  IsKeyed-delete p (x ∷ db) k =
      ground (arith, IsKeyed-delete p db, exists-delete-false (same_key x) p db)

  -- The primary key holds after every grant that is recorded and after every revocation.
  pub grants-IsKeyed :
      (caps : List String) (db db' : List Grant) (g : Request) (now : ℕ)
      → IsKeyed same_key db
      → grant star caps db g now ≡ ok db'
      → IsKeyed same_key db' × IsKeyed same_key (revoke star db' g).0
  unfolding revoke grant insert_absent
  grants-IsKeyed caps db db' g now k h =
      (kept_keyed, IsKeyed-delete (same_key (row_of star g 0)) db' kept_keyed)
    where
      kept_keyed : IsKeyed same_key db'
      kept_keyed = elim (Bool-cases (exists (same_key (row_of star g now)) db)) [
        | inl old ↦ subst (IsKeyed same_key) (ground arith) k
        | inr new ↦
            subst (IsKeyed same_key) (ground arith) (IsKeyed-append db (row_of star g now) k new)
      ]
