-- ===== src/Store/Pairing/Codes.antt =====
-- A code is spent once.
use agent_mesh_platform.Store.Pairing.{
  Owner, PairingCode, Tables, is_code, is_owner_row, already_redeemed, redeemed, failed,
  is_spendable, add_owner, redeem, is_owner,
}
use agent_mesh_platform.Base.RowLaws.{exists-append, first_holds}
use agent_mesh_platform.Base.{
  if◌then◌else◌, Bool-cases, ◌==◌, string_eq, nat_eq, first, exists, update, count, insert_absent,
  ℕ, ◌≤◌, ◌<◌, String, ◌≡◌, refl, sym, ◌∙◌, subst, inl, inr, true, false, Option, none, some, List,
  [], ◌∷◌, arith,
}

-- The row of the code, whose fields but the two of the redemption stay.
spent_row :
    (code : String) (now : ℕ) (from : Option String) (cs : List PairingCode) (row : PairingCode)
    → first (is_code code) cs ≡ some row
    → first (is_code code) (
        update
          (is_spendable code now)
          (λ c. record c { redeemed_at = some now; redeemed_from = from })
          cs)
      ≡ some (
          if is_spendable code now row
          then record row { redeemed_at = some now; redeemed_from = from }
          else row)
unfolding first update
spent_row code now from [] row h = ground arith
spent_row code now from (c ∷ cs) row h = ground (arith, spent_row code now from cs row)

spendable_there :
    (code : String) (now : ℕ) (cs : List PairingCode) (row : PairingCode)
    → first (is_code code) cs ≡ some row
    → is_spendable code now row ≡ true
    → (count (is_spendable code now) cs == 0) ≡ false
unfolding first count
spendable_there code now [] row h e = ground arith
spendable_there code now (c ∷ cs) row h e = ground (arith, spendable_there code now cs row)

spent :
    (code : String) (now later : ℕ) (from : Option String) (cs : List PairingCode)
    → now ≤ later
    → (count (is_spendable code later) (
          update
            (is_spendable code now)
            (λ c. record c { redeemed_at = some now; redeemed_from = from })
            cs)
        == 0)
      ≡ true
unfolding count update
spent code now later from [] h = ground arith
spent code now later from (c ∷ cs) h = ground (arith, spent code now later from cs)

-- What a redemption leaves.
abbrev spend :
    (String → String) → Tables → String → String → Option String → ℕ → PairingCode → Tables
spend pairing db code owner from now row = record {
  agent_owners =
      add_owner row.tenant row.identity owner (pairing row.issued_by) now db.agent_owners;
  pairing_codes =
      update (is_spendable code now)
        (λ c. record c { redeemed_at = some now; redeemed_from = from }) db.pairing_codes;
}

redeem_live :
    (pairing : String → String) (db : Tables) (code owner : String) (from : Option String) (now : ℕ)
    (row : PairingCode)
    → first (is_code code) db.pairing_codes ≡ some row
    → is_spendable code now row ≡ true
    → redeem pairing db code owner from now
      ≡ (spend pairing db code owner from now row, redeemed row.identity owner)
unfolding redeem
redeem_live pairing db code owner from now row e live =
    rw
      (
        spendable_there code now db.pairing_codes row e live,
        spent_row code now from db.pairing_codes row e,
        live,
      )
      refl

redeem_spent :
    (pairing : String → String) (db : Tables) (code owner other : String)
    (from from' : Option String) (now later : ℕ) (row : PairingCode)
    → first (is_code code) db.pairing_codes ≡ some row
    → is_spendable code now row ≡ true
    → now ≤ later
    → redeem pairing (spend pairing db code owner from now row) code other from' later
      ≡ (spend pairing db code owner from now row, failed already_redeemed)
unfolding redeem
redeem_spent pairing db code owner other from from' now later row e live h =
    rw
      (
        spent code now later from db.pairing_codes h,
        spent_row code now from db.pairing_codes row e,
        live,
      )
      refl

owned_after :
    (tenant identity owner by : String) (now : ℕ) (os : List Owner)
    → exists (is_owner_row tenant identity owner) (add_owner tenant identity owner by now os) ≡ true
unfolding add_owner insert_absent exists
owned_after tenant identity owner by now os =
    elim (Bool-cases (exists (is_owner_row tenant identity owner) os)) [
      | inl there ↦ rw there there
      | inr new ↦ rw new (exists-append (is_owner_row tenant identity owner) os _ ∙ ground arith)
    ]

-- A code that is on record, unspent and not expired names its identity: its redemption makes the caller
-- an owner of that identity, and any later redemption, by anybody, fails as already redeemed and
-- changes nothing.
pub redeem_once :
    (pairing : String → String) (db : Tables) (code owner other : String)
    (from from' : Option String) (now later : ℕ) (row : PairingCode)
    → first (is_code code) db.pairing_codes ≡ some row
    → row.redeemed_at ≡ none
    → now < row.expires_at
    → now ≤ later
    → let (db', outcome) = redeem pairing db code owner from now in
      (outcome ≡ redeemed row.identity owner)
      × (is_owner db' owner row.identity row.tenant ≡ true)
      × (redeem pairing db' code other from' later ≡ (db', failed already_redeemed))
unfolding is_owner
redeem_once pairing db code owner other from from' now later row e live fresh h =
    subst
      (λ r.
        (r.1 ≡ redeemed row.identity owner)
        × (is_owner r.0 owner row.identity row.tenant ≡ true)
        × (redeem pairing r.0 code other from' later ≡ (r.0, failed already_redeemed)))
      (sym (redeem_live pairing db code owner from now row e live_now))
      (
        refl,
        owned_after row.tenant row.identity owner (pairing row.issued_by) now db.agent_owners,
        redeem_spent pairing db code owner other from from' now later row e live_now h,
      )
  where
    live_now : is_spendable code now row ≡ true
    live_now = ground (arith, first_holds (is_code code) db.pairing_codes row e)
