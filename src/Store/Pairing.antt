-- ===== src/Store/Pairing.antt =====
-- packages/store/src/ownership.ts: who is answerable for an identity, and the pairing codes that prove
-- it. The code itself is drawn by the runtime's generator: an argument.
pub mod Codes
pub mod Owners
mod Tests
use agent_mesh_platform.Store.Agents.{default_tenant}
use agent_mesh_platform.Base.Order.{text_le, order_by}
use agent_mesh_platform.Base.{
  ltb, leb, if◌then◌else◌, ◌==◌, string_eq, nat_eq, select, first, exists, update, delete, count,
  insert_absent, get_or, is_some, ℕ, ◌+◌, ◌-◌, String, Bool, not, ◌&&◌, Option, none, some, List,
  [], ◌∷◌, ◌++◌, map,
}

pub record Owner : Type 0 where
  pub identity : String
  pub owner : String
  pub tenant : String
  pub granted_at : ℕ
  pub granted_by : String

pub record PairingCode : Type 0 where
  pub code : String
  pub tenant : String
  pub identity : String
  pub issued_by : String
  pub issued_at : ℕ
  pub expires_at : ℕ
  pub redeemed_at : Option ℕ
  pub redeemed_from : Option String

pub record Tables : Type 0 where
  pub agent_owners : List Owner
  pub pairing_codes : List PairingCode

abbrev pub is_code : String → PairingCode → Bool
is_code code c = c.code == code

-- The primary key of `agent_owners`.
abbrev pub is_owner_row : String → String → String → Owner → Bool
is_owner_row tenant identity owner o =
    o.tenant == tenant && (o.identity == identity && o.owner == owner)

-- `ttlSeconds`, which may be negative.
pub data Ttl : Type 0 where
  ahead behind : ℕ → Ttl

abbrev expiry : ℕ → Ttl → ℕ
expiry now (ahead n) = now + n
expiry now (behind n) = now - n

-- The insert throws where the code is taken, which is `none`.
unfoldable pub issue_code :
    Tables → String → Option String → String → String → Ttl → ℕ → Option (Tables × PairingCode)
issue_code db code tenant identity issued_by ttl now =
    let row : PairingCode = record {
      code = code;
      tenant = get_or tenant default_tenant;
      identity = identity;
      issued_by = issued_by;
      issued_at = now;
      expires_at = expiry now ttl;
      redeemed_at = none;
      redeemed_from = none;
    } in
    if exists (is_code code) db.pairing_codes
    then none
    else some (record db { pairing_codes = db.pairing_codes ++ row ∷ [] }, row)

pub data RedeemFailure : Type 0 where
  unknown expired already_redeemed : RedeemFailure

pub data RedeemOutcome : Type 0 where
  redeemed : (identity owner : String) → RedeemOutcome
  failed : RedeemFailure → RedeemOutcome

-- The `WHERE` of the spend.
abbrev pub is_spendable : String → ℕ → PairingCode → Bool
is_spendable code now c = c.code == code && (not (is_some c.redeemed_at) && ltb now c.expires_at)

unfoldable pub add_owner : String → String → String → String → ℕ → List Owner → List Owner
add_owner tenant identity owner granted_by now os =
    insert_absent (is_owner_row tenant identity owner)
      (record {
        identity = identity;
        owner = owner;
        tenant = tenant;
        granted_at = now;
        granted_by = granted_by;
      })
      os

-- `pairing:${issued_by}` is the concatenation of texts: an argument.
unfoldable pub redeem :
    (String → String) → Tables → String → String → Option String → ℕ → Tables × RedeemOutcome
redeem pairing db code owner observed_from now =
    let codes =
      update (is_spendable code now)
        (λ c. record c { redeemed_at = some now; redeemed_from = observed_from })
        db.pairing_codes in
    if count (is_spendable code now) db.pairing_codes == 0
    then (
      db,
      elim (first (is_code code) db.pairing_codes) [
        | none ↦ failed unknown
        | some row ↦ failed (if is_some row.redeemed_at then already_redeemed else expired)
      ],
    )
    else elim (first (is_code code) codes) [
      | none ↦ (db, failed unknown)
      | some row ↦ (
        record {
          agent_owners =
              add_owner row.tenant row.identity owner (pairing row.issued_by) now db.agent_owners;
          pairing_codes = codes;
        },
        redeemed row.identity owner,
      )
    ]

pub owners : Tables → String → String → List Owner
owners db identity tenant =
    order_by (λ a b. leb a.granted_at b.granted_at)
      (select (λ o. o.tenant == tenant && o.identity == identity) db.agent_owners)

pub owned_by : Tables → String → String → List String
owned_by db owner tenant =
    map (λ o. o.identity)
      (order_by (λ a b. text_le a.identity b.identity)
        (select (λ o. o.tenant == tenant && o.owner == owner) db.agent_owners))

unfoldable pub is_owner : Tables → String → String → String → Bool
is_owner db owner identity tenant = exists (is_owner_row tenant identity owner) db.agent_owners

unfoldable pub assign : Tables → Option String → String → String → String → ℕ → Tables
assign db tenant identity owner granted_by now = record db {
  agent_owners =
      add_owner (get_or tenant default_tenant) identity owner granted_by now db.agent_owners;
}

unfoldable pub unassign : Tables → Option String → String → String → Tables × Bool
unassign db tenant identity owner =
    let matches = is_owner_row (get_or tenant default_tenant) identity owner in
    (
      record db { agent_owners = delete matches db.agent_owners },
      ltb 0 (count matches db.agent_owners),
    )
