-- ===== src/Hub/Ownership.antt =====
-- packages/hub/src/connection-ownership.ts: the first connection of an identity owns it until it
-- closes. A socket is a number, for the identity of the object; a `WeakMap` is a map.
pub mod Incumbent
pub mod Generations
mod Tests
use agent_mesh_platform.Base.Map.{get, put, drop}
use agent_mesh_platform.Base.{
  if◌then◌else◌, ◌==◌, string_eq, nat_eq, ℕ, suc, String, Bool, false, Option, none, some, List, [],
}

pub record ConnectionOwnership : Type 0 where
  pub next_generation : ℕ
  pub generations : List (ℕ × ℕ)
  pub identities : List (ℕ × String)
  pub owners : List (String × ℕ)

pub data Claim : Type 0 where
  granted : (generation : ℕ) → Claim
  conflict : (incumbent_generation contender_generation : ℕ) → Claim

abbrev pub empty : ConnectionOwnership
empty = record { next_generation = 0; generations = []; identities = []; owners = [] }

-- `if (known)`, which a 0 fails.
abbrev known_generation : Option ℕ → Option ℕ
known_generation none = none
known_generation (some g) = if g == 0 then none else some g

unfoldable pub generation_of : ConnectionOwnership → ℕ → ConnectionOwnership × ℕ
generation_of o socket = elim (known_generation (get socket o.generations)) [
  | some known ↦ (o, known)
  | none ↦
      let generation = suc o.next_generation in
      (
        record o {
          next_generation = generation;
          generations = put socket generation o.generations;
        },
        generation,
      )
]

unfoldable pub owner : ConnectionOwnership → String → Option ℕ
owner o identity = get identity o.owners

-- An incumbent that is not the claiming socket.
abbrev pub rival : Option ℕ → ℕ → Option ℕ
rival none socket = none
rival (some incumbent) socket = if incumbent == socket then none else some incumbent

unfoldable pub claim : ConnectionOwnership → String → ℕ → ConnectionOwnership × Claim
claim o identity socket =
    let (o', contender) = generation_of o socket in
    elim (rival (owner o' identity) socket) [
      | some incumbent ↦
          let (o'', generation) = generation_of o' incumbent in (o'', conflict generation contender)
      | none ↦ (
        record o' {
          owners = put identity socket o'.owners;
          identities = put socket identity o'.identities;
        },
        granted contender,
      )
    ]

pub record Release : Type 0 where
  pub identity : String
  pub was_owner : Bool

-- `this.owners.get(identity) === socket`.
abbrev pub owns : Option ℕ → ℕ → Bool
owns none socket = false
owns (some s) socket = s == socket

-- `if (!identity) return null`, which the empty string meets.
abbrev pub named : Option String → Option String
named none = none
named (some identity) = if identity == "" then none else some identity

unfoldable pub release : ConnectionOwnership → ℕ → ConnectionOwnership × Option Release
release o socket = elim (named (get socket o.identities)) [
  | none ↦ (o, none)
  | some identity ↦
      let was_owner = owns (owner o identity) socket in
      (
        record o {
          owners = if was_owner then drop identity o.owners else o.owners;
          identities = drop socket o.identities;
        },
        some (record { identity = identity; was_owner = was_owner }),
      )
]
