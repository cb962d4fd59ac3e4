-- ===== src/Hub/Ownership/Incumbent.antt =====
-- A contender never replaces an owner.
use agent_mesh_platform.Hub.Ownership.{
  ConnectionOwnership, granted, generation_of, owner, rival, claim, named, release,
}
use agent_mesh_platform.Base.Map.{get, put, drop, get-put, get-drop}
use agent_mesh_platform.Base.{
  Option-cases, string_eq, nat_eq, Every, ℕ, String, ◌≡◌, refl, ap, ◌∙◌, ◌≢◌, inl, inr, true,
  Option, none, some, List, [], ◌∷◌, arith,
}

pub data Act : Type 0 where
  claims : (identity : String) (socket : ℕ) → Act
  releases : (socket : ℕ) → Act

unfoldable pub act : ConnectionOwnership → Act → ConnectionOwnership
act o (claims identity socket) = (claim o identity socket).0
act o (releases socket) = (release o socket).0

unfoldable pub acts : ConnectionOwnership → List Act → ConnectionOwnership
acts o [] = o
acts o (a ∷ as') = acts (act o a) as'

-- An act that is not the close of a socket.
abbrev pub Open : ℕ → Act → Type 0
Open socket (claims _ _) = Unit
Open socket (releases s) = s ≢ socket

pub owners-generation_of :
    (o : ConnectionOwnership) (socket : ℕ)
    → ((generation_of o socket).0.owners ≡ o.owners)
      × ((generation_of o socket).0.identities ≡ o.identities)
unfolding generation_of
owners-generation_of o socket = ground arith

-- A claim without a rival.
pub claim-granted :
    (o : ConnectionOwnership) (identity : String) (socket : ℕ)
    → rival (owner o identity) socket ≡ none
    → ((h : ℕ) × ((claim o identity socket).1 ≡ granted h))
      × ((claim o identity socket).0.owners ≡ put identity socket o.owners)
      × ((claim o identity socket).0.identities ≡ put socket identity o.identities)
unfolding owner claim
claim-granted o identity socket r =
    rw (ap (get identity) (owners-generation_of o socket).0, r, claim)
      (
        (_, refl),
        ap (put identity socket) (owners-generation_of o socket).0,
        ap (put socket identity) (owners-generation_of o socket).1,
      )

-- A claim against one.
claim-conflict :
    (o : ConnectionOwnership) (identity : String) (socket incumbent : ℕ)
    → rival (owner o identity) socket ≡ some incumbent
    → ((h : ℕ) → (claim o identity socket).1 ≢ granted h)
      × ((claim o identity socket).0.owners ≡ o.owners)
unfolding owner claim
claim-conflict o identity socket incumbent r =
    rw (ap (get identity) (owners-generation_of o socket).0, r, claim)
      (
        λ h e. ground arith,
        (owners-generation_of (generation_of o socket).0 incumbent).0
            ∙ (owners-generation_of o socket).0,
      )

owner-act :
    (o : ConnectionOwnership) (a : Act) (identity : String) (socket : ℕ)
    → Open socket a
    → owner o identity ≡ some socket
    → owner (act o a) identity ≡ some socket
unfolding act release owner
owner-act o (claims i s) identity socket p e = elim (Option-cases (rival (owner o i) s)) [
  | inl r ↦
      ap (get identity) (claim-granted o i s r).1 ∙ ground (arith, get-put i identity s o.owners)
  | inr (incumbent, r) ↦ ap (get identity) (claim-conflict o i s incumbent r).1 ∙ e
]
owner-act o (releases s) identity socket p e = elim (Option-cases (named (get s o.identities))) [
  | inl r ↦ rw (r, act, release) e
  | inr (i, r) ↦ rw (r, act, release) (ground (arith, get-drop i identity o.owners))
]

owner-acts :
    (o : ConnectionOwnership) (as' : List Act) (identity : String) (socket : ℕ)
    → Every (Open socket) as'
    → owner o identity ≡ some socket
    → owner (acts o as') identity ≡ some socket
unfolding acts
owner-acts o [] identity socket p e = e
owner-acts o (a ∷ as') identity socket p e =
    owner-acts (act o a) as' identity socket p.1 (owner-act o a identity socket p.0 e)

owner-claim :
    (o : ConnectionOwnership) (identity : String) (socket g : ℕ)
    → (claim o identity socket).1 ≡ granted g
    → ((claim o identity socket).0.owners ≡ put identity socket o.owners)
      × ((claim o identity socket).0.identities ≡ put socket identity o.identities)
owner-claim o identity socket g e = elim (Option-cases (rival (owner o identity) socket)) [
  | inl r ↦ ((claim-granted o identity socket r).1, (claim-granted o identity socket r).2)
  | inr (incumbent, r) ↦ absurd ((claim-conflict o identity socket incumbent r).0 g e)
]

own_claim :
    (o : ConnectionOwnership) (identity : String) (socket g : ℕ)
    → (claim o identity socket).1 ≡ granted g
    → owner (claim o identity socket).0 identity ≡ some socket
unfolding owner
own_claim o identity socket g e =
    ap (get identity) (owner-claim o identity socket g e).0
    ∙ ground (arith, get-put identity identity socket o.owners)

rival_other :
    (o : Option ℕ) (socket other : ℕ)
    → o ≡ some socket
    → other ≢ socket
    → rival o other ≡ some socket
rival_other o socket other e n = ground arith

-- An identity that is claimed stays with its socket until that socket is released, whatever is
-- claimed and released in between, and the claim of any other socket is answered with a conflict.
pub claim-exclusive :
    (o : ConnectionOwnership) (as' : List Act) (identity : String) (socket other : ℕ) (g : ℕ)
    → (claim o identity socket).1 ≡ granted g
    → Every (Open socket) as'
    → other ≢ socket
    → let o' = acts (claim o identity socket).0 as' in
      (owner o' identity ≡ some socket)
      × ((h : ℕ) → (claim o' identity other).1 ≢ granted h)
      × (owner (claim o' identity other).0 identity ≡ some socket)
unfolding owner
claim-exclusive o as' identity socket other g e p n =
    let held =
      owner-acts (claim o identity socket).0 as' identity socket p
        (own_claim o identity socket g e) in
    let (refused, same) =
      claim-conflict (acts (claim o identity socket).0 as') identity other socket
        (rival_other _ socket other held n) in
    (held, refused, kept_owner same held)
  where
    kept_owner :
        (claim (acts (claim o identity socket).0 as') identity other).0.owners
          ≡ (acts (claim o identity socket).0 as').owners
        → owner (acts (claim o identity socket).0 as') identity ≡ some socket
        → owner (claim (acts (claim o identity socket).0 as') identity other).0 identity
          ≡ some socket
    kept_owner same held = ap (get identity) same ∙ held

release-owned :
    (o : ConnectionOwnership) (identity : String) (socket : ℕ)
    → identity ≢ ""
    → get socket o.identities ≡ some identity
    → owner o identity ≡ some socket
    → ((release o socket).1 ≡ some (record { identity = identity; was_owner = true }))
      × ((release o socket).0.owners ≡ drop identity o.owners)
unfolding owner release
release-owned o identity socket n e held = ground arith

-- A socket that claimed an identity gives it back when it closes, and the next one is granted it.
pub release-claim :
    (o : ConnectionOwnership) (identity : String) (socket next g : ℕ)
    → identity ≢ ""
    → (claim o identity socket).1 ≡ granted g
    → let (o', answer) = release (claim o identity socket).0 socket in
      (answer ≡ some (record { identity = identity; was_owner = true }))
      × (owner o' identity ≡ none)
      × ((h : ℕ) × ((claim o' identity next).1 ≡ granted h))
unfolding owner
release-claim o identity socket next g n e =
    let o' = (claim o identity socket).0 in
    let named_so : get socket o'.identities ≡ some identity =
      ap (get socket) (owner-claim o identity socket g e).1
      ∙ ground (arith, get-put socket socket identity o.identities) in
    let (answer, dropped) =
      release-owned o' identity socket n named_so (own_claim o identity socket g e) in
    let gone : owner (release o' socket).0 identity ≡ none =
      ap (get identity) dropped ∙ ground (arith, get-drop identity identity o'.owners) in
    (
      answer,
      gone,
      (claim-granted (release o' socket).0 identity next (ap (λ w. rival w next) gone)).0,
    )

-- A socket that claims a second identity gives back only that one when it closes: the first stays owned
-- by the closed socket, and no other socket is granted it.
pub release-claim_twice :
    (o : ConnectionOwnership) (identity second : String) (socket other g h : ℕ)
    → identity ≢ second
    → second ≢ ""
    → (claim o identity socket).1 ≡ granted g
    → (claim (claim o identity socket).0 second socket).1 ≡ granted h
    → other ≢ socket
    → let o' = (release (claim (claim o identity socket).0 second socket).0 socket).0 in
      (owner o' identity ≡ some socket) × ((k : ℕ) → (claim o' identity other).1 ≢ granted k)
unfolding owner
release-claim_twice o identity second socket other g h n s e e' x =
    let o1 = (claim o identity socket).0 in
    let o2 = (claim o1 second socket).0 in
    let named_so : get socket o2.identities ≡ some second =
      ap (get socket) (owner-claim o1 second socket h e').1
      ∙ ground (arith, get-put socket socket second o1.identities) in
    let (_, dropped) =
      release-owned o2 second socket s named_so (own_claim o1 second socket h e') in
    let stays : owner (release o2 socket).0 identity ≡ some socket =
      ap (get identity) (dropped ∙ ap (drop second) (owner-claim o1 second socket h e').0)
      ∙ ground (
        arith,
        get-drop second identity (put second socket o1.owners),
        get-put second identity socket o1.owners,
        own_claim o identity socket g e,
      ) in
    (
      stays,
      (claim-conflict (release o2 socket).0 identity other socket
          (rival_other _ socket other stays x)).0,
    )
