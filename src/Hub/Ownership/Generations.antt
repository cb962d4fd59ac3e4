-- ===== src/Hub/Ownership/Generations.antt =====
-- The generations tell connections apart.
use agent_mesh_platform.Hub.Ownership.Incumbent.{
  Act, claims, releases, act, acts, owners-generation_of, claim-granted,
}
use agent_mesh_platform.Hub.Ownership.{
  ConnectionOwnership, conflict, empty, known_generation, generation_of, owner, rival, claim, named,
  release,
}
use agent_mesh_platform.Base.Map.{get, get-put}
use agent_mesh_platform.Base.{
  Option-cases, string_eq, nat_eq, ℕ, suc, ◌≤◌, ◌<◌, String, ◌≡◌, refl, sym, ap, ◌∙◌, ◌≢◌, inl, inr,
  Option, some, List, [], ◌∷◌, arith,
}

-- Every generation is between 1 and the last one drawn, and no two sockets share one.
pub record IsNumbered (o : ConnectionOwnership) : Type 0 where
  pub bounded : (s g : ℕ) → get s o.generations ≡ some g → (0 < g) × (g ≤ o.next_generation)
  pub distinct :
      (s s' g : ℕ) → get s o.generations ≡ some g → get s' o.generations ≡ some g → s ≡ s'

generation_of-IsNumbered :
    (o : ConnectionOwnership) (socket : ℕ) → IsNumbered o → IsNumbered (generation_of o socket).0
unfolding generation_of
generation_of-IsNumbered o socket v =
    elim (Option-cases (known_generation (get socket o.generations))) [
      | inl e ↦
          rw (e, generation_of)
            (record {
              bounded = λ s g h.
                  ground
                    (arith, get-put socket s (suc o.next_generation) o.generations, v.bounded s g);
              distinct = λ s s' g h h'. ground (
                arith,
                get-put socket s (suc o.next_generation) o.generations,
                get-put socket s' (suc o.next_generation) o.generations,
                v.bounded s g,
                v.bounded s' g,
                v.distinct s s' g,
              );
            })
      | inr (g, e) ↦ rw (e, generation_of) v
    ]

-- What stands in another field does not matter.
renamed-IsNumbered :
    (o o' : ConnectionOwnership)
    → o'.next_generation ≡ o.next_generation
    → o'.generations ≡ o.generations
    → IsNumbered o
    → IsNumbered o'
renamed-IsNumbered o o' n g v = record {
  bounded = λ s h e. ground (arith, v.bounded s h);
  distinct = λ s s' h e e'. ground (arith, v.distinct s s' h);
}

act-IsNumbered : (o : ConnectionOwnership) (a : Act) → IsNumbered o → IsNumbered (act o a)
unfolding act claim release owner
act-IsNumbered o (claims i s) v =
    elim (Option-cases (rival (get i (generation_of o s).0.owners) s)) [
      | inl e ↦
          rw (e, act, claim)
            (renamed-IsNumbered (generation_of o s).0 _ refl refl (generation_of-IsNumbered o s v))
      | inr (incumbent, e) ↦
          rw (e, act, claim)
            (generation_of-IsNumbered (generation_of o s).0 incumbent
              (generation_of-IsNumbered o s v))
    ]
act-IsNumbered o (releases s) v = elim (Option-cases (named (get s o.identities))) [
  | inl e ↦ rw (e, act, release) v
  | inr (i, e) ↦ rw (e, act, release) (renamed-IsNumbered o _ refl refl v)
]

acts-IsNumbered :
    (o : ConnectionOwnership) (as' : List Act) → IsNumbered o → IsNumbered (acts o as')
unfolding acts
acts-IsNumbered o [] v = v
acts-IsNumbered o (a ∷ as') v = acts-IsNumbered (act o a) as' (act-IsNumbered o a v)

drawn :
    (o : ConnectionOwnership) (s : ℕ)
    → get s (generation_of o s).0.generations ≡ some (generation_of o s).1
unfolding generation_of
drawn o s = elim (Option-cases (known_generation (get s o.generations))) [
  | inl e ↦
      rw (e, generation_of) (ground (arith, get-put s s (suc o.next_generation) o.generations))
  | inr (g, e) ↦ rw (e, generation_of) (ground arith)
]

-- A generation is kept.
generation-stays :
    (o : ConnectionOwnership) (s t g : ℕ)
    → IsNumbered o
    → get s o.generations ≡ some g
    → get s (generation_of o t).0.generations ≡ some g
unfolding generation_of
generation-stays o s t g v h = elim (Option-cases (known_generation (get t o.generations))) [
  | inl e ↦
      rw (e, generation_of)
        (ground (arith, get-put t s (suc o.next_generation) o.generations, v.bounded s g))
  | inr (k, e) ↦ rw (e, generation_of) h
]

empty-IsNumbered : IsNumbered empty
unfolding get
empty-IsNumbered = record {
  bounded = λ s g h. absurd (ground arith);
  distinct = λ s s' g h h'. absurd (ground arith);
}

rival_differs : (o : Option ℕ) (s t : ℕ) → rival o s ≡ some t → t ≢ s
rival_differs o s t h = ground arith

-- The generations of a conflict are those of the incumbent and of the contender.
conflict_generations :
    (o : ConnectionOwnership) (i : String) (s t theirs mine : ℕ)
    → rival (owner o i) s ≡ some t
    → (claim o i s).1 ≡ conflict theirs mine
    → (theirs ≡ (generation_of (generation_of o s).0 t).1) × (mine ≡ (generation_of o s).1)
unfolding claim owner
conflict_generations o i s t theirs mine r e =
    ground (arith, ap (get i) (owners-generation_of o s).0)

-- After any claims and releases, a claim that meets an incumbent reports two different generations:
-- a log that holds them tells the two connections apart.
pub conflict-distinct :
    (as' : List Act) (identity : String) (socket mine theirs : ℕ)
    → (claim (acts empty as') identity socket).1 ≡ conflict theirs mine
    → theirs ≢ mine
conflict-distinct as' identity socket mine theirs e same =
    elim (Option-cases (rival (owner o identity) socket)) [
      | inl r ↦ ground (arith, (claim-granted o identity socket r).0)
      | inr (t, r) ↦
          let (t_eq, m_eq) = conflict_generations o identity socket t theirs mine r e in
          let numbered = generation_of-IsNumbered o socket v in
          let o' = (generation_of o socket).0 in
          rival_differs _ socket t r (
            (generation_of-IsNumbered o' t numbered).distinct t socket theirs
              (drawn o' t ∙ sym (ap some t_eq))
              (generation-stays o' socket t theirs numbered
                (drawn o socket ∙ sym (ap some (same ∙ m_eq)))))
    ]
  where
    o : ConnectionOwnership
    o = acts empty as'

    v : IsNumbered o
    v = acts-IsNumbered empty as' empty-IsNumbered
