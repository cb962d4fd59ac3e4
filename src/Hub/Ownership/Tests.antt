-- ===== src/Hub/Ownership/Tests.antt =====
-- Runs of the theorems on two sockets.
use agent_mesh_platform.Hub.Ownership.Incumbent.{claims, releases, acts, claim-exclusive}
use agent_mesh_platform.Hub.Ownership.Generations.{}
use agent_mesh_platform.Hub.Ownership.{granted, empty, generation_of, owner, claim}
use agent_mesh_platform.Base.Map.{get}
use agent_mesh_platform.Base.{string_eq, nat_eq, ℕ, ◌≡◌, refl, ◌≢◌, some, [], ◌∷◌, arith}

claim-exclusive_example :
    let o' = acts (claim empty "lane" 7).0 (claims "lane" 8 ∷ releases 8 ∷ []) in
    (owner o' "lane" ≡ some 7)
    × ((h : ℕ) → (claim o' "lane" 9).1 ≢ granted h)
    × (owner (claim o' "lane" 9).0 "lane" ≡ some 7)
unfolding claim generation_of owner get
claim-exclusive_example =
    claim-exclusive empty (claims "lane" 8 ∷ releases 8 ∷ []) "lane" 7 9 1 refl
      (tt, ((λ e. omega arith), tt)) (λ e. omega arith)
