-- ===== src/Hub/Refusals/Counts.antt =====
-- The counters count.
use agent_mesh_platform.Hub.Refusals.{CounterKey, key_eq, record_refusal}
use agent_mesh_platform.Base.Map.{get, get-put}
use agent_mesh_platform.Base.{
  if◌then◌else◌, ◌==◌, string_eq, nat_eq, count, get_or, ℕ, ◌+◌, ◌≡◌, List, [], ◌∷◌, arith,
}

pub record_all : List (CounterKey × ℕ) → List CounterKey → List (CounterKey × ℕ)
record_all counts [] = counts
record_all counts (k ∷ ks) = record_all (record_refusal counts k.kind k.reason) ks

get-record_refusal :
    (counts : List (CounterKey × ℕ)) (j k : CounterKey)
    → get_or (get k (record_refusal counts j.kind j.reason)) 0
      ≡ (if j == k then 1 else 0) + get_or (get k counts) 0
unfolding record_refusal
get-record_refusal counts j k = ground (arith, get-put j k (get_or (get j counts) 0 + 1) counts)

-- A counter that is read after any refusals holds what it held before and one for each refusal of its
-- kind and reason since; a refusal moves no other counter.
pub record_refusal_counts :
    (counts : List (CounterKey × ℕ)) (ks : List CounterKey) (k : CounterKey)
    → get_or (get k (record_all counts ks)) 0 ≡ count (λ j. j == k) ks + get_or (get k counts) 0
unfolding record_all count
record_refusal_counts counts [] k = ground arith
record_refusal_counts counts (j ∷ ks) k = ground (
  arith,
  record_refusal_counts (record_refusal counts j.kind j.reason) ks k,
  get-record_refusal counts j k,
)
