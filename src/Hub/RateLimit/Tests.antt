-- ===== src/Hub/RateLimit/Tests.antt =====
-- Runs of the theorems on a limit of one token, refilled once a minute.
use agent_mesh_platform.Hub.RateLimit.Bound.{Act, takes, sweeps, granted, finish, granted-le}
use agent_mesh_platform.Hub.RateLimit.Retry.{acts, take-retry_after}
use agent_mesh_platform.Hub.RateLimit.Level.{IsLimiter}
use agent_mesh_platform.Hub.RateLimit.{BucketConfig, RateLimiter, token, take}
use agent_mesh_platform.Base.Map.{get}
use agent_mesh_platform.Base.{
  String-discrete, string_eq, nat_eq, distinct, ◌+◌, ◌-◌, ◌*◌, ◌≤◌, ◌≡◌, refl, true, List, [], ◌∷◌,
  arith,
}

abbrev config : BucketConfig
config = record { capacity = 1; per_minute = 1 }

abbrev calls : List Act
calls =
    takes "a" 1 1000 ∷ takes "b" 1 1500 ∷ takes "a" 1 2000 ∷ sweeps 3000 ∷ takes "a" 1 61000 ∷ []

abbrev drained : RateLimiter
drained = record {
  config = config;
  buckets = ("a", record { tokens = 0; updated_at = 1000 }) ∷ [];
  refusals = 0;
}

drained-IsLimiter : IsLimiter drained 1000
unfolding get
drained-IsLimiter = record { keyed = (refl, tt); past = λ k b e. ground arith }

granted-le_example :
    granted (record { config = config; buckets = []; refusals = 0 }) "a" calls * token
    ≤ config.capacity * token + (finish 0 calls - 0) * config.per_minute
granted-le_example =
    granted-le config "a" 0 calls
      (omega arith, (omega arith, (omega arith, (omega arith, (omega arith, tt)))))

take-retry_after_example :
    (1 ≤ (take drained "a" 1 1000).1.retry_after)
    × ((take
          (acts (take drained "a" 1 1000).0 (takes "b" 1 2000 ∷ sweeps 3000 ∷ []))
          "a"
          1
          61000).1.ok
        ≡ true)
unfolding take get String-discrete finish
take-retry_after_example =
    take-retry_after drained "a" 1 1000 61000 (takes "b" 1 2000 ∷ sweeps 3000 ∷ [])
      drained-IsLimiter (omega arith) (omega arith) refl (omega arith, (omega arith, tt))
      (distinct "b" "a" refl, (tt, tt)) (omega arith) (omega arith)
