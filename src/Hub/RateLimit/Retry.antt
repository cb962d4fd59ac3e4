-- ===== src/Hub/RateLimit/Retry.antt =====
-- What a refusal promises, and what a sweep and another key change.
use native.Mathlib.Nat.{lt-div-mul-add, mul-le-mul_right}
use agent_mesh_platform.Hub.RateLimit.Level.{
  level_in, level, IsLimiter, refilled-level, take-level, sweep-level, take-IsLimiter,
}
use agent_mesh_platform.Hub.RateLimit.Bound.{
  Act, takes, sweeps, time, act, Ordered, finish, finish-le, act-IsLimiter,
}
use agent_mesh_platform.Hub.RateLimit.{RateLimiter, token, full, ceil_div, refilled, take, sweep}
use agent_mesh_platform.Base.Map.{get, get-put}
use agent_mesh_platform.Base.{
  leb, string_eq, nat_eq, Every, ℕ, ◌+◌, ◌-◌, ◌*◌, ◌≤◌, ◌<◌, min, max, String, ◌≡◌, refl, sym, ap,
  ◌∙◌, ◌≢◌, true, false, List, [], ◌∷◌, arith,
}

-- The quotient is rounded up.
ceil_div-le : (a b : ℕ) → 0 < b → a ≤ ceil_div a b * b
ceil_div-le a b h = omega (arith, rounded)
  where
    rounded : a + (b - 1) < ceil_div a b * b + b
    rounded = lt-div-mul-add h

refused-level :
    (l : RateLimiter) (key : String) (cost t later : ℕ)
    → (take l key cost t).1.ok ≡ false
    → (level (take l key cost t).0 key later
        ≡ min (full l.config) (level l key t + (later - t) * l.config.per_minute))
      × ((take l key cost t).1.retry_after
          ≡ max 1 (ceil_div (cost * token - level l key t) (1000 * l.config.per_minute)))
      × (level l key t < cost * token)
unfolding take
refused-level l key cost t later refused =
    ground (arith, refilled-level l key t, get-put key key (refilled l key t) l.buckets)

-- Enough time for the deficit.
waited :
    (x cost p t later after : ℕ)
    → 0 < p
    → after ≡ max 1 (ceil_div (cost - x) (1000 * p))
    → t + 1000 * after ≤ later
    → cost ≤ x + (later - t) * p
waited x cost p t later after h e w = omega (
  arith,
  ceil_div-le (cost - x) (1000 * p) (omega arith),
  mul-le-mul_right (1000 * p) longer,
  mul-le-mul_right p spent,
)
  where
    longer : ceil_div (cost - x) (1000 * p) ≤ after
    longer = ground arith

    spent : 1000 * after ≤ later - t
    spent = omega arith

take-config :
    (l : RateLimiter) (key : String) (cost t : ℕ) → (take l key cost t).0.config ≡ l.config
unfolding take
take-config l key cost t = ground arith

take-get :
    (l : RateLimiter) (other key : String) (cost t : ℕ)
    → other ≢ key
    → get key (take l other cost t).0.buckets ≡ get key l.buckets
unfolding take
take-get l other key cost t n = ground (
  arith,
  get-put other key (refilled l other t) l.buckets,
  get-put other key
      (record (refilled l other t) { tokens = (refilled l other t).tokens - cost * token })
      l.buckets,
)

take-level_other :
    (l : RateLimiter) (other key : String) (cost now t : ℕ)
    → other ≢ key
    → level (take l other cost now).0 key t ≡ level l key t
take-level_other l other key cost now t n =
    ap (λ c. level_in c (get key (take l other cost now).0.buckets) t)
      (take-config l other cost now)
    ∙ ap (λ b. level_in l.config b t) (take-get l other key cost now n)

-- The calls of a history, one after the other.
pub acts : RateLimiter → List Act → RateLimiter
acts l [] = l
acts l (a ∷ as') = acts (act l a) as'

-- A call for another key, or a sweep.
abbrev pub Spares : String → Act → Type 0
Spares key (takes other cost t) = other ≢ key
Spares key (sweeps t) = Unit

act-level :
    (l : RateLimiter) (a : Act) (key : String) (t later : ℕ)
    → IsLimiter l t
    → Spares key a
    → time a ≤ later
    → level (act l a) key later ≡ level l key later
unfolding act
act-level l (takes other cost now) key t later v n h = take-level_other l other key cost now later n
act-level l (sweeps now) key t later v n h = sweep-level l key now later v.keyed h

acts-level :
    (l : RateLimiter) (as' : List Act) (key : String) (t later : ℕ)
    → IsLimiter l t
    → Ordered t as'
    → Every (Spares key) as'
    → finish t as' ≤ later
    → level (acts l as') key later ≡ level l key later
unfolding acts finish
acts-level l [] key t later v o n h = refl
acts-level l (a ∷ as') key t later v o n h =
    acts-level (act l a) as' key (time a) later (act-IsLimiter l a t v o.0) o.1 n.1 h
    ∙ act-level l a key t later v n.0 (omega (arith, finish-le (time a) as' o.1, h))

-- A caller that is refused, for a cost that the bucket can hold, and comes back after `retry_after`
-- seconds is served, whatever calls for other keys and sweeps there are in between; a refusal never
-- says 0.
pub take-retry_after :
    (l : RateLimiter) (key : String) (cost t later : ℕ) (between : List Act)
    → IsLimiter l t
    → 0 < l.config.per_minute
    → cost ≤ l.config.capacity
    → (take l key cost t).1.ok ≡ false
    → Ordered t between
    → Every (Spares key) between
    → finish t between ≤ later
    → t + 1000 * (take l key cost t).1.retry_after ≤ later
    → (1 ≤ (take l key cost t).1.retry_after)
      × ((take (acts (take l key cost t).0 between) key cost later).1.ok ≡ true)
take-retry_after l key cost t later between v rate fits refused ordered spared done wait =
    let (grown, after, short) = refused-level l key cost t later refused in
    let enough =
      waited (level l key t) (cost * token) l.config.per_minute t later _ rate after wait in
    let kept =
      acts-level (take l key cost t).0 between key t later
        (take-IsLimiter l key cost t t v (omega arith)) ordered spared done in
    (
      ground arith,
      (take-level (acts (take l key cost t).0 between) key key cost later).0
          ∙ ap (leb (cost * token)) kept
          ∙ served grown enough,
    )
  where
    served :
        level (take l key cost t).0 key later
          ≡ min (full l.config) (level l key t + (later - t) * l.config.per_minute)
        → cost * token ≤ level l key t + (later - t) * l.config.per_minute
        → leb (cost * token) (level (take l key cost t).0 key later) ≡ true
    served grown enough = ground arith

-- A sweep changes no later answer, and a call for one key none for another.
pub sweep-take :
    (l : RateLimiter) (key other : String) (cost cost' now t : ℕ)
    → IsLimiter l now
    → now ≤ t
    → ((take (sweep l now).0 key cost t).1.ok ≡ (take l key cost t).1.ok)
      × (other ≢ key → (take (take l other cost' now).0 key cost t).1.ok ≡ (take l key cost t).1.ok)
sweep-take l key other cost cost' now t v h = (
  (take-level (sweep l now).0 key key cost t).0
      ∙ ap (leb (cost * token)) (sweep-level l key now t v.keyed h)
      ∙ sym (take-level l key key cost t).0,
  λ n.
      (take-level (take l other cost' now).0 key key cost t).0
      ∙ ap (leb (cost * token)) (same_level n)
      ∙ sym (take-level l key key cost t).0,
)
  where
    same_level : other ≢ key → level (take l other cost' now).0 key t ≡ level l key t
    same_level n = take-level_other l other key cost' now t n
