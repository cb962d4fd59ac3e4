-- ===== src/Hub/RateLimit/Bound.antt =====
-- What a key is given over any history of calls.
use agent_mesh_platform.Hub.RateLimit.Level.{
  level, IsLimiter, split_difference, take-level, sweep-level, level-later, take-IsLimiter,
  sweep-IsLimiter,
}
use agent_mesh_platform.Hub.RateLimit.{BucketConfig, RateLimiter, token, take, sweep}
use agent_mesh_platform.Base.Map.{get}
use agent_mesh_platform.Base.{
  if◌then◌else◌, ◌==◌, string_eq, nat_eq, ℕ, ◌+◌, ◌-◌, ◌*◌, ◌≤◌, String, ◌≡◌, refl, ap, ◌∙◌, subst,
  ◌&&◌, List, [], ◌∷◌, arith,
}

pub data Act : Type 0 where
  takes : (key : String) (cost t : ℕ) → Act
  sweeps : (t : ℕ) → Act

abbrev pub time : Act → ℕ
time (takes _ _ t) = t
time (sweeps t) = t

unfoldable pub act : RateLimiter → Act → RateLimiter
act l (takes key cost t) = (take l key cost t).0
act l (sweeps t) = (sweep l t).0

-- What one call gives a key.
pub given : RateLimiter → String → Act → ℕ
given l k (takes key cost t) = if key == k && (take l key cost t).1.ok then cost else 0
given l k (sweeps t) = 0

-- What the calls of a history give a key in all.
pub granted : RateLimiter → String → List Act → ℕ
granted l k [] = 0
granted l k (a ∷ as') = given l k a + granted (act l a) k as'

-- The calls of a history come in the order of the clock.
abbrev pub Ordered : ℕ → List Act → Type 0
Ordered t [] = Unit
Ordered t (a ∷ as') = (t ≤ time a) × Ordered (time a) as'

unfoldable pub finish : ℕ → List Act → ℕ
finish t [] = t
finish t (a ∷ as') = finish (time a) as'

pub finish-le : (t : ℕ) (as' : List Act) → Ordered t as' → t ≤ finish t as'
unfolding finish
finish-le t [] o = omega arith
finish-le t (a ∷ as') o = ground (arith, finish-le (time a) as' o.1)

act-config : (l : RateLimiter) (a : Act) → (act l a).config ≡ l.config
unfolding act take sweep
act-config l (takes key cost t) = ground arith
act-config l (sweeps t) = refl

pub act-IsLimiter :
    (l : RateLimiter) (a : Act) (t : ℕ) → IsLimiter l t → t ≤ time a → IsLimiter (act l a) (time a)
unfolding act
act-IsLimiter l (takes key cost t') t v h = take-IsLimiter l key cost t t' v h
act-IsLimiter l (sweeps t') t v h = sweep-IsLimiter l t t' v h

-- A call pays for what it gives out of the level.
given-level :
    (l : RateLimiter) (k : String) (a : Act) (t : ℕ)
    → IsLimiter l t
    → t ≤ time a
    → given l k a * token + level (act l a) k (time a) ≤ level l k (time a)
unfolding act given
given-level l k (takes key cost t') t v h = ground (arith, take-level l key k cost t')
given-level l k (sweeps t') t v h = ground (arith, sweep-level l k t' t' v.keyed)

refill_adds : (u t t' p : ℕ) → u ≤ t → t ≤ t' → (t - u) * p + (t' - t) * p ≡ (t' - u) * p
refill_adds u t t' p h h' =
    subst (λ (d : ℕ). (t - u) * p + (t' - t) * p ≡ d * p) (split_difference u t t' h h')
      (omega arith)

combine :
    (g r before refreshed after m n mn : ℕ)
    → g * token + after ≤ refreshed
    → r * token ≤ after + n
    → refreshed ≤ before + m
    → m + n ≡ mn
    → (g + r) * token ≤ before + mn
combine g r before refreshed after m n mn paid rest grown total = omega arith

granted-level :
    (l : RateLimiter) (k : String) (p t : ℕ) (as' : List Act)
    → IsLimiter l t
    → Ordered t as'
    → l.config.per_minute ≡ p
    → granted l k as' * token ≤ level l k t + (finish t as' - t) * p
unfolding granted finish
granted-level l k p t [] v o e = omega arith
granted-level l k p t (a ∷ as') v o e =
    combine (given l k a) (granted (act l a) k as') (level l k t) (level l k (time a))
      (level (act l a) k (time a)) ((time a - t) * p) ((last - time a) * p) ((last - t) * p)
      (given-level l k a t v o.0)
      (granted-level (act l a) k p (time a) as' (act-IsLimiter l a t v o.0) o.1
        (ap (λ (c : BucketConfig). c.per_minute) (act-config l a) ∙ e))
      (subst (λ q. level l k (time a) ≤ level l k t + (time a - t) * q) e
        (level-later l k t (time a) v o.0))
      (refill_adds t (time a) last p o.0 (finish-le (time a) as' o.1))
  where
    last : ℕ
    last = finish (time a) as'

-- Whatever the calls, for whatever keys, and whenever buckets are swept: what one key is given comes
-- to at most a full bucket and the refill of the time that the history takes.
pub granted-le :
    (c : BucketConfig) (k : String) (start : ℕ) (as' : List Act)
    → Ordered start as'
    → granted (record { config = c; buckets = []; refusals = 0 }) k as' * token
      ≤ c.capacity * token + (finish start as' - start) * c.per_minute
unfolding get
granted-le c k start as' o = ground (
  arith,
  granted-level (record { config = c; buckets = []; refusals = 0 }) k c.per_minute start as'
      (record { keyed = tt; past = λ j b e. absurd (ground arith) }) o refl,
)
