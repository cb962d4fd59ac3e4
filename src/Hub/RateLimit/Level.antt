-- ===== src/Hub/RateLimit/Level.antt =====
-- The level of a key: what its bucket would hold at a time.
use native.Mathlib.Nat.{mul-le-mul_right}
use agent_mesh_platform.Hub.RateLimit.{
  BucketConfig, Bucket, RateLimiter, token, full, gain, refilled, take, is_stale, sweep,
}
use agent_mesh_platform.Base.Map.{get, put, keep, IsMap, get-put, get-keep, put-IsMap, keep-IsMap}
use agent_mesh_platform.Base.{
  leb, if◌then◌else◌, Bool-cases, Option-cases, ◌==◌, string_eq, nat_eq, ℕ, suc, ◌+◌, ◌-◌, ◌*◌, ◌≤◌,
  min, String, ◌≡◌, refl, sym, subst, inl, inr, Bool, not, ◌&&◌, Option, none, some, List, arith,
}

abbrev pub level_in : BucketConfig → Option Bucket → ℕ → ℕ
level_in c none t = full c
level_in c (some b) t = min (full c) (b.tokens + gain c b.updated_at t)

abbrev pub level : RateLimiter → String → ℕ → ℕ
level l key t = level_in l.config (get key l.buckets) t

-- Keys stand once, and no bucket is from the future.
pub record IsLimiter (l : RateLimiter) (t : ℕ) : Type 0 where
  pub keyed : IsMap l.buckets
  pub past : (key : String) (b : Bucket) → get key l.buckets ≡ some b → b.updated_at ≤ t

pub refilled-level :
    (l : RateLimiter) (key : String) (t : ℕ) → (refilled l key t).tokens ≡ level l key t
refilled-level l key t = elim (Option-cases (get key l.buckets)) [
  | inl e ↦ rw e (ground arith)
  | inr (b, e) ↦ rw e refl
]

sub_self : (t : ℕ) → t - t ≡ 0
sub_self t = omega arith

pub split_difference : (u t t' : ℕ) → u ≤ t → t ≤ t' → (t - u) + (t' - t) ≡ t' - u
split_difference u t t' h h' = omega arith

difference_mono : (u t t' : ℕ) → t ≤ t' → t - u ≤ t' - u
difference_mono u t t' h = omega arith

gain-now : (c : BucketConfig) (t : ℕ) → gain c t t ≡ 0
gain-now c t = subst (λ (d : ℕ). d * c.per_minute ≡ 0) (sym (sub_self t)) (omega arith)

gain-later :
    (c : BucketConfig) (u t t' : ℕ)
    → u ≤ t
    → t ≤ t'
    → gain c u t' ≡ gain c u t + (t' - t) * c.per_minute
gain-later c u t t' h h' =
    subst (λ (d : ℕ). d * c.per_minute ≡ (t - u) * c.per_minute + (t' - t) * c.per_minute)
      (split_difference u t t' h h') (omega arith)

gain_mono : (c : BucketConfig) (u t t' : ℕ) → t ≤ t' → gain c u t ≤ gain c u t'
gain_mono c u t t' h = mul-le-mul_right c.per_minute (difference_mono u t t' h)

level_in-now :
    (c : BucketConfig) (tokens t : ℕ)
    → tokens ≤ full c
    → level_in c (some (record { tokens = tokens; updated_at = t })) t ≡ tokens
level_in-now c tokens t h = ground (arith, gain-now c t)

level-le : (l : RateLimiter) (key : String) (t : ℕ) → level l key t ≤ full l.config
level-le l key t = elim (Option-cases (get key l.buckets)) [
  | inl e ↦ rw e (omega arith)
  | inr (b, e) ↦ rw e (omega arith)
]

level-put :
    (l : RateLimiter) (key k : String) (tokens t : ℕ)
    → tokens ≤ full l.config
    → level
        (record l { buckets = put key (record { tokens = tokens; updated_at = t }) l.buckets })
        k
        t
      ≡ (if key == k then tokens else level l k t)
level-put l key k tokens t h = elim (Bool-cases (key == k)) [
  | inl same ↦
      rw (get-put key k (record { tokens = tokens; updated_at = t }) l.buckets, same)
        (level_in-now l.config tokens t h)
  | inr other ↦
      rw (get-put key k (record { tokens = tokens; updated_at = t }) l.buckets, other) refl
]

-- A take of a token succeeds exactly if the level reaches its cost; it lowers the level of its key
-- by the cost, and of no other.
pub take-level :
    (l : RateLimiter) (key k : String) (cost t : ℕ)
    → let (l', d) = take l key cost t in
      (d.ok ≡ leb (cost * token) (level l key t))
      × (level l' k t ≡ (if key == k && d.ok then level l key t - cost * token else level l k t))
unfolding take
take-level l key k cost t = ground (
  arith,
  refilled-level l key t,
  level-le l key t,
  level-put l key k (level l key t - cost * token) t,
  level-put l key k (level l key t) t,
)

-- A sweep changes no level, from then on.
pub sweep-level :
    (l : RateLimiter) (k : String) (now t : ℕ)
    → IsMap l.buckets
    → now ≤ t
    → level (sweep l now).0 k t ≡ level l k t
unfolding sweep
sweep-level l k now t v le = elim (Option-cases (get k l.buckets)) [
  | inl e ↦ rw (get-keep (λ _ b. not (is_stale l.config now b)) k l.buckets v, e) refl
  | inr (b, e) ↦
      rw (get-keep (λ _ b. not (is_stale l.config now b)) k l.buckets v, e)
        (ground (arith, gain_mono l.config b.updated_at now t le))
]

-- With the time a level grows by no more than the rate.
pub level-later :
    (l : RateLimiter) (k : String) (t t' : ℕ)
    → IsLimiter l t
    → t ≤ t'
    → level l k t' ≤ level l k t + (t' - t) * l.config.per_minute
level-later l k t t' v le = elim (Option-cases (get k l.buckets)) [
  | inl e ↦ rw e (omega arith)
  | inr (b, e) ↦ rw e (ground (arith, gain-later l.config b.updated_at t t' (v.past k b e) le))
]

past-put :
    (c : BucketConfig) (m : List (String × Bucket)) (key k : String) (tokens t t' : ℕ) (b : Bucket)
    → ((j : String) (d : Bucket) → get j m ≡ some d → d.updated_at ≤ t)
    → t ≤ t'
    → get k (put key (record { tokens = tokens; updated_at = t' }) m) ≡ some b
    → b.updated_at ≤ t'
past-put c m key k tokens t t' b past h e =
    ground (arith, get-put key k (record { tokens = tokens; updated_at = t' }) m, past k b)

put-IsLimiter :
    (l : RateLimiter) (key : String) (tokens refusals t t' : ℕ)
    → IsLimiter l t
    → t ≤ t'
    → IsLimiter
        (record l {
          buckets = put key (record { tokens = tokens; updated_at = t' }) l.buckets;
          refusals = refusals;
        })
        t'
put-IsLimiter l key tokens refusals t t' v h = record {
  keyed = put-IsMap key (record { tokens = tokens; updated_at = t' }) l.buckets v.keyed;
  past = λ k b e. past-put l.config l.buckets key k tokens t t' b v.past h e;
}

past-sweep :
    (p : String → Bucket → Bool) (m : List (String × Bucket)) (k : String) (t : ℕ) (b : Bucket)
    → IsMap m
    → ((j : String) (d : Bucket) → get j m ≡ some d → d.updated_at ≤ t)
    → get k (keep p m) ≡ some b
    → b.updated_at ≤ t
past-sweep p m k t b v past e = elim (Option-cases (get k m)) [
  | inl f ↦ absurd (ground (arith, get-keep p k m v))
  | inr (d, f) ↦ ground (arith, get-keep p k m v, past k d f)
]

pub take-IsLimiter :
    (l : RateLimiter) (key : String) (cost t t' : ℕ)
    → IsLimiter l t
    → t ≤ t'
    → IsLimiter (take l key cost t').0 t'
unfolding take
take-IsLimiter l key cost t t' v h =
    elim (Bool-cases (leb (cost * token) (refilled l key t').tokens)) [
      | inl enough ↦
          rw (enough, take)
            (put-IsLimiter l key ((refilled l key t').tokens - cost * token) l.refusals t t' v h)
      | inr short ↦
          rw (short, take)
            (put-IsLimiter l key (refilled l key t').tokens (suc l.refusals) t t' v h)
    ]

pub sweep-IsLimiter :
    (l : RateLimiter) (t t' : ℕ) → IsLimiter l t → t ≤ t' → IsLimiter (sweep l t').0 t'
unfolding sweep
sweep-IsLimiter l t t' v h = record {
  keyed = keep-IsMap (λ _ b. not (is_stale l.config t' b)) l.buckets v.keyed;
  past = λ k b e.
      ground
        (arith, past-sweep (λ _ d. not (is_stale l.config t' d)) l.buckets k t b v.keyed v.past e);
}
