-- ===== src/Hub/RateLimit.antt =====
-- packages/hub/src/ratelimit.ts: token buckets. A time is a number of milliseconds. Both limiters of
-- the hub refill `per_minute / 60` tokens a second, so a bucket counts in sixty-thousandths of a token,
-- in which a millisecond adds `per_minute`: exactly what the code computes, less the rounding of its
-- floating-point numbers.
pub mod Level
pub mod Bound
pub mod Retry
mod Tests
use agent_mesh_platform.Base.Map.{get, put, keep}
use agent_mesh_platform.Base.{
  ltb, leb, if◌then◌else◌, string_eq, nat_eq, length, count, get_or, ℕ, suc, ◌+◌, ◌-◌, ◌*◌, ◌/◌,
  min, max, String, Bool, true, false, not, List,
}

-- `refillPerSecond` is `per_minute / 60`.
pub record BucketConfig : Type 0 where
  pub capacity : ℕ
  pub per_minute : ℕ

pub record Decision : Type 0 where
  pub ok : Bool
  pub retry_after : ℕ
  pub remaining : ℕ

pub record Bucket : Type 0 where
  pub tokens : ℕ
  pub updated_at : ℕ

pub record RateLimiter : Type 0 where
  pub config : BucketConfig
  pub buckets : List (String × Bucket)
  pub refusals : ℕ

-- A token, in the unit of a bucket.
abbrev pub token : ℕ
token = 60000

abbrev pub full : BucketConfig → ℕ
full c = c.capacity * token

-- What `elapsed * refillPerSecond` adds: nothing, where the clock went back.
abbrev pub gain : BucketConfig → ℕ → ℕ → ℕ
gain c updated_at t = (t - updated_at) * c.per_minute

-- `Math.ceil(a / b)`.
abbrev pub ceil_div : ℕ → ℕ → ℕ
ceil_div a b = (a + (b - 1)) / b

abbrev pub bucket_of : RateLimiter → String → ℕ → Bucket
bucket_of l key t = get_or (get key l.buckets) (record { tokens = full l.config; updated_at = t })

-- The bucket after the refill.
abbrev pub refilled : RateLimiter → String → ℕ → Bucket
refilled l key t =
    let b = bucket_of l key t in
    record {
      tokens = min (full l.config) (b.tokens + gain l.config b.updated_at t);
      updated_at = t;
    }

unfoldable pub take : RateLimiter → String → ℕ → ℕ → RateLimiter × Decision
take l key cost t =
    let b = refilled l key t in
    if leb (cost * token) b.tokens
    then (
      record l { buckets = put key (record b { tokens = b.tokens - cost * token }) l.buckets },
      record { ok = true; retry_after = 0; remaining = (b.tokens - cost * token) / token },
    )
    else (
      record l { buckets = put key b l.buckets; refusals = suc l.refusals },
      record {
        ok = false;
        retry_after = max 1 (ceil_div (cost * token - b.tokens) (1000 * l.config.per_minute));
        remaining = 0;
      },
    )

-- `t - b.updatedAt > full`, with both sides times the rate.
abbrev pub is_stale : BucketConfig → ℕ → Bucket → Bool
is_stale c t b = ltb (full c) (gain c b.updated_at t)

-- The limiter, and how many buckets it dropped.
unfoldable pub sweep : RateLimiter → ℕ → RateLimiter × ℕ
sweep l t = (
  record l { buckets = keep (λ _ b. not (is_stale l.config t b)) l.buckets },
  count (λ kb. is_stale l.config t kb.1) l.buckets,
)

pub size : RateLimiter → ℕ
size l = length l.buckets

pub record Stats : Type 0 where
  pub refusals : ℕ
  pub keys : ℕ
  pub capacity : ℕ
  pub per_minute : ℕ

pub stats : RateLimiter → Stats
stats l = record {
  refusals = l.refusals;
  keys = length l.buckets;
  capacity = l.config.capacity;
  per_minute = l.config.per_minute;
}
