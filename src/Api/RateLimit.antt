-- ===== src/Api/RateLimit.antt =====
-- internal/api/middleware/ratelimit.go: a token bucket for each tenant. Times are nanoseconds, and
-- `tokens` (a float64 in the source) counts 10⁻⁹ tokens: a refill does not round here, as it may there.
-- A request is one step here, which leaves out a cleanup or another request between the two critical
-- sections of `allow`; Interleaved takes them apart.
pub mod Interleaved
use ingestkit.Prelude.{
  ℕ, ◌+◌, ◌*◌, ◌/◌, Bool, true, false, Option, none, some, List, [], ◌∷◌, Bytes, ℤ, pos, pos_part,
  neg_part, sub_ℕ, ◌+ℤ◌, ◌-ℤ◌, leb_ℤ, ltb, not, if◌then◌else◌,
}
use ingestkit.Prelude.Assoc.{Assoc, lookup, insert}

-- Nanoseconds in a second, and units in a token.
abbrev pub nano : ℕ
nano = 1_000_000_000

pub record Bucket : Type 0 where
  pub tokens : ℤ
  pub last_update : ℕ
  pub last_access : ℕ

pub record RateLimiter : Type 0 where
  pub limiters : Assoc Bucket
  pub rps : ℕ
  pub bucket_ttl : ℕ

unfoldable pub new_rate_limiter_with_ttl : ℕ → ℕ → RateLimiter
new_rate_limiter_with_ttl requests_per_second bucket_ttl = record {
  limiters = [];
  rps = requests_per_second;
  bucket_ttl = bucket_ttl;
}

unfoldable pub new_rate_limiter : ℕ → RateLimiter
unfolding new_rate_limiter_with_ttl
new_rate_limiter requests_per_second = new_rate_limiter_with_ttl requests_per_second (300 * nano)

abbrev pub full : ℕ → ℤ
full rps = pos (rps * nano)

-- The bucket that a tenant has, or a new one with every token.
unfoldable pub bucket_for : ℕ → ℕ → Option Bucket → Bucket
bucket_for rps now none = record { tokens = full rps; last_update = now; last_access = now }
bucket_for rps now (some b) = b

-- `b.tokens += elapsed * rps`, capped at `rps` tokens. `elapsed` may be negative.
unfoldable pub refill : ℕ → ℕ → Bucket → ℤ
refill rps now b =
    let t = b.tokens +ℤ sub_ℕ (now * rps) (b.last_update * rps) in
    if leb_ℤ t (full rps) then t else full rps

-- The critical section on one bucket: the reply (allowed, remaining) and the bucket after it.
unfoldable pub take_token : ℕ → ℕ → Bucket → (Bool × ℕ) × Bucket
take_token rps now b =
    let t = refill rps now b in
    if leb_ℤ (pos nano) t
    then (
      (true, pos_part (t -ℤ pos nano) / nano),
      record { tokens = t -ℤ pos nano; last_update = now; last_access = now },
    )
    else ((false, 0), record { tokens = t; last_update = now; last_access = now })

-- The reply is (allowed, limit, remaining).
unfoldable pub allow : RateLimiter → Bytes → ℕ → (Bool × ℕ × ℕ) × RateLimiter
allow rl tenant now =
    let (reply, b) = take_token rl.rps now (bucket_for rl.rps now (lookup tenant rl.limiters)) in
    ((reply.0, rl.rps, reply.1), record rl { limiters = insert tenant b rl.limiters })

-- `idle > rl.bucketTTL`
unfoldable pub is_stale : ℕ → ℕ → Bucket → Bool
is_stale ttl now b = ltb (b.last_access + ttl) now
