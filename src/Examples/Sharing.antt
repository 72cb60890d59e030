-- ===== src/Examples/Sharing.antt =====
-- A limiter of one request a second, with buckets that live for a second, under requests of one
-- tenant that come between the two sections of each other.
use ingestkit.Prelude.{ℕ, All, ◌++◌, some, ◌≡◌, refl, List, [], ◌∷◌, codes, bytes_eq, ◌+ℤ◌, ◌-ℤ◌}
use ingestkit.Prelude.Assoc.{lookup, insert}
use ingestkit.Api.RateLimit.{nano, bucket_for, refill, take_token, is_stale}
use ingestkit.Api.RateLimit.Interleaved.{
  Move, finds, takes, cleans, granted_from, new_shared, bucket_at, set_at, find_bucket, take_from,
  is_stale_at, evict_entries, clean_up, waiting_at, without, move, grants,
}
use ingestkit.Api.RateLimit.Interleaved.Owners.{
  reached, reached_later, owner_at, OwnedBy, TakesOnly, find_bucket-own,
}

-- A request at the start; a second and a half later another one has found the bucket when a cleanup
-- takes it out of the map, and a third one makes a new bucket; then both take.
abbrev raced : List Move
raced =
    finds (codes "acme") 0
    ∷ takes 0
    ∷ finds (codes "acme") 1_500_000_000
    ∷ cleans 1_500_000_000
    ∷ finds (codes "acme") 1_500_000_000
    ∷ takes 0
    ∷ takes 0
    ∷ []

-- The two buckets together grant the tenant three requests in a second and a half.
old_bucket_grants : granted_from 0 (new_shared 1 nano) raced ≡ 2
unfolding bucket_at set_at find_bucket take_from is_stale_at evict_entries clean_up waiting_at
    without move grants lookup insert bytes_eq bucket_for refill take_token is_stale ◌+ℤ◌ ◌-ℤ◌
old_bucket_grants = refl

new_bucket_grants : granted_from 1 (new_shared 1 nano) raced ≡ 1
unfolding bucket_at set_at find_bucket take_from is_stale_at evict_entries clean_up waiting_at
    without move grants lookup insert bytes_eq bucket_for refill take_token is_stale ◌+ℤ◌ ◌-ℤ◌
new_bucket_grants = refl

-- A request that has found its bucket when a cleanup takes it out of the map, and one of another
-- tenant makes a new one.
find_bucket-own_example :
    (address : ℕ) × ((find_bucket (codes "acme") 3_000_000_000 (reached 1 nano raced).0).waiting
      ≡ (reached 1 nano raced).0.waiting ++ (address, 3_000_000_000) ∷ [])
    × (owner_at
          (reached_later 1 nano raced
            (codes "acme")
            3_000_000_000
            (cleans 5_000_000_000 ∷ finds (codes "umbrella") 5_000_000_000 ∷ [])).1
          address
        ≡ some (codes "acme"))
    × TakesOnly address 3_000_000_000
        (reached_later 1 nano raced
          (codes "acme")
          3_000_000_000
          (cleans 5_000_000_000 ∷ finds (codes "umbrella") 5_000_000_000 ∷ [])).0
    × All
        (OwnedBy
          (reached_later 1 nano raced
            (codes "acme")
            3_000_000_000
            (cleans 5_000_000_000 ∷ finds (codes "umbrella") 5_000_000_000 ∷ [])).1)
        (reached_later 1 nano raced
          (codes "acme")
          3_000_000_000
          (cleans 5_000_000_000 ∷ finds (codes "umbrella") 5_000_000_000 ∷ [])).0.entries
find_bucket-own_example =
    find_bucket-own 1 nano raced (codes "acme") 3_000_000_000
      (cleans 5_000_000_000 ∷ finds (codes "umbrella") 5_000_000_000 ∷ [])
