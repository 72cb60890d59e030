-- ===== src/Api/RateLimit/Interleaved.antt =====
-- internal/api/middleware/ratelimit.go: the two critical sections of `allow` as steps of their own,
-- between which other requests and cleanups may come. Buckets are shared: a request that has found
-- its bucket keeps it, also if a cleanup takes it out of the map.
pub mod Owners
use ingestkit.Prelude.{
  ℕ, zero, suc, ◌+◌, Bool, false, ◌&&◌, Option, none, some, List, [], ◌∷◌, ◌++◌, Bytes, length,
  ◌==◌, if◌then◌else◌,
}
use ingestkit.Prelude.Assoc.{Assoc, lookup, insert}
use ingestkit.Api.RateLimit.{Bucket, bucket_for, take_token, is_stale}

-- The buckets that were ever made, by their addresses, the map from tenants to addresses, and the
-- requests between the two sections: the address that each has found, and when it came.
pub record Shared : Type 0 where
  pub buckets : List Bucket
  pub entries : Assoc ℕ
  pub waiting : List (ℕ × ℕ)
  pub rps : ℕ
  pub bucket_ttl : ℕ

unfoldable pub bucket_at : List Bucket → ℕ → Option Bucket
bucket_at [] a = none
bucket_at (b ∷ bs) zero = some b
bucket_at (b ∷ bs) (suc a) = bucket_at bs a

unfoldable pub set_at : ℕ → Bucket → List Bucket → List Bucket
set_at a c [] = []
set_at zero c (b ∷ bs) = c ∷ bs
set_at (suc a) c (b ∷ bs) = b ∷ set_at a c bs

-- The first section, under the lock of the limiter.
unfoldable pub find_bucket : Bytes → ℕ → Shared → Shared
find_bucket tenant now s = elim (lookup tenant s.entries) [
  | some a ↦ record s { waiting = s.waiting ++ (a, now) ∷ [] }
  | none ↦ record s {
    buckets = s.buckets ++ bucket_for s.rps now none ∷ [];
    entries = insert tenant (length s.buckets) s.entries;
    waiting = s.waiting ++ (length s.buckets, now) ∷ [];
  }
]

-- The second one, under the lock of the bucket.
unfoldable pub take_from : ℕ → ℕ → Shared → (Bool × ℕ) × Shared
take_from a now s = elim (bucket_at s.buckets a) [
  | none ↦ ((false, 0), s)
  | some b ↦
      let (reply, c) = take_token s.rps now b in
      (reply, record s { buckets = set_at a c s.buckets })
]

unfoldable pub is_stale_at : List Bucket → ℕ → ℕ → ℕ → Bool
is_stale_at buckets ttl now a = elim (bucket_at buckets a) [
  | none ↦ false
  | some b ↦ is_stale ttl now b
]

unfoldable pub evict_entries : List Bucket → ℕ → ℕ → Assoc ℕ → Assoc ℕ
evict_entries buckets ttl now [] = []
evict_entries buckets ttl now ((tenant, a) ∷ rest) =
    let kept = evict_entries buckets ttl now rest in
    if is_stale_at buckets ttl now a then kept else (tenant, a) ∷ kept

-- The cleanup only takes entries out of the map.
unfoldable pub clean_up : ℕ → Shared → Shared
unfolding evict_entries
clean_up now s = record s { entries = evict_entries s.buckets s.bucket_ttl now s.entries }

-- What may come next: a request finds its bucket, the `i`th that has found one takes from it, or the
-- cleanup runs.
pub data Move : Type 0 where
  finds : Bytes → ℕ → Move
  takes : ℕ → Move
  cleans : ℕ → Move

unfoldable pub waiting_at : ℕ → List (ℕ × ℕ) → Option (ℕ × ℕ)
waiting_at i [] = none
waiting_at zero (p ∷ ps) = some p
waiting_at (suc i) (p ∷ ps) = waiting_at i ps

unfoldable pub without : ℕ → List (ℕ × ℕ) → List (ℕ × ℕ)
without i [] = []
without zero (p ∷ ps) = ps
without (suc i) (p ∷ ps) = p ∷ without i ps

-- The state without its `i`th waiting request.
abbrev pub left : ℕ → Shared → Shared
left i s = record s { waiting = without i s.waiting }

unfoldable pub move : Shared → Move → Shared
move s (finds tenant now) = find_bucket tenant now s
move s (takes i) = elim (waiting_at i s.waiting) [
  | none ↦ s
  | some p ↦ (take_from p.0 p.1 (left i s)).1
]
move s (cleans now) = clean_up now s

-- What a move grants from the bucket at an address.
unfoldable pub grants : ℕ → Shared → Move → ℕ
grants a s (finds tenant now) = 0
grants a s (takes i) = elim (waiting_at i s.waiting) [
  | none ↦ 0
  | some p ↦ if (p.0 == a) && (take_from p.0 p.1 (left i s)).0.0 then 1 else 0
]
grants a s (cleans now) = 0

abbrev pub granted_from : ℕ → Shared → List Move → ℕ
granted_from a s [] = 0
granted_from a s (m ∷ ms) = grants a s m + granted_from a (move s m) ms

abbrev pub new_shared : ℕ → ℕ → Shared
new_shared rps ttl = record {
  buckets = [];
  entries = [];
  waiting = [];
  rps = rps;
  bucket_ttl = ttl;
}
