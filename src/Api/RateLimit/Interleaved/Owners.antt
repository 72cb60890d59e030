-- ===== src/Api/RateLimit/Interleaved/Owners.antt =====
-- Whose bucket a request takes from, whatever comes between the two sections of the requests.
use ingestkit.Prelude.{
  ℕ, zero, suc, ◌≡◌, refl, sym, ap, ◌∙◌, Bool-cases, inl, inr, false, Option, none, some,
  Option-cases, List, [], ◌∷◌, ◌++◌, Bytes, bytes_eq, bytes_eq_iff, length, length-append, All,
  arith, ◌==◌,
}
use ingestkit.Prelude.Assoc.{Assoc, lookup, insert}
use ingestkit.Api.RateLimit.{Bucket, bucket_for, take_token}
use ingestkit.Api.RateLimit.Interleaved.{
  Shared, bucket_at, set_at, find_bucket, take_from, is_stale_at, evict_entries, clean_up, Move,
  finds, takes, cleans, waiting_at, left, move, new_shared,
}

-- The tenants for whom the buckets were made, by their addresses.
abbrev pub owners_after : List Bytes → Shared → Move → List Bytes
owners_after os s (finds tenant now) = elim (lookup tenant s.entries) [
  | none ↦ os ++ tenant ∷ []
  | some a ↦ os
]
owners_after os s (takes i) = os
owners_after os s (cleans now) = os

abbrev pub moves : Shared → List Bytes → List Move → Shared × List Bytes
moves s os [] = (s, os)
moves s os (m ∷ ms) = moves (move s m) (owners_after os s m) ms

abbrev pub owner_at : List Bytes → ℕ → Option Bytes
owner_at [] a = none
owner_at (t ∷ ts) zero = some t
owner_at (t ∷ ts) (suc a) = owner_at ts a

owner_at-append :
    (os ts : List Bytes) (a : ℕ) (t : Bytes)
    → owner_at os a ≡ some t
    → owner_at (os ++ ts) a ≡ some t
owner_at-append [] ts a t h = absurd (ground arith)
owner_at-append (o ∷ os) ts zero t h = h
owner_at-append (o ∷ os) ts (suc a) t h = owner_at-append os ts a t h

owner_at-length : (os : List Bytes) (t : Bytes) → owner_at (os ++ t ∷ []) (length os) ≡ some t
owner_at-length [] t = refl
owner_at-length (o ∷ os) t = owner_at-length os t

abbrev pub OwnedBy : List Bytes → Bytes × ℕ → Type 0
OwnedBy os (tenant, a) = owner_at os a ≡ some tenant

-- Each bucket has an owner, and each entry of the map is of the owner of its bucket.
record IsOwned (s : Shared) (os : List Bytes) : Type 0 where
  counted : length os ≡ length s.buckets
  entered : All (OwnedBy os) s.entries

entry-OwnedBy :
    (os : List Bytes) (u : Bytes) (a : ℕ) (m : Assoc ℕ)
    → All (OwnedBy os) m
    → lookup u m ≡ some a
    → owner_at os a ≡ some u
unfolding lookup
entry-OwnedBy os u a [] h e = absurd (ground arith)
entry-OwnedBy os u a ((k, b) ∷ m) h e = elim (Bool-cases (bytes_eq k u)) [
  | inl q ↦
      let same : k ≡ u = (bytes_eq_iff k u).0 q in
      let there : b ≡ a = ground (arith, e, q) in rw (← there) (h.0 ∙ ap (λ x. some x) same)
  | inr q ↦ entry-OwnedBy os u a m h.1 (ground (arith, e, q))
]

insert-OwnedBy :
    (os : List Bytes) (u : Bytes) (a : ℕ) (m : Assoc ℕ)
    → owner_at os a ≡ some u
    → All (OwnedBy os) m
    → All (OwnedBy os) (insert u a m)
unfolding insert
insert-OwnedBy os u a [] p h = (p, tt)
insert-OwnedBy os u a ((k, b) ∷ m) p h = elim (Bool-cases (bytes_eq k u)) [
  | inl q ↦ rw q (p, h.1)
  | inr q ↦ rw q (h.0, insert-OwnedBy os u a m p h.1)
]

evict-OwnedBy :
    (os : List Bytes) (bs : List Bucket) (ttl now : ℕ) (m : Assoc ℕ)
    → All (OwnedBy os) m
    → All (OwnedBy os) (evict_entries bs ttl now m)
unfolding evict_entries
evict-OwnedBy os bs ttl now [] h = tt
evict-OwnedBy os bs ttl now ((k, a) ∷ m) h = elim (Bool-cases (is_stale_at bs ttl now a)) [
  | inl q ↦ rw q (evict-OwnedBy os bs ttl now m h.1)
  | inr q ↦ rw q (h.0, evict-OwnedBy os bs ttl now m h.1)
]

later-OwnedBy : (os ts : List Bytes) (m : Assoc ℕ) → All (OwnedBy os) m → All (OwnedBy (os ++ ts)) m
later-OwnedBy os ts [] h = tt
later-OwnedBy os ts ((k, a) ∷ m) h = (owner_at-append os ts a k h.0, later-OwnedBy os ts m h.1)

length-set_at : (a : ℕ) (c : Bucket) (bs : List Bucket) → length (set_at a c bs) ≡ length bs
unfolding set_at
length-set_at a c [] = refl
length-set_at zero c (b ∷ bs) = refl
length-set_at (suc a) c (b ∷ bs) = ap suc (length-set_at a c bs)

take_from-IsOwned :
    (a now : ℕ) (s : Shared) (os : List Bytes) → IsOwned s os → IsOwned (take_from a now s).1 os
unfolding take_from
take_from-IsOwned a now s os o = elim (Option-cases (bucket_at s.buckets a)) [
  | inl e ↦ rw (e, take_from) (record { counted = o.counted; entered = o.entered })
  | inr (b, e) ↦
      rw (e, take_from)
        (record {
          counted = o.counted ∙ sym (length-set_at a (take_token s.rps now b).1 s.buckets);
          entered = o.entered;
        })
]

-- The address that a request of a tenant has found is that of a bucket made for the tenant.
record Finds (s s' : Shared) (os : List Bytes) (tenant : Bytes) (now : ℕ) : Type 0 where
  owned : IsOwned s' os
  address : ℕ
  waits : s'.waiting ≡ s.waiting ++ (address, now) ∷ []
  own : owner_at os address ≡ some tenant

find_bucket-Finds :
    (s : Shared) (os : List Bytes) (tenant : Bytes) (now : ℕ)
    → IsOwned s os
    → Finds s (find_bucket tenant now s) (owners_after os s (finds tenant now)) tenant now
unfolding find_bucket
find_bucket-Finds s os tenant now o = elim (Option-cases (lookup tenant s.entries)) [
  | inr (a, e) ↦
      rw (e, find_bucket, owners_after)
        (record {
          owned = record { counted = o.counted; entered = o.entered };
          address = a;
          waits = refl;
          own = entry-OwnedBy os tenant a s.entries o.entered e;
        })
  | inl e ↦
      let here : owner_at (os ++ tenant ∷ []) (length s.buckets) ≡ some tenant =
        rw (← o.counted) (owner_at-length os tenant) in
      rw (e, find_bucket, owners_after)
        (record {
          owned = record {
            counted = omega (
              arith,
              o.counted,
              length-append os (tenant ∷ []),
              length-append s.buckets (bucket_for s.rps now none ∷ []),
            );
            entered =
                insert-OwnedBy (os ++ tenant ∷ []) tenant (length s.buckets) s.entries here
                  (later-OwnedBy os (tenant ∷ []) s.entries o.entered);
          };
          address = length s.buckets;
          waits = refl;
          own = here;
        })
]

move-IsOwned :
    (s : Shared) (os : List Bytes) (m : Move)
    → IsOwned s os
    → IsOwned (move s m) (owners_after os s m)
unfolding move clean_up
move-IsOwned s os (finds tenant now) o = (find_bucket-Finds s os tenant now o).owned
move-IsOwned s os (cleans now) o = record {
  counted = o.counted;
  entered = evict-OwnedBy os s.buckets s.bucket_ttl now s.entries o.entered;
}
move-IsOwned s os (takes i) o = elim (Option-cases (waiting_at i s.waiting)) [
  | inl e ↦ rw (e, move) o
  | inr (p, e) ↦
      rw (e, move)
        (take_from-IsOwned p.0 p.1 (left i s) os
          (record { counted = o.counted; entered = o.entered }))
]

moves-IsOwned :
    (s : Shared) (os : List Bytes) (ms : List Move)
    → IsOwned s os
    → IsOwned (moves s os ms).0 (moves s os ms).1
moves-IsOwned s os [] o = o
moves-IsOwned s os (m ∷ ms) o =
    moves-IsOwned (move s m) (owners_after os s m) ms (move-IsOwned s os m o)

owner_at-after :
    (os : List Bytes) (s : Shared) (m : Move) (a : ℕ) (t : Bytes)
    → owner_at os a ≡ some t
    → owner_at (owners_after os s m) a ≡ some t
owner_at-after os s (takes i) a t h = h
owner_at-after os s (cleans now) a t h = h
owner_at-after os s (finds tenant now) a t h = elim (Option-cases (lookup tenant s.entries)) [
  | inl e ↦ rw (e, owners_after) (owner_at-append os (tenant ∷ []) a t h)
  | inr (d, e) ↦ rw (e, owners_after) h
]

owner_at-moves :
    (s : Shared) (os : List Bytes) (ms : List Move) (a : ℕ) (t : Bytes)
    → owner_at os a ≡ some t
    → owner_at (moves s os ms).1 a ≡ some t
owner_at-moves s os [] a t h = h
owner_at-moves s os (m ∷ ms) a t h =
    owner_at-moves (move s m) (owners_after os s m) ms a t (owner_at-after os s m a t h)

bucket_at-set_at_other :
    (a : ℕ) (c : Bucket) (bs : List Bucket) (d : ℕ)
    → (d == a) ≡ false
    → bucket_at (set_at a c bs) d ≡ bucket_at bs d
unfolding bucket_at set_at
bucket_at-set_at_other a c [] d h = refl
bucket_at-set_at_other zero c (b ∷ bs) zero h = absurd (ground arith)
bucket_at-set_at_other zero c (b ∷ bs) (suc d) h = refl
bucket_at-set_at_other (suc a) c (b ∷ bs) zero h = refl
bucket_at-set_at_other (suc a) c (b ∷ bs) (suc d) h =
    bucket_at-set_at_other a c bs d (ground (arith, h))

-- The second section changes no other bucket.
abbrev pub TakesOnly : ℕ → ℕ → Shared → Type 0
TakesOnly address now s =
    (d : ℕ)
    → (d == address) ≡ false
    → bucket_at (take_from address now s).1.buckets d ≡ bucket_at s.buckets d

take_from-TakesOnly : (address now : ℕ) (s : Shared) → TakesOnly address now s
unfolding take_from
take_from-TakesOnly a now s d h = elim (Option-cases (bucket_at s.buckets a)) [
  | inl e ↦ rw (e, take_from) refl
  | inr (b, e) ↦
      rw (e, take_from) (bucket_at-set_at_other a (take_token s.rps now b).1 s.buckets d h)
]

-- A new limiter after some moves, with the owners of its buckets.
abbrev pub reached : ℕ → ℕ → List Move → Shared × List Bytes
reached rps ttl ms = moves (new_shared rps ttl) [] ms

-- Those after one more request has found its bucket, and then some more moves.
abbrev pub reached_later : ℕ → ℕ → List Move → Bytes → ℕ → List Move → Shared × List Bytes
reached_later rps ttl before tenant now after =
    moves (find_bucket tenant now (reached rps ttl before).0)
      (owners_after (reached rps ttl before).1 (reached rps ttl before).0 (finds tenant now)) after

-- Over any interleaving of the critical sections of requests and of cleanups: the bucket that a
-- request has found in the first section is one that was made for its tenant, and stays so
-- whatever comes before the second section, which changes no other bucket; and each entry of the map leads to a bucket
-- that was made for the tenant of the entry, so that no two tenants share one.
pub find_bucket-own :
    (rps ttl : ℕ) (before : List Move) (tenant : Bytes) (now : ℕ) (after : List Move)
    → (address : ℕ) × ((find_bucket tenant now (reached rps ttl before).0).waiting
        ≡ (reached rps ttl before).0.waiting ++ (address, now) ∷ [])
      × (owner_at (reached_later rps ttl before tenant now after).1 address ≡ some tenant)
      × TakesOnly address now (reached_later rps ttl before tenant now after).0
      × All
          (OwnedBy (reached_later rps ttl before tenant now after).1)
          (reached_later rps ttl before tenant now after).0.entries
find_bucket-own rps ttl before tenant now after =
    let (s, os) = reached rps ttl before in
    let start : IsOwned (new_shared rps ttl) [] = record { counted = refl; entered = tt } in
    let f =
      find_bucket-Finds s os tenant now (moves-IsOwned (new_shared rps ttl) [] before start) in
    (
      f.address,
      f.waits,
      owner_at-moves (find_bucket tenant now s) (owners_after os s (finds tenant now)) after
          f.address tenant f.own,
      take_from-TakesOnly f.address now
          (moves (find_bucket tenant now s) (owners_after os s (finds tenant now)) after).0,
      (moves-IsOwned (find_bucket tenant now s) (owners_after os s (finds tenant now)) after
          f.owned).entered,
    )
