-- ===== src/Runenv/Demo/Reconciliation.antt =====
-- What a successful reconciliation means.
use ingestkit.Prelude.{
  ℕ, ◌+◌, ◌≤◌, ◌≡◌, refl, ◌↔◌, inl, inr, true, false, List, [], ◌∷◌, ◌==◌, ltb, min, length, ok,
  Result-cases, arith, if◌then◌else◌,
}
use ingestkit.Prelude.Counts.{count, length_of_count-le, count_of_length-le}
use ingestkit.Runenv.Demo.{has, put, wanted, see, reconcile_ids}

has-count : (xs : List ℕ) (id : ℕ) → has xs id ≡ ltb 0 (count id xs)
unfolding has
has-count [] id = refl
has-count (x ∷ xs) id = ground (arith, has-count xs id)

count-put :
    (xs : List ℕ) (id a : ℕ)
    → count a (put xs id) ≡ (
        if (id == a)
        then (if ltb 0 (count id xs) then count a xs else 1 + count a xs)
        else count a xs)
unfolding put
count-put xs id a = ground (arith, has-count xs id)

-- As a set, the expected identifiers.
count-wanted :
    (want expected : List ℕ) (a : ℕ)
    → count a want ≤ 1
    → count a (wanted want expected) ≡ min 1 (count a want + count a expected)
unfolding wanted
count-wanted want [] a h = omega arith
count-wanted want (id ∷ expected) a h =
    ground (arith, count-put want id a, count-wanted (put want id) expected a)

step :
    (want seen : List ℕ) (id b : ℕ)
    → has seen id ≡ false
    → has want id ≡ true
    → count b seen ≤ count b want
    → count b (put seen id) ≤ count b want
step want seen id b f k h =
    ground (arith, count-put seen id b, has-count seen id, has-count want id)

see-count :
    (want seen actual s : List ℕ)
    → see want seen actual ≡ ok s
    → ((a : ℕ) → count a seen ≤ count a want)
    → (a : ℕ) → (count a s ≡ count a seen + count a actual) × (count a s ≤ count a want)
unfolding see
see-count want seen [] s e h a =
    let same : s ≡ seen = ground arith in (rw same (omega arith), rw same (h a))
see-count want seen (id ∷ actual) s e h a =
    let fresh : has seen id ≡ false = ground arith in
    let known : has want id ≡ true = ground arith in
    let rest : see want (put seen id) actual ≡ ok s = ground arith in
    let within = λ (b : ℕ). step want seen id b fresh known (h b) in
    ground (
      arith,
      see-count want (put seen id) actual s rest within a,
      count-put seen id a,
      has-count seen id,
    )

count-see :
    (want seen actual : List ℕ)
    → ((a : ℕ) → count a want ≤ 1)
    → ((a : ℕ) → count a seen + count a actual ≤ count a want)
    → (s : List ℕ) × (see want seen actual ≡ ok s)
unfolding see
count-see want seen [] u h = (seen, refl)
count-see want seen (id ∷ actual) u h =
    let fresh : has seen id ≡ false = ground (arith, has-count seen id, h id, u id) in
    let known : has want id ≡ true = ground (arith, has-count want id, h id) in
    rw (fresh, known)
      (count-see want (put seen id) actual u
        (λ b. ground (arith, count-put seen id b, has-count seen id, h b)))

-- The reconciliation succeeds exactly if every identifier that was expected, however often, is
-- stored once, and no other is stored.
pub reconcile_ids_iff :
    (expected actual : List ℕ)
    → (reconcile_ids expected actual ≡ ok tt)
      ↔ ((id : ℕ) → count id actual ≡ min 1 (count id expected))
unfolding reconcile_ids
reconcile_ids_iff expected actual =
    let want = wanted [] expected in
    let counted = λ (a : ℕ). count-wanted [] expected a (omega arith) in
    (
      λ h id. elim (Result-cases (see want [] actual)) [
        | inr w ↦ absurd (ground arith)
        | inl w ↦
            let parts = see-count want [] actual w.0 w.1 (λ a. omega arith) in
            let lengths : length want ≤ length w.0 = ground arith in
            omega (
              arith,
              parts id,
              counted id,
              count_of_length-le w.0 want (λ a. (parts a).1) lengths id,
            )
      ],
      λ h.
          let (s, e) =
            count-see want [] actual (λ a. omega (arith, counted a))
              (λ a. omega (arith, counted a, h a)) in
          let parts = see-count want [] actual s e (λ a. omega arith) in
          let below : length s ≤ length want = length_of_count-le s want (λ a. (parts a).1) in
          let above : length want ≤ length s =
            length_of_count-le want s (λ a. omega (arith, parts a, counted a, h a)) in
          rw e (ground (arith, below, above)),
    )
