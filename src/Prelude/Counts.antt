-- ===== src/Prelude/Counts.antt =====
-- How often numbers stand in lists: inclusion and equality of lists up to order.
use Prim.Native.Nat.{ℕ, ◌+◌, ◌≤◌}
use mathlib.Core.Path.{◌≡◌, refl}
use mathlib.Core.List.{List, [], ◌∷◌}
use native.Mathlib.Omega.{arith}
use ingestkit.Prelude.Tests.{◌==◌, if◌then◌else◌}
use ingestkit.Prelude.Lists.{length}

abbrev pub count : ℕ → List ℕ → ℕ
count a [] = 0
count a (x ∷ xs) = (if x == a then 1 else 0) + count a xs

-- The list without the first `x` in it.
remove : ℕ → List ℕ → List ℕ
remove x [] = []
remove x (y ∷ ys) = if y == x then ys else y ∷ remove x ys

count-remove :
    (x a : ℕ) (ys : List ℕ)
    → 1 ≤ count x ys
    → count a (remove x ys) + (if x == a then 1 else 0) ≡ count a ys
unfolding remove
count-remove x a [] h = absurd (omega arith)
count-remove x a (y ∷ ys) h = ground (arith, count-remove x a ys)

length-remove : (x : ℕ) (ys : List ℕ) → 1 ≤ count x ys → length (remove x ys) + 1 ≡ length ys
unfolding remove
length-remove x [] h = absurd (omega arith)
length-remove x (y ∷ ys) h = ground (arith, length-remove x ys)

-- A list that is contained in another is no longer.
pub length_of_count-le :
    (xs ys : List ℕ) → ((a : ℕ) → count a xs ≤ count a ys) → length xs ≤ length ys
length_of_count-le [] ys h = omega arith
length_of_count-le (x ∷ xs) ys h =
    let there : 1 ≤ count x ys = ground (arith, h x) in
    omega (
      arith,
      length-remove x ys there,
      length_of_count-le xs (remove x ys) (λ a. ground (arith, h a, count-remove x a ys there)),
    )

-- A list that is contained in one of no greater length is equal to it up to order.
pub count_of_length-le :
    (xs ys : List ℕ)
    → ((a : ℕ) → count a xs ≤ count a ys)
    → length ys ≤ length xs
    → (a : ℕ) → count a xs ≡ count a ys
count_of_length-le [] [] h l a = refl
count_of_length-le [] (y ∷ ys) h l a = absurd (omega arith)
count_of_length-le (x ∷ xs) ys h l a =
    let there : 1 ≤ count x ys = ground (arith, h x) in
    ground (
      arith,
      count-remove x a ys there,
      count_of_length-le xs (remove x ys) (λ b. ground (arith, h b, count-remove x b ys there))
          (omega (arith, length-remove x ys there)) a,
    )
