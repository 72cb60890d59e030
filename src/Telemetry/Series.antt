-- ===== src/Telemetry/Series.antt =====
-- The series of the metrics library: a metric by its name, with the values of its labels.
use mathlib.Core.List.{Sublistᴰ}
use ingestkit.Prelude.{
  ◌≡◌, Bool, true, false, not, ◌&&◌, ◌||◌, List, [], ◌∷◌, ◌++◌, map, Bytes, bytes_eq, bytes_eq_refl,
  bytes_eq_iff, Bool-cases, inl, inr, arith,
}

abbrev pub Series : Type 0
Series = Bytes × List Bytes

unfoldable pub labels_eq : List Bytes → List Bytes → Bool
labels_eq [] [] = true
labels_eq (a ∷ s) (b ∷ t) = bytes_eq a b && labels_eq s t
labels_eq _ _ = false

abbrev pub series_eq : Series → Series → Bool
series_eq (m, s) (n, t) = bytes_eq m n && labels_eq s t

abbrev pub member : Series → List Series → Bool
member s [] = false
member s (t ∷ ts) = series_eq t s || member s ts

-- No series stands twice.
abbrev pub distinct : List Series → Bool
distinct [] = true
distinct (s ∷ ts) = not (member s ts) && distinct ts

-- The texts of a `case` of a switch.
abbrev pub one_of : Bytes → List Bytes → Bool
one_of s [] = false
one_of s (t ∷ ts) = bytes_eq t s || one_of s ts

-- The series of a metric with one label, and with two.
abbrev pub with_label : Bytes → List Bytes → List Series
with_label m values = map (λ v. (m, v ∷ [])) values

abbrev row_of : Bytes → Bytes → List Bytes → List Series
row_of m a values = map (λ v. (m, a ∷ v ∷ [])) values

abbrev pub with_labels : Bytes → List Bytes → List Bytes → List Series
with_labels m [] values = []
with_labels m (a ∷ firsts) values = row_of m a values ++ with_labels m firsts values

pub member-append_left :
    (s : Series) (xs ys : List Series) → member s xs ≡ true → member s (xs ++ ys) ≡ true
member-append_left s [] ys h = absurd (ground arith)
member-append_left s (x ∷ xs) ys h = ground (arith, member-append_left s xs ys)

pub member-append_right :
    (s : Series) (xs ys : List Series) → member s ys ≡ true → member s (xs ++ ys) ≡ true
member-append_right s [] ys h = h
member-append_right s (x ∷ xs) ys h = ground (arith, member-append_right s xs ys h)

pub member-with_label :
    (m v : Bytes) (values : List Bytes)
    → one_of v values ≡ true
    → member (m, v ∷ []) (with_label m values) ≡ true
unfolding labels_eq
member-with_label m v [] h = absurd (ground arith)
member-with_label m v (x ∷ xs) h = ground (arith, bytes_eq_refl m, member-with_label m v xs)

member-row :
    (m a v : Bytes) (values : List Bytes)
    → one_of v values ≡ true
    → member (m, a ∷ v ∷ []) (row_of m a values) ≡ true
unfolding labels_eq
member-row m a v [] h = absurd (ground arith)
member-row m a v (x ∷ xs) h = ground (arith, bytes_eq_refl m, bytes_eq_refl a, member-row m a v xs)

pub member-with_labels :
    (m a v : Bytes) (firsts values : List Bytes)
    → one_of a firsts ≡ true
    → one_of v values ≡ true
    → member (m, a ∷ v ∷ []) (with_labels m firsts values) ≡ true
member-with_labels m a v [] values h k = absurd (ground arith)
member-with_labels m a v (x ∷ xs) values h k =
    let row = row_of m x values in
    elim (Bool-cases (bytes_eq x a)) [
      | inl e ↦
          member-append_left (m, a ∷ v ∷ []) row (with_labels m xs values)
            (rw ((bytes_eq_iff x a).0 e) (member-row m a v values k))
      | inr e ↦
          member-append_right (m, a ∷ v ∷ []) row (with_labels m xs values)
            (member-with_labels m a v xs values (ground arith) k)
    ]

-- What is left of a list in which no series stands twice has none twice either.
member-Sublist :
    (s : Series) (xs ys : List Series) → Sublistᴰ xs ys → member s ys ≡ false → member s xs ≡ false
member-Sublist s xs ys Sublistᴰ.slnil h = h
member-Sublist s xs (y ∷ ys) (Sublistᴰ.cons d) h = member-Sublist s xs ys d (ground arith)
member-Sublist s (x ∷ xs) (y ∷ ys) (Sublistᴰ.cons-cons e d) h =
    rw e (ground (arith, member-Sublist s xs ys d))

pub distinct-Sublist :
    (xs ys : List Series) → Sublistᴰ xs ys → distinct ys ≡ true → distinct xs ≡ true
distinct-Sublist xs ys Sublistᴰ.slnil h = h
distinct-Sublist xs (y ∷ ys) (Sublistᴰ.cons d) h = distinct-Sublist xs ys d (ground arith)
distinct-Sublist (x ∷ xs) (y ∷ ys) (Sublistᴰ.cons-cons e d) h =
    rw e (ground (arith, member-Sublist y xs ys d, distinct-Sublist xs ys d))
