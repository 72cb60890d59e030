-- ===== src/Examples/Numbers.antt =====
-- Numbers at the limits of what PostgreSQL stores.
use ingestkit.Prelude.{◌≡◌, refl, true, false, codes, ◌+ℤ◌, ◌-ℤ◌}
use ingestkit.Event.Number.{
  trim_minus, split_at, parse_int32, digits, digits_from, without_points, leading_zeros, fits,
  representable_number,
}

plain_number : representable_number (codes "-12.50") ≡ true
unfolding representable_number trim_minus split_at parse_int32 digits digits_from fits
    without_points leading_zeros ◌+ℤ◌ ◌-ℤ◌
plain_number = refl

small_number : representable_number (codes "1e-16383") ≡ true
unfolding representable_number trim_minus split_at parse_int32 digits digits_from fits
    without_points leading_zeros ◌+ℤ◌ ◌-ℤ◌
small_number = refl

too_small_number : representable_number (codes "1e-16384") ≡ false
unfolding representable_number trim_minus split_at parse_int32 digits digits_from fits
    without_points leading_zeros ◌+ℤ◌ ◌-ℤ◌
too_small_number = refl

large_number : representable_number (codes "0.001e131074") ≡ true
unfolding representable_number trim_minus split_at parse_int32 digits digits_from fits
    without_points leading_zeros ◌+ℤ◌ ◌-ℤ◌
large_number = refl

too_large_number : representable_number (codes "1E131072") ≡ false
unfolding representable_number trim_minus split_at parse_int32 digits digits_from fits
    without_points leading_zeros ◌+ℤ◌ ◌-ℤ◌
too_large_number = refl
