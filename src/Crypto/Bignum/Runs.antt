-- ===== src/Crypto/Bignum/Runs.antt =====
-- Numbers of several limbs, and the theorems about them at those numbers.
use skarbiec.Prelude.{◌-◌, ◌*◌, ◌%◌, ◌^◌, ◌≡◌, refl, [], ◌∷◌, some, arith}
use skarbiec.Crypto.Bignum.{
  Big, checked_sub, mul, rem, mod_pow, mod_inverse_prime, trim, sub_limbs, cmp, iter_cmp, is_zero,
  carry_on, mul_row, mul_rows, zeros, bit_length, last, bits, get_elem?, bit, shl_limbs, set_low,
  rem_step, rem_loop, mod_mul, pow_loop,
}
use skarbiec.Crypto.Bignum.Value.{value, value_of, IsTrimmed, IsValid, Returns}
use skarbiec.Crypto.Bignum.Sum.{checked_sub-Returns}
use skarbiec.Crypto.Bignum.Product.{mul-Returns}
use skarbiec.Crypto.Bignum.Power.{mod_pow-Returns, mod_inverse_prime-Inverse}
use skarbiec.Crypto.Bignum.Bytes.{from_be_bytes, to_be_bytes}
use skarbiec.Crypto.Bignum.Bytes.RoundTrip.{to_be_bytes-from_be_bytes}

abbrev largest : Big
largest = record { limbs = 18446744073709551615 ∷ 18446744073709551615 ∷ [] }

abbrev small : Big
small = record { limbs = 7 ∷ [] }

abbrev prime : Big
prime = record { limbs = 1000000007 ∷ [] }

largest-IsValid : IsValid largest
unfolding IsTrimmed
largest-IsValid = record { words = (omega arith, (omega arith, tt)); high = omega arith }

small-IsValid : IsValid small
unfolding IsTrimmed
small-IsValid = record { words = (omega arith, tt); high = omega arith }

prime-IsValid : IsValid prime
unfolding IsTrimmed
prime-IsValid = record { words = (omega arith, tt); high = omega arith }

largest_square :
    mul largest largest
    ≡ some (record { limbs = 1 ∷ 0 ∷ 18446744073709551614 ∷ 18446744073709551615 ∷ [] })
unfolding mul is_zero mul_rows mul_row carry_on zeros trim
largest_square = refl

power_run : mod_pow small largest prime ≡ some (record { limbs = 227281690 ∷ [] })
unfolding mod_pow rem is_zero cmp iter_cmp rem_loop rem_step shl_limbs set_low bit get_elem? bits
    last bit_length checked_sub sub_limbs trim pow_loop mod_mul mul mul_rows mul_row carry_on zeros
power_run = refl

mul-Returns_example : Returns (mul largest small) (value largest * value small)
mul-Returns_example = mul-Returns largest small largest-IsValid small-IsValid

mod_pow-Returns_example :
    Returns (mod_pow largest small prime) (value largest ^ value small % value prime)
unfolding value_of
mod_pow-Returns_example =
    mod_pow-Returns largest small prime largest-IsValid small-IsValid prime-IsValid (omega arith)

checked_sub-Returns_example : Returns (checked_sub largest small) (value largest - value small)
unfolding value_of
checked_sub-Returns_example =
    checked_sub-Returns largest small largest-IsValid small-IsValid (omega arith)

mod_inverse_prime-Inverse_example :
    (b : Big) × (mod_inverse_prime small (record { limbs = 11 ∷ [] }) ≡ some (some b))
    × (value small * value b % 11 ≡ 1)
unfolding value_of IsTrimmed
mod_inverse_prime-Inverse_example =
    mod_inverse_prime-Inverse small (record { limbs = 11 ∷ [] }) small-IsValid
      (record { words = (omega arith, tt); high = omega arith }) (omega arith) refl

to_be_bytes-from_be_bytes_example :
    to_be_bytes (from_be_bytes (0 ∷ 1 ∷ 2 ∷ 3 ∷ 4 ∷ 5 ∷ 6 ∷ 7 ∷ 8 ∷ 9 ∷ [])) 10
    ≡ some (0 ∷ 1 ∷ 2 ∷ 3 ∷ 4 ∷ 5 ∷ 6 ∷ 7 ∷ 8 ∷ 9 ∷ [])
to_be_bytes-from_be_bytes_example =
    to_be_bytes-from_be_bytes (0 ∷ 1 ∷ 2 ∷ 3 ∷ 4 ∷ 5 ∷ 6 ∷ 7 ∷ 8 ∷ 9 ∷ []) (
      omega arith,
      (
        omega arith,
        (
          omega arith,
          (
            omega arith,
            (
              omega arith,
              (omega arith, (omega arith, (omega arith, (omega arith, (omega arith, tt))))),
            ),
          ),
        ),
      ),
    )
